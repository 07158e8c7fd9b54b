-- ===== src/Workers.antt =====
-- Socket/ThreadPool.hpp. Every critical section of the pool's mutex is one step, so an execution is
-- a sequence of steps of the owner and of the threads; a step that its thread cannot make, since it
-- waits or the object is gone, is `none`. What tasks compute is not modelled.
pub mod Sound
pub mod Drained
mod Tests
use mux.Prelude.{
  ℕ, zero, suc, ◌+◌, ◌-◌, ◌*◌, ◌/◌, ◌%◌, ◌^◌, ◌≤◌, ◌<◌, ◌≡◌, refl, sym, ap, ◌∙◌, ◌≡⟨◌⟩◌, ◌∎, ◌≢◌,
  ◌↔◌, ◌⊎◌, inl, inr, Bool, true, false, not, ◌&&◌, ◌||◌, Option, none, some, List, [], ◌∷◌, ◌++◌,
  map, append_assoc, append-nil, arith, ltb, leb, nat_beq, nat_beq_iff, if◌then◌else◌, Bool-cases,
  Option-cases, eq-false_of_ne_true, length, take, drop, length-append, take-length,
  drop-length-append, All, All-append, HasEq, ◌==◌, nat_eq, bytes_eq, bytes_beq, bytes_beq_iff,
  eq_self, ne_of_beq,
}
use mux.Prelude.Int.{ℤ, pos, negsuc, minus_one, int_beq, int_beq_iff, int_eq, is_neg, is_pos}
use mux.Prelude.Map.{
  Map, find, contains, insert, erase, subscript, find-insert, find-erase, contains-find, map_laws,
}
use mux.Prelude.Bytes.{Bytes, codes, cr, lf, crlf, Lacks}
use mux.Prelude.Decimal.{
  print_nat, print_int, read_nat, IsDigit, read_nat-print_nat, print_nat-Lacks, print_int-Lacks,
}

pub data Worker (T : Type 0) : Type 0 where
  idle finished : Worker T
  running : T → Worker T

pub record Pool (T : Type 0) : Type 0 where
  -- tasks_, oldest first
  pub tasks : List T
  pub threads : List (Worker T)
  pub stop : Bool
  -- what was added, what was taken and how many tasks have returned, for the theorems only
  pub added : List T
  pub taken : List T
  pub returned : ℕ

pub data Step (T : Type 0) : Type 0 where
  -- addTask by the owner, before the destructor
  adding : T → Step T
  -- addTask by the task that a thread runs
  spawning : ℕ → T → Step T
  -- the next step of a thread in workerThread
  working : ℕ → Step T
  -- the destructor sets stop_ and wakes every thread
  stopping : Step T

module _ {T : Type 0} where
  idle_threads : ℕ → List (Worker T)
  idle_threads zero = []
  idle_threads (suc n) = idle ∷ idle_threads n

  pub new_pool : ℕ → Pool T
  unfolding idle_threads
  new_pool num_threads = record {
    tasks = [];
    threads = idle_threads num_threads;
    stop = false;
    added = [];
    taken = [];
    returned = 0;
  }

  worker_at : ℕ → List (Worker T) → Option (Worker T)
  worker_at i [] = none
  worker_at zero (w ∷ ws) = some w
  worker_at (suc i) (w ∷ ws) = worker_at i ws

  put : ℕ → Worker T → List (Worker T) → List (Worker T)
  put i v [] = []
  put zero v (w ∷ ws) = v ∷ ws
  put (suc i) v (w ∷ ws) = w ∷ put i v ws

  -- addTask
  pub add_task : Pool T → T → Pool T
  add_task p x = record p { tasks = p.tasks ++ x ∷ []; added = p.added ++ x ∷ [] }

  -- A thread that holds the lock: it takes the oldest task, ends, or waits on.
  woken : ℕ → List T → Pool T → Option (Pool T)
  unfolding put
  woken i [] p = if p.stop then some (record p { threads = put i finished p.threads }) else none
  woken i (x ∷ rest) p =
      some (record p {
        tasks = rest;
        threads = put i (running x) p.threads;
        taken = p.taken ++ x ∷ [];
      })

  worker_thread : ℕ → Option (Worker T) → Pool T → Option (Pool T)
  unfolding put woken
  worker_thread i none p = none
  worker_thread i (some finished) p = none
  worker_thread i (some idle) p = woken i p.tasks p
  worker_thread i (some (running x)) p =
      some (record p { threads = put i idle p.threads; returned = suc p.returned })

  spawn : Option (Worker T) → T → Pool T → Option (Pool T)
  unfolding add_task
  spawn (some (running y)) x p = some (add_task p x)
  spawn _ x p = none

  pub step : Step T → Pool T → Option (Pool T)
  unfolding worker_thread worker_at spawn add_task
  step (adding x) p = if p.stop then none else some (add_task p x)
  step (spawning i x) p = spawn (worker_at i p.threads) x p
  step (working i) p = worker_thread i (worker_at i p.threads) p
  step stopping p = some (record p { stop = true })

  unfoldable pub run : List (Step T) → Pool T → Option (Pool T)
  unfolding step
  run [] p = some p
  run (s ∷ steps) p = elim (step s p) [ none ↦ none | some q ↦ run steps q ]
