-- ===== src/Workers/Tests.antt =====
-- Socket/ThreadPool.hpp: an execution of two threads.
use mux.Prelude.{ℕ, ◌≡◌, refl, true, some, List, [], ◌∷◌, arith, length, nat_eq, bytes_eq}
use mux.Prelude.Int.{int_eq}
use mux.Workers.{
  finished, Pool, Step, adding, spawning, working, stopping, idle_threads, new_pool, worker_at, put,
  add_task, woken, worker_thread, spawn, step, run,
}
use mux.Workers.Sound.{total}
use mux.Workers.Drained.{run-drained}

-- Two tasks; the first adds a third while the destructor waits.
abbrev execution : List (Step ℕ)
execution =
    adding 7
    ∷ adding 8
    ∷ working 0
    ∷ working 1
    ∷ stopping
    ∷ spawning 0 9
    ∷ working 1
    ∷ working 1
    ∷ working 0
    ∷ working 0
    ∷ working 1
    ∷ working 1
    ∷ []

abbrev left : Pool ℕ
left = record {
  tasks = [];
  threads = finished ∷ finished ∷ [];
  stop = true;
  added = 7 ∷ 8 ∷ 9 ∷ [];
  taken = 7 ∷ 8 ∷ 9 ∷ [];
  returned = 3;
}

ran : run execution (new_pool 2) ≡ some left
unfolding run step worker_thread woken spawn worker_at put add_task new_pool idle_threads
ran = refl

run-drained_example :
    (left.tasks ≡ []) × (left.taken ≡ left.added) × (left.returned ≡ length left.added)
unfolding total
run-drained_example = run-drained 2 execution left (omega arith) ran refl
