-- ===== src/Workers/Sound.antt =====
-- Socket/ThreadPool.hpp: the invariant of an execution.
use mux.Prelude.{
  ℕ, zero, suc, ◌+◌, ◌≤◌, ◌<◌, ◌≡◌, refl, sym, ap, ◌∙◌, ◌⊎◌, inl, inr, true, false, Option, none,
  some, List, [], ◌∷◌, ◌++◌, append_assoc, arith, Bool-cases, Option-cases, length, length-append,
  nat_eq, bytes_eq,
}
use mux.Prelude.Int.{int_eq}
use mux.Workers.{
  Worker, idle, finished, running, Pool, Step, adding, spawning, working, stopping, idle_threads,
  new_pool, worker_at, put, add_task, woken, worker_thread, spawn, step, run,
}

some-inj : {A : Type 0} {a b : A} → some a ≡ some b → a ≡ b
some-inj {a = a} e = ap (λ o. elim o [ some x ↦ x | none ↦ a ]) e

no_value : {A : Type 0} (a : A) → none ≡ some a → ⊥
no_value a c = cc

length-idle_threads : (T : Type 0) (n : ℕ) → length (idle_threads {T = T} n) ≡ n
unfolding idle_threads
length-idle_threads T zero = refl
length-idle_threads T (suc n) = ap suc (length-idle_threads T n)

module _ {T : Type 0} where
  abbrev pub busy : Worker T → ℕ
  busy (running x) = 1
  busy _ = 0

  abbrev pub ended : Worker T → ℕ
  ended finished = 1
  ended _ = 0

  unfoldable pub total : (Worker T → ℕ) → List (Worker T) → ℕ
  total f [] = 0
  total f (w ∷ ws) = f w + total f ws

  -- What holds of a pool that has threads at every moment: tasks are taken in the order in which
  -- they were added, none twice and none left out; those taken have returned or run; no thread ends
  -- before `stop`; and while a task waits, there is a thread that has not ended.
  pub record IsSound (p : Pool T) : Type 0 where
    pub staffed : 0 < length p.threads
    pub fifo : p.added ≡ p.taken ++ p.tasks
    pub counted : length p.taken ≡ p.returned + total busy p.threads
    pub alive : p.stop ≡ false → total ended p.threads ≡ 0
    pub served : (p.tasks ≡ []) ⊎ (total ended p.threads < length p.threads)

  total-put :
      (f : Worker T → ℕ) (i : ℕ) (v w : Worker T) (ws : List (Worker T))
      → worker_at i ws ≡ some w
      → total f (put i v ws) + f w ≡ total f ws + f v
  unfolding total put worker_at
  total-put f i v w [] h = cc
  total-put f zero v w (u ∷ ws) h = rw (← some-inj h) (omega arith)
  total-put f (suc i) v w (u ∷ ws) h = omega (arith, total-put f i v w ws h)

  length-put : (i : ℕ) (v : Worker T) (ws : List (Worker T)) → length (put i v ws) ≡ length ws
  unfolding put
  length-put i v [] = refl
  length-put zero v (w ∷ ws) = refl
  length-put (suc i) v (w ∷ ws) = omega (arith, length-put i v ws)

  ended-≤ : (w : Worker T) → ended w ≤ 1
  ended-≤ finished = omega arith
  ended-≤ _ = omega arith

  pub total-ended-≤ : (ws : List (Worker T)) → total ended ws ≤ length ws
  unfolding total
  total-ended-≤ [] = omega arith
  total-ended-≤ (finished ∷ ws) = omega (arith, total-ended-≤ ws)
  total-ended-≤ (_ ∷ ws) = omega (arith, total-ended-≤ ws)

  -- A thread that has not ended is among those that have not.
  one_alive :
      (i : ℕ) (w : Worker T) (ws : List (Worker T))
      → worker_at i ws ≡ some w
      → ended w ≡ 0
      → total ended ws < length ws
  unfolding total worker_at
  one_alive i w [] h n = cc
  one_alive zero w (u ∷ ws) h n =
      let e : ended u ≡ 0 = ap ended (some-inj h) ∙ n in omega (arith, total-ended-≤ ws)
  one_alive (suc i) w (u ∷ ws) h n = omega (arith, one_alive i w ws h n, ended-≤ u)

  add_task-IsSound :
      (p : Pool T) (x : T)
      → total ended p.threads < length p.threads
      → IsSound p
      → IsSound (add_task p x)
  unfolding add_task
  add_task-IsSound p x n s = record {
    staffed = s.staffed;
    fifo = ap (λ l. l ++ x ∷ []) s.fifo ∙ append_assoc p.taken p.tasks (x ∷ []);
    counted = s.counted;
    alive = s.alive;
    served = inr n;
  }

  woken-IsSound :
      (i : ℕ) (tasks : List T) (p q : Pool T)
      → worker_at i p.threads ≡ some idle
      → p.tasks ≡ tasks
      → woken i tasks p ≡ some q
      → IsSound p
      → IsSound q
  unfolding woken
  woken-IsSound i [] p q w e h s = elim (Bool-cases p.stop) [
    | inr k ↦ elim (no_value q (rw k at h)) [ ]
    | inl k ↦
        let same = some-inj (rw k at h) in
        rw (← same) (record {
          staffed = omega (arith, s.staffed, length-put i finished p.threads);
          fifo = s.fifo;
          counted = omega (arith, s.counted, total-put busy i finished idle p.threads w);
          alive = λ c. elim (wrong c) [ ];
          served = inl e;
        })
  ]
    where
      wrong : true ≡ false → ⊥
      wrong c = cc
  woken-IsSound i (x ∷ rest) p q w e h s =
      let ended_put = total-put ended i (running x) idle p.threads w in
      let live = one_alive i idle p.threads w refl in
      rw (← some-inj h) (record {
        staffed = omega (arith, s.staffed, length-put i (running x) p.threads);
        fifo = s.fifo ∙ ap (λ l. p.taken ++ l) e ∙ sym (append_assoc p.taken (x ∷ []) rest);
        counted = omega (
          arith,
          s.counted,
          length-append p.taken (x ∷ []),
          total-put busy i (running x) idle p.threads w,
        );
        alive = λ c. omega (arith, s.alive c, ended_put);
        served = inr (omega (arith, live, ended_put, length-put i (running x) p.threads));
      })

  worker_thread-IsSound :
      (i : ℕ) (o : Option (Worker T)) (p q : Pool T)
      → worker_at i p.threads ≡ o
      → worker_thread i o p ≡ some q
      → IsSound p
      → IsSound q
  unfolding worker_thread
  worker_thread-IsSound i none p q w h s = elim (no_value q h) [ ]
  worker_thread-IsSound i (some finished) p q w h s = elim (no_value q h) [ ]
  worker_thread-IsSound i (some idle) p q w h s = woken-IsSound i p.tasks p q w refl h s
  worker_thread-IsSound i (some (running x)) p q w h s =
      let ended_put = total-put ended i idle (running x) p.threads w in
      let live = one_alive i (running x) p.threads w refl in
      rw (← some-inj h) (record {
        staffed = omega (arith, s.staffed, length-put i idle p.threads);
        fifo = s.fifo;
        counted = omega (arith, s.counted, total-put busy i idle (running x) p.threads w);
        alive = λ c. omega (arith, s.alive c, ended_put);
        served = inr (omega (arith, live, ended_put, length-put i idle p.threads));
      })

  spawn-IsSound :
      (i : ℕ) (o : Option (Worker T)) (x : T) (p q : Pool T)
      → worker_at i p.threads ≡ o
      → spawn o x p ≡ some q
      → IsSound p
      → IsSound q
  unfolding spawn
  spawn-IsSound i (some (running y)) x p q w h s =
      rw (← some-inj h) (add_task-IsSound p x (one_alive i (running y) p.threads w refl) s)
  spawn-IsSound i none x p q w h s = elim (no_value q h) [ ]
  spawn-IsSound i (some idle) x p q w h s = elim (no_value q h) [ ]
  spawn-IsSound i (some finished) x p q w h s = elim (no_value q h) [ ]

  step-IsSound : (c : Step T) (p q : Pool T) → step c p ≡ some q → IsSound p → IsSound q
  unfolding step
  step-IsSound (adding x) p q h s = elim (Bool-cases p.stop) [
    | inl e ↦ elim (no_value q (rw e at h)) [ ]
    | inr e ↦
        let none_ended = s.alive e in
        rw (← some-inj (rw e at h)) (
          add_task-IsSound (record p { stop = false }) x (omega (arith, none_ended, s.staffed))
            (record {
              staffed = s.staffed;
              fifo = s.fifo;
              counted = s.counted;
              alive = λ c. none_ended;
              served = s.served;
            }))
  ]
  step-IsSound (spawning i x) p q h s = spawn-IsSound i _ x p q refl h s
  step-IsSound (working i) p q h s = worker_thread-IsSound i _ p q refl h s
  step-IsSound stopping p q h s = rw (← some-inj h) (record {
    staffed = s.staffed;
    fifo = s.fifo;
    counted = s.counted;
    alive = λ c. elim (not_stopped c) [ ];
    served = s.served;
  })
    where
      not_stopped : true ≡ false → ⊥
      not_stopped c = cc

  pub run-IsSound :
      (steps : List (Step T)) (p q : Pool T) → run steps p ≡ some q → IsSound p → IsSound q
  unfolding run
  run-IsSound [] p q h s = rw (← some-inj h) s
  run-IsSound (c ∷ steps) p q h s = elim (Option-cases (step c p)) [
    | inl e ↦ elim (no_value q (rw (e, run) at h)) [ ]
    | inr (p₁, e) ↦ run-IsSound steps p₁ q (rw (e, run) at h) (step-IsSound c p p₁ e s)
  ]

  total-idle_threads : (f : Worker T → ℕ) (n : ℕ) → f idle ≡ 0 → total f (idle_threads n) ≡ 0
  unfolding total idle_threads
  total-idle_threads f zero e = refl
  total-idle_threads f (suc n) e = omega (arith, e, total-idle_threads f n e)

  pub new_pool-IsSound : (n : ℕ) → 0 < n → IsSound (new_pool {T = T} n)
  unfolding new_pool
  new_pool-IsSound n h = record {
    staffed = rw (length-idle_threads T n) h;
    fifo = refl;
    counted = omega (arith, total-idle_threads busy n refl);
    alive = λ c. total-idle_threads ended n refl;
    served = inl refl;
  }
