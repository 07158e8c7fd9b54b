-- ===== src/Workers/Drained.antt =====
-- Socket/ThreadPool.hpp: a pool whose threads have ended.
use mux.Prelude.{
  ℕ, ◌<◌, ◌≡◌, refl, sym, ap, ◌∙◌, inl, inr, some, List, [], ◌∷◌, ◌++◌, append-nil, arith, length,
  nat_eq, bytes_eq,
}
use mux.Prelude.Int.{int_eq}
use mux.Workers.{Worker, idle, finished, running, Pool, Step, new_pool, run}
use mux.Workers.Sound.{busy, ended, total, total-ended-≤, run-IsSound, new_pool-IsSound}

module _ {T : Type 0} where
  total-ended-busy : (ws : List (Worker T)) → total ended ws ≡ length ws → total busy ws ≡ 0
  unfolding total
  total-ended-busy [] h = refl
  total-ended-busy (finished ∷ ws) h = omega (arith, total-ended-busy ws (omega arith))
  total-ended-busy (idle ∷ ws) h = omega (arith, total-ended-≤ ws)
  total-ended-busy (running x ∷ ws) h = omega (arith, total-ended-≤ ws)

  -- However the owner and the threads of a pool take turns: tasks are taken in the order in which
  -- they were added, none twice, and those not taken are still queued in that order.
  pub run-fifo :
      (n : ℕ) (steps : List (Step T)) (q : Pool T)
      → 0 < n
      → run steps (new_pool n) ≡ some q
      → q.added ≡ q.taken ++ q.tasks
  run-fifo n steps q pos_n h = (run-IsSound steps (new_pool n) q h (new_pool-IsSound n pos_n)).fifo

  -- When all threads of a pool that has some have ended, so that the destructor has joined them,
  -- the queue is empty, every task that was ever added was taken, in that order, and all returned.
  pub run-drained :
      (n : ℕ) (steps : List (Step T)) (q : Pool T)
      → 0 < n
      → run steps (new_pool n) ≡ some q
      → total ended q.threads ≡ length q.threads
      → (q.tasks ≡ []) × (q.taken ≡ q.added) × (q.returned ≡ length q.added)
  run-drained n steps q pos_n h all =
      let s = run-IsSound steps (new_pool n) q h (new_pool-IsSound n pos_n) in
      let empty : q.tasks ≡ [] = elim s.served [
        | inl e ↦ e
        | inr l ↦ elim (impossible l all) [ ]
      ] in
      let same = s.fifo ∙ ap (λ l. q.taken ++ l) empty ∙ append-nil q.taken in
      (empty, sym same, omega (arith, s.counted, total-ended-busy q.threads all, ap length same))
    where
      impossible : {a b : ℕ} → a < b → a ≡ b → ⊥
      impossible l e = omega arith
