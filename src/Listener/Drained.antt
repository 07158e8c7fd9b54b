-- ===== src/Listener/Drained.antt =====
-- mux/Listener.hpp: the threads alone bring every connection to its end.
use mathlib.Core.Path.{subst}
use mux.Prelude.{◌≡◌, refl, ap, ◌∙◌, sym, false, some, List, [], ◌∷◌, arith, nat_eq, bytes_eq}
use mux.Prelude.Int.{ℤ, int_eq}
use mux.Prelude.Bytes.{Bytes}
use mux.Listener.{
  Thread, receiving, handling, closing, Process, Step, going, idle, thread_at, replace, remove,
  recv_step, thread_step, live_step, step, run,
}
use mux.Listener.Accounts.{occurrences, held, pending, IsAccounted, run_keeps, run-IsAccounted}

-- The steps of the threads, one thread after the other, with clients that send nothing more.
finish : List Thread → List Step
finish [] = []
finish (receiving fd ∷ ws) = going 0 [] ∷ (going 0 [] ∷ finish ws)
finish (handling fd request ∷ ws) = going 0 [] ∷ (going 0 [] ∷ finish ws)
finish (closing fd ∷ ws) = going 0 [] ∷ finish ws

abbrev Drains : Process → List Step → Type 0
Drains p steps =
    (q : Process) × (run steps p ≡ some q)
    × (q.threads ≡ [])
    × (q.accepted ≡ p.accepted)
    × (q.received ≡ p.received)

finish-Drains :
    (ws : List Thread) (handled received : List Bytes) (closed accepted : List ℤ)
    → Drains
        (record {
          threads = ws;
          terminated = false;
          handled = handled;
          closed = closed;
          accepted = accepted;
          received = received;
        })
        (finish ws)
unfolding run step live_step thread_step recv_step thread_at replace remove finish
finish-Drains [] h r c a = (_, refl, refl, refl, refl)
finish-Drains (receiving fd ∷ ws) h r c a = finish-Drains ws h r (fd ∷ c) a
finish-Drains (handling fd request ∷ ws) h r c a = finish-Drains ws (request ∷ h) r (fd ∷ c) a
finish-Drains (closing fd ∷ ws) h r c a = finish-Drains ws h r (fd ∷ c) a

-- Without threads no descriptor is held and no request pending.
settled :
    (q : Process)
    → q.threads ≡ []
    → IsAccounted q
    → ((fd : ℤ) → occurrences fd q.closed ≡ occurrences fd q.accepted)
      × ((r : Bytes) → occurrences r q.handled ≡ occurrences r q.received)
unfolding occurrences held pending
settled q e a = (
  λ fd.
      let none_held : occurrences fd (held q.threads) ≡ 0 = rw e refl in
      omega (arith, a.connections fd, none_held),
  λ r.
      let none_pending : occurrences r (pending q.threads) ≡ 0 = rw e refl in
      omega (arith, a.requests r, none_pending),
)

-- From every state that the loop can reach without a handler that throws, the threads can go on,
-- with no new connection, to a state in which none is left, every descriptor was closed as often as
-- it was accepted, and every request that was received was handed to the handler as often as it
-- came.
pub run-finish :
    (steps : List Step) (p : Process)
    → run steps idle ≡ some p
    → p.terminated ≡ false
    → (rest : List Step) × (q : Process) × (run rest p ≡ some q)
      × (q.threads ≡ [])
      × ((fd : ℤ) → occurrences fd q.closed ≡ occurrences fd p.accepted)
      × ((r : Bytes) → occurrences r q.handled ≡ occurrences r p.received)
run-finish steps p h alive =
    let same_process : record p { terminated = false } ≡ p =
      ap (λ b. record p { terminated = b }) (sym alive) in
    let (q, went, none_left, same, same_requests) =
      subst (λ x. Drains x (finish p.threads)) same_process
        (finish-Drains p.threads p.handled p.received p.closed p.accepted) in
    let all =
      settled q none_left (run_keeps (finish p.threads) p q went (run-IsAccounted steps p h)) in
    (
      finish p.threads,
      q,
      went,
      none_left,
      λ fd. all.0 fd ∙ ap (occurrences fd) same,
      λ r. all.1 r ∙ ap (occurrences r) same_requests,
    )
