-- ===== src/Listener/Accounts.antt =====
-- mux/Listener.hpp: every connection is closed once, and the handler returns from every request
-- once.
use mux.Prelude.{
  ℕ, zero, suc, ◌+◌, ◌≡◌, refl, inl, inr, Bool, true, false, Option, none, some, List, [], ◌∷◌,
  ◌++◌, arith, if◌then◌else◌, Bool-cases, Option-cases, take, HasEq, ◌==◌, nat_eq, bytes_eq,
}
use mux.Prelude.Int.{ℤ, int_eq, is_neg}
use mux.Prelude.Bytes.{Bytes}
use mux.Listener.{
  Thread, receiving, handling, closing, Process, Step, accepting, going, idle, thread_at, replace,
  remove, accept_step, recv_step, thread_step, throwing, throw_step, live_step, step, run,
}

-- How often a value stands in a list.
unfoldable pub occurrences {ℓ} : {A : Type ℓ} ⦃e : HasEq A⦄ → A → List A → ℕ
occurrences a [] = 0
occurrences a (x ∷ xs) = let n = occurrences a xs in if a == x then suc n else n

client_of : Thread → ℤ
client_of (receiving fd) = fd
client_of (handling fd request) = fd
client_of (closing fd) = fd

-- The descriptors that the threads hold, and the requests that are with a thread.
unfoldable pub held : List Thread → List ℤ
unfolding client_of
held [] = []
held (w ∷ ws) = client_of w ∷ held ws

unfoldable pub pending : List Thread → List Bytes
pending [] = []
pending (receiving fd ∷ ws) = pending ws
pending (handling fd request ∷ ws) = request ∷ pending ws
pending (closing fd ∷ ws) = pending ws

-- Connections that were accepted are closed or held, and requests received are handled or pending.
pub record IsAccounted (p : Process) : Type 0 where
  pub connections :
      (fd : ℤ)
      → occurrences fd p.accepted ≡ occurrences fd p.closed + occurrences fd (held p.threads)
  pub requests :
      (r : Bytes)
      → occurrences r p.received ≡ occurrences r p.handled + occurrences r (pending p.threads)

module _ (fd : ℤ) where
  held-new :
      (client : ℤ) (ws : List Thread)
      → occurrences fd (held (ws ++ receiving client ∷ [])) ≡ occurrences fd (client ∷ held ws)
  unfolding occurrences held
  held-new client [] = refl
  held-new client (w ∷ ws) = ground (arith, held-new client ws)

  held-replace :
      (i : ℕ) (v w : Thread) (ws : List Thread)
      → thread_at i ws ≡ some w
      → client_of v ≡ client_of w
      → occurrences fd (held (replace i v ws)) ≡ occurrences fd (held ws)
  unfolding occurrences held replace thread_at
  held-replace i v w [] h e = refl
  held-replace zero v w (x ∷ ws) h e = ground arith
  held-replace (suc i) v w (x ∷ ws) h e = ground (arith, held-replace i v w ws h e)

  held-remove :
      (i : ℕ) (w : Thread) (ws : List Thread)
      → thread_at i ws ≡ some w
      → occurrences fd (held ws) ≡ occurrences fd (client_of w ∷ held (remove i ws))
  unfolding occurrences held remove thread_at
  held-remove i w [] h = cc
  held-remove zero w (x ∷ ws) h = ground arith
  held-remove (suc i) w (x ∷ ws) h = ground (arith, held-remove i w ws h)

module _ (r : Bytes) where
  pending_cons :
      (w : Thread) (ws : List Thread)
      → occurrences r (pending (w ∷ ws))
        ≡ occurrences r (pending (w ∷ [])) + occurrences r (pending ws)
  unfolding occurrences pending
  pending_cons (receiving fd) ws = omega arith
  pending_cons (handling fd request) ws = ground arith
  pending_cons (closing fd) ws = omega arith

  pending-new :
      (client : ℤ) (ws : List Thread)
      → occurrences r (pending (ws ++ receiving client ∷ [])) ≡ occurrences r (pending ws)
  unfolding pending
  pending-new client [] = refl
  pending-new client (w ∷ ws) = omega (
    arith,
    pending_cons w ws,
    pending_cons w (ws ++ receiving client ∷ []),
    pending-new client ws,
  )

  pending-replace :
      (i : ℕ) (v w : Thread) (ws : List Thread)
      → thread_at i ws ≡ some w
      → occurrences r (pending (replace i v ws)) + occurrences r (pending (w ∷ []))
        ≡ occurrences r (pending ws) + occurrences r (pending (v ∷ []))
  unfolding replace thread_at
  pending-replace i v w [] h = cc
  pending-replace zero v w (x ∷ ws) h =
      let same : occurrences r (pending (x ∷ [])) ≡ occurrences r (pending (w ∷ [])) = cc in
      omega (arith, same, pending_cons v ws, pending_cons x ws)
  pending-replace (suc i) v w (x ∷ ws) h =
      omega (arith, pending-replace i v w ws h, pending_cons x ws, pending_cons x (replace i v ws))

  pending-remove :
      (i : ℕ) (w : Thread) (ws : List Thread)
      → thread_at i ws ≡ some w
      → occurrences r (pending ws)
        ≡ occurrences r (pending (w ∷ [])) + occurrences r (pending (remove i ws))
  unfolding remove thread_at
  pending-remove i w [] h = cc
  pending-remove zero w (x ∷ ws) h =
      let same : occurrences r (pending (x ∷ [])) ≡ occurrences r (pending (w ∷ [])) = cc in
      omega (arith, same, pending_cons x ws)
  pending-remove (suc i) w (x ∷ ws) h =
      omega (arith, pending-remove i w ws h, pending_cons x ws, pending_cons x (remove i ws))

no_step : {q : Process} → none ≡ some q → ⊥
no_step h = cc

recv_step-IsAccounted :
    (i : ℕ) (fd : ℤ) (s : Bytes) (p : Process)
    → thread_at i p.threads ≡ some (receiving fd)
    → IsAccounted p
    → IsAccounted (recv_step i fd s p)
unfolding recv_step occurrences pending client_of
recv_step-IsAccounted i fd [] p t a = record {
  connections = λ k.
      omega (arith, a.connections k, held-replace k i (closing fd) (receiving fd) p.threads t refl);
  requests =
      λ r. omega (arith, a.requests r, pending-replace r i (closing fd) (receiving fd) p.threads t);
}
recv_step-IsAccounted i fd (c ∷ s) p t a =
    let v = handling fd (c ∷ s) in
    record {
      connections =
          λ k. omega (arith, a.connections k, held-replace k i v (receiving fd) p.threads t refl);
      requests =
          λ r. ground (arith, a.requests r, pending-replace r i v (receiving fd) p.threads t);
    }

carry : {x q : Process} → some x ≡ some q → IsAccounted x → IsAccounted q
carry {x} {q} e a = let same : x ≡ q = cc in rw same at a

thread_step-IsAccounted :
    (i : ℕ) (o : Option Thread) (input : Bytes) (p q : Process)
    → thread_at i p.threads ≡ o
    → thread_step i o input p ≡ some q
    → IsAccounted p
    → IsAccounted q
unfolding thread_step occurrences pending client_of held
thread_step-IsAccounted i none input p q t h a = elim (no_step h) [ ]
thread_step-IsAccounted i (some (receiving fd)) input p q t h a =
    carry h (recv_step-IsAccounted i fd (take 1024 input) p t a)
thread_step-IsAccounted i (some (handling fd request)) input p q t h a =
    let w = handling fd request in
    carry h (record {
      connections =
          λ k. omega (arith, a.connections k, held-replace k i (closing fd) w p.threads t refl);
      requests = λ r. ground (arith, a.requests r, pending-replace r i (closing fd) w p.threads t);
    })
thread_step-IsAccounted i (some (closing fd)) input p q t h a = carry h (record {
  connections = λ k. ground (arith, a.connections k, held-remove k i (closing fd) p.threads t);
  requests = λ r. omega (arith, a.requests r, pending-remove r i (closing fd) p.threads t);
})

accept_step-IsAccounted : (fd : ℤ) (p : Process) → IsAccounted p → IsAccounted (accept_step fd p)
unfolding accept_step occurrences
accept_step-IsAccounted fd p a = elim (Bool-cases (is_neg fd)) [
  | inl e ↦ rw e a
  | inr e ↦ rw e (record {
    connections = λ k. ground (arith, a.connections k, held-new k fd p.threads);
    requests = λ r. omega (arith, a.requests r, pending-new r fd p.threads);
  })
]

throw_step-IsAccounted :
    (o : Option Thread) (p q : Process) → throw_step o p ≡ some q → IsAccounted p → IsAccounted q
unfolding throw_step
throw_step-IsAccounted none p q h a = elim (no_step h) [ ]
throw_step-IsAccounted (some (receiving fd)) p q h a = elim (no_step h) [ ]
throw_step-IsAccounted (some (handling fd request)) p q h a =
    carry h (record { connections = a.connections; requests = a.requests })
throw_step-IsAccounted (some (closing fd)) p q h a = elim (no_step h) [ ]

live_step-IsAccounted :
    (s : Step) (p q : Process) → live_step s p ≡ some q → IsAccounted p → IsAccounted q
unfolding live_step
live_step-IsAccounted (accepting fd) p q h a = carry h (accept_step-IsAccounted fd p a)
live_step-IsAccounted (going i input) p q h a =
    thread_step-IsAccounted i (thread_at i p.threads) input p q refl h a
live_step-IsAccounted (throwing i) p q h a = throw_step-IsAccounted (thread_at i p.threads) p q h a

not_terminated :
    {q : Process} (b : Bool) (o : Option Process) → (if b then none else o) ≡ some q → o ≡ some q
not_terminated true o h = elim (no_step h) [ ]
not_terminated false o h = h

step-IsAccounted : (s : Step) (p q : Process) → step s p ≡ some q → IsAccounted p → IsAccounted q
unfolding step
step-IsAccounted s p q h a =
    live_step-IsAccounted s p q (not_terminated p.terminated (live_step s p) h) a

pub run_keeps :
    (steps : List Step) (p q : Process) → run steps p ≡ some q → IsAccounted p → IsAccounted q
unfolding run
run_keeps [] p q h a = carry h a
run_keeps (s ∷ steps) p q h a = elim (Option-cases (step s p)) [
  | inl e ↦ elim (no_step (rw (e, run) at h)) [ ]
  | inr e ↦ run_keeps steps e.0 q (rw (e.1, run) at h) (step-IsAccounted s p e.0 e.1 a)
]

pub idle-IsAccounted : IsAccounted idle
unfolding idle occurrences held pending
idle-IsAccounted = record { connections = λ k. refl; requests = λ r. refl }

-- Whatever the threads do, in any order, whatever `accept` and `recv` give them, and also where a
-- handler throws and ends the process: every descriptor was closed as often as it was accepted, but
-- for those that threads still hold, and the handler has returned from every request that was
-- received as often as it came, but for those that are still with a thread.
pub run-IsAccounted : (steps : List Step) (q : Process) → run steps idle ≡ some q → IsAccounted q
run-IsAccounted steps q h = run_keeps steps idle q h idle-IsAccounted
