-- ===== src/Net/Poller/Kqueue/Held.antt =====
-- Socket/Poller/Server.hpp: the descriptors that the table of clients holds, against those that
-- were accepted and shut down.
use mux.Prelude.{
  ℕ, ◌+◌, ◌≡◌, refl, ◌∙◌, inl, inr, false, Option, none, some, arith, if◌then◌else◌, Option-cases,
  ◌==◌, nat_eq, bytes_eq,
}
use mux.Prelude.Int.{ℤ, int_beq_iff, int_eq, is_neg}
use mux.Prelude.Map.{find, insert, erase, subscript, find-insert, find-erase}
use mux.Net.System.{Trace}
use mux.Net.Client.{ClientSocket}
use mux.Net.Client.Closing.{shutdowns}
use mux.Net.Client.Balance.{accepts, plus_if}
use mux.Net.Poller.{Handler, Clients, Server, look_up, call_handler}
use mux.Net.Poller.Kqueue.Table.{Table, Fits, insert-Table}
use mux.Net.Poller.Kqueue.Preserves.{Holds}

-- Whether an entry of the table holds an open descriptor.
abbrev pub opened : Option (Option ClientSocket) → ℕ
opened (some (some c)) = plus_if c.is_connected 0
opened (some none) = 0
opened none = 0

-- How many clients of the table hold the descriptor `k`: one or none.
abbrev pub held : ℤ → Clients → ℕ
held k m = opened (find k m)

pub record IsBalanced (s : Server) (t : Trace) : Type 0 where
  pub placed : Table (λ k. Unit {0}) s.clients
  pub level : (k : ℤ) → is_neg k ≡ false → shutdowns k t + held k s.clients ≡ accepts k t

-- A handler that neither accepts nor shuts down, and leaves a client as connected as it was, to the
-- descriptor that it had.
pub record IsNeutral (h : Handler) : Type 0 where
  pub same_client :
      (c : ClientSocket) (t : Trace)
      → let (_, c', _) = h.on_client c t in
        (c'.client_fd ≡ c.client_fd) × (c'.is_connected ≡ c.is_connected)
  pub same_counts :
      (k : ℤ) (c : ClientSocket) (t : Trace)
      → let (_, _, t') = h.on_client c t in
        (shutdowns k t' ≡ shutdowns k t) × (accepts k t' ≡ accepts k t)
  pub null_counts :
      (k : ℤ) (t : Trace) (r : ℤ × Trace)
      → h.on_null t ≡ some r
      → (shutdowns k r.1 ≡ shutdowns k t) × (accepts k r.1 ≡ accepts k t)

pub held-insert :
    (k fd : ℤ) (p : Option ClientSocket) (m : Clients)
    → held k (insert fd p m) ≡ (if fd == k then opened (some p) else held k m)
held-insert k fd p m = rw find-insert (ground arith)

pub held-erase : (k fd : ℤ) (m : Clients) → held k (erase fd m) ≡ (if fd == k then 0 else held k m)
held-erase k fd m = rw find-erase (ground arith)

pub look_up-IsBalanced :
    (fd : ℤ) (s : Server) (t : Trace) → IsBalanced s t → IsBalanced (look_up fd s).1 t
unfolding look_up subscript
look_up-IsBalanced fd s t b = elim (Option-cases (find fd s.clients)) [
  | inr e ↦ rw (e.1, look_up, subscript) b
  | inl e ↦
      rw (e, look_up, subscript)
        (record {
          placed = insert-Table (λ k. Unit) fd none s.clients tt (unfold Fits in tt) b.placed;
          level =
              λ k n. ground (arith, held-insert k fd none s.clients, int_beq_iff fd k, b.level k n);
        })
]

pub call_handler-IsBalanced :
    (h : Handler) (fd : ℤ) (p : Option ClientSocket) (s : Server) (t : Trace)
    → IsNeutral h
    → ((c : ClientSocket) → p ≡ some c → find fd s.clients ≡ some (some c))
    → IsBalanced s t
    → Holds IsBalanced (Unit {0}) (call_handler h fd p s t)
unfolding call_handler Holds Fits
call_handler-IsBalanced h fd none s t n f b = elim (Option-cases (h.on_null t)) [
  | inl e ↦ rw (e, Holds) tt
  | inr e ↦
      rw (e.1, Holds)
        (record {
          placed = b.placed;
          level = λ k z. ground (arith, n.null_counts k t e.0 e.1, b.level k z);
        })
]
call_handler-IsBalanced h fd (some c) s t n f b =
    let (_, c', t') = h.on_client c t in
    let found = f c refl in
    record {
      placed =
          insert-Table (λ k. Unit) fd (some c') s.clients tt
            ((n.same_client c t).0 ∙ (b.placed fd (some c) found).1) b.placed;
      level = λ k z. ground (
        arith,
        held-insert k fd (some c') s.clients,
        int_beq_iff fd k,
        n.same_client c t,
        n.same_counts k c t,
        b.level k z,
      );
    }
