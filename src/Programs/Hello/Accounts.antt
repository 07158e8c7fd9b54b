-- ===== src/Programs/Hello/Accounts.antt =====
-- src/kqueue.cc: what becomes of the connections that the program accepts.
use mux.Prelude.Bytes.{Bytes}
use mux.Prelude.{
  ℕ, ◌-◌, ◌≡◌, refl, ap, ◌∙◌, inl, inr, ◌&&◌, Option, none, some, List, [], ◌∷◌, arith, Bool-cases,
  ◌==◌, nat_eq, bytes_eq,
}
use mux.Prelude.Int.{ℤ, pos, int_eq, is_neg, is_pos}
use mux.Prelude.Map.{find}
use mux.Net.System.{Trace, Os}
use mux.Net.Client.{ClientSocket, read, write}
use mux.Net.Client.Closing.{shutdowns}
use mux.Net.Client.Balance.{accepts, IsHealthy}
use mux.Net.Client.Transfers.{read_lem, write_lem}
use mux.Net.Setup.{Metadata, construct}
use mux.Net.Setup.Quiet.{construct-Quiet}
use mux.Net.Poller.{Server}
use mux.Net.Poller.Kqueue.{Event}
use mux.Net.Poller.Kqueue.Preserves.{Holds, and_then-Holds}
use mux.Net.Poller.Kqueue.Held.{IsBalanced, IsNeutral}
use mux.Net.Poller.Kqueue.Balance.{polling_handler-IsBalanced}
use mux.Programs.Hello.{
  hello_response, buffer_size, respond, received, on_readable, on_writable, serve, hello_main,
  may_retry, last_errno,
}

module _ (os : Os) where
  -- A client as it was, and calls that neither accept nor shut down.
  abbrev Neutral : ClientSocket → Trace → ℤ × ClientSocket × Trace → Type 0
  Neutral c t (_, c', t') =
      (c' ≡ c) × ((k : ℤ) → (shutdowns k t' ≡ shutdowns k t) × (accepts k t' ≡ accepts k t))

  read-Neutral : (size : ℕ) (c : ClientSocket) (t : Trace) → Neutral c t (read os size c t)
  unfolding shutdowns accepts
  read-Neutral size c t = rw read_lem (elim (Bool-cases (c.is_connected && c.is_reader)) [
    | inl e ↦ rw e (refl, λ k. (refl, refl))
    | inr e ↦ rw e (refl, λ k. (refl, refl))
  ])

  write-Neutral : (text : Bytes) (c : ClientSocket) (t : Trace) → Neutral c t (write os text c t)
  unfolding shutdowns accepts
  write-Neutral text c t = rw write_lem (elim (Bool-cases (c.is_connected && c.is_writer)) [
    | inl e ↦ rw e (refl, λ k. (refl, refl))
    | inr e ↦ rw e (refl, λ k. (refl, refl))
  ])

  respond-Neutral : (c : ClientSocket) (t : Trace) → Neutral c t (respond os c t)
  unfolding respond
  respond-Neutral c t = elim (Bool-cases (is_neg (write os hello_response c t).0)) [
    | inl e ↦ rw e (write-Neutral hello_response c t)
    | inr e ↦ rw e (write-Neutral hello_response c t)
  ]

  received-Neutral : (n : ℤ) (c : ClientSocket) (t : Trace) → Neutral c t (received os (n, c, t))
  unfolding received
  received-Neutral n c t = elim (Bool-cases (is_pos n)) [
    | inl p ↦ rw p (respond-Neutral c t)
    | inr p ↦ elim (Bool-cases (n == pos 0)) [
      | inl z ↦ rw (p, z) (refl, λ k. (refl, refl))
      | inr z ↦ elim (Bool-cases (may_retry (last_errno t))) [
        | inl r ↦ rw (p, z, r) (respond-Neutral c t)
        | inr r ↦ rw (p, z, r) (refl, λ k. (refl, refl))
      ]
    ]
  ]

  on_readable-Neutral :
      (c : ClientSocket) (t : Trace) → Neutral c t ((on_readable os).on_client c t)
  unfolding on_readable
  on_readable-Neutral c t =
      let (n, c', t') = read os (buffer_size - 1) c t in
      let (same, counts) = read-Neutral (buffer_size - 1) c t in
      let (same', counts') = received-Neutral n c' t' in
      (same' ∙ same, λ k. ((counts' k).0 ∙ (counts k).0, (counts' k).1 ∙ (counts k).1))

  on_readable-IsNeutral : IsNeutral (on_readable os)
  unfolding on_readable
  on_readable-IsNeutral = record {
    same_client = λ c t.
        let same = (on_readable-Neutral c t).0 in
        (
          ap (λ (x : ClientSocket). x.client_fd) same,
          ap (λ (x : ClientSocket). x.is_connected) same,
        );
    same_counts = λ k c t. (on_readable-Neutral c t).1 k;
    null_counts = λ k t r e. absurd (none_some r e);
  }
    where
      none_some : (r : ℤ × Trace) → none ≡ some r → ⊥
      none_some r e = cc

  on_writable-IsNeutral : IsNeutral on_writable
  unfolding on_writable
  on_writable-IsNeutral = record {
    same_client = λ c t. (refl, refl);
    same_counts = λ k c t. (refl, refl);
    null_counts = λ k t r e. ground (arith, e);
  }

  serve-IsBalanced :
      IsHealthy os
      → (batches : List (Option (List Event))) (s : Server) (t : Trace) → IsBalanced s t
      → Holds IsBalanced (Unit {0}) (serve os batches s t)
  unfolding serve Holds
  serve-IsBalanced h [] s t b = b
  serve-IsBalanced h (batch ∷ rest) s t b =
      and_then-Holds IsBalanced (Unit {0}) _ _
        (polling_handler-IsBalanced os (on_readable os) on_writable h on_readable-IsNeutral
          on_writable-IsNeutral batch s t b)
        (λ _ s t. serve-IsBalanced h rest s t)

  -- The program calls `shutdown` once for each connection that it accepts, except for those that it
  -- still holds: from its start, whether its socket could be set up or not, and after any number of
  -- batches of events, `accept` has returned every descriptor exactly as often as `shutdown` was
  -- called on it, whatever it returned, and once more if a connected client of the table holds it.
  -- The setup of an accepted descriptor must not fail, and the process must go on; the program is
  -- started behind calls that accepted each descriptor as often as `shutdown` was called on it.
  pub hello_main-IsBalanced :
      IsHealthy os
      → (config : Metadata) (indeterminate : ℤ) (batches : List (Option (List Event))) (t : Trace)
      → ((k : ℤ) → shutdowns k t ≡ accepts k t)
      → Holds IsBalanced (Unit {0}) (hello_main os config indeterminate batches t)
  unfolding hello_main find
  hello_main-IsBalanced h config indeterminate batches t even =
      let (_, base, t₁) = construct os config t in
      let p : ℤ = elim base.poller [ none ↦ indeterminate | some p ↦ p ] in
      serve-IsBalanced h batches (record { socket = base.socket; poller = p; clients = [] }) t₁
        (record {
          placed = λ k p e. absurd (no_entry p e);
          level = λ k z. omega (arith, even k, construct-Quiet os k config t);
        })
    where
      no_entry : (p : Option ClientSocket) → none ≡ some p → ⊥
      no_entry p e = cc
