-- ===== src/Programs/Hello/Table.antt =====
-- src/kqueue.cc: the loop and the table of clients.
use mux.Prelude.{
  ℕ, ◌-◌, ◌≡◌, refl, ap, ◌∙◌, ◌≢◌, inl, inr, ◌&&◌, Option, none, some, List, [], ◌∷◌, arith,
  Bool-cases, nat_eq, bytes_eq,
}
use mux.Prelude.Int.{ℤ, minus_one, int_eq, is_neg}
use mux.Prelude.Map.{find}
use mux.Prelude.Bytes.{Bytes}
use mux.Net.System.{Trace, Os}
use mux.Net.Client.{ClientSocket, read, write}
use mux.Net.Client.Transfers.{read_lem, write_lem}
use mux.Net.Setup.{Metadata, construct}
use mux.Net.Poller.{Server}
use mux.Net.Poller.Kqueue.{Event}
use mux.Net.Poller.Kqueue.Preserves.{Holds, and_then-Holds}
use mux.Net.Poller.Kqueue.Table.{Table, Keeps, KeepsFd}
use mux.Net.Poller.Kqueue.Safety.{polling_handler-Keeps}
use mux.Programs.Hello.{
  buffer_size, hello_response, respond, received, on_readable, on_writable, serve, hello_main,
}

module _ (os : Os) where
  -- `read` and `write` leave the object as it is.
  read_same : (size : ℕ) (c : ClientSocket) (t : Trace) → (read os size c t).1 ≡ c
  read_same size c t = elim (Bool-cases (c.is_connected && c.is_reader)) [
    | inl e ↦ ap (λ x. x.1) (read_lem os size c t) ∙ rw e refl
    | inr e ↦ ap (λ x. x.1) (read_lem os size c t) ∙ rw e refl
  ]

  write_same : (text : Bytes) (c : ClientSocket) (t : Trace) → (write os text c t).1 ≡ c
  write_same text c t = elim (Bool-cases (c.is_connected && c.is_writer)) [
    | inl e ↦ ap (λ x. x.1) (write_lem os text c t) ∙ rw e refl
    | inr e ↦ ap (λ x. x.1) (write_lem os text c t) ∙ rw e refl
  ]

  respond_same : (c : ClientSocket) (t : Trace) → (respond os c t).1 ≡ c
  unfolding respond
  respond_same c t = elim (Bool-cases (is_neg (write os hello_response c t).0)) [
    | inl e ↦ rw e (write_same hello_response c t)
    | inr e ↦ rw e (write_same hello_response c t)
  ]

  received_same : (n : ℤ) (c : ClientSocket) (t : Trace) → (received os (n, c, t)).1 ≡ c
  unfolding received
  received_same n c t = ground (arith, respond_same c t)

  on_readable-KeepsFd : KeepsFd (on_readable os)
  unfolding on_readable
  on_readable-KeepsFd c t =
      let (n, c', t') = read os (buffer_size - 1) c t in
      ap (λ (c : ClientSocket). c.client_fd) (received_same n c' t' ∙ read_same _ c t)

  on_writable-KeepsFd : KeepsFd on_writable
  unfolding on_writable
  on_writable-KeepsFd c t = refl

  serve_from :
      (batches : List (Option (List Event))) (s : Server) (t : Trace)
      → Table (λ k. k ≢ minus_one) s.clients
      → Keeps (λ k. k ≢ minus_one) (Unit {0}) (serve os batches s t)
  unfolding serve Holds
  serve_from [] s t m = m
  serve_from (batch ∷ rest) s t m =
      and_then-Holds _ _ _ _
        (polling_handler-Keeps os (on_readable os) on_writable batch s t on_readable-KeepsFd
          on_writable-KeepsFd m)
        (λ _ s t m. serve_from rest s t m)

  -- The loop keeps the invariant of the table of clients for ever: from an empty table, and after
  -- any number of batches of events, whatever they hold and however the calls are answered, every
  -- client that is on record is under its own descriptor and -1 is no key, as long as the process
  -- has neither called `exit` nor followed a null pointer.
  pub serve-Keeps :
      (batches : List (Option (List Event))) (socket poller : ℤ) (t : Trace)
      → Keeps
          (λ k. k ≢ minus_one)
          (Unit {0})
          (serve os batches (record { socket = socket; poller = poller; clients = [] }) t)
  unfolding find
  serve-Keeps batches socket poller t = serve_from batches _ t (λ k p e. elim (absent p e) [ ])
    where
      absent : (p : Option ClientSocket) → none ≡ some p → ⊥
      absent p e = cc

  -- The program keeps the invariant of the table of clients for ever: from its start, whether its
  -- socket could be set up or not, and after any number of batches of events, whatever they hold
  -- and however the calls are answered, every client that is on record is under its own descriptor
  -- and -1 is no key, as long as the process has neither called `exit` nor followed a null pointer.
  pub hello_main-Keeps :
      (config : Metadata) (indeterminate : ℤ) (batches : List (Option (List Event))) (t : Trace)
      → Keeps (λ k. k ≢ minus_one) (Unit {0}) (hello_main os config indeterminate batches t)
  unfolding hello_main
  hello_main-Keeps config indeterminate batches t =
      let (_, base, t₁) = construct os config t in
      serve-Keeps batches base.socket (elim base.poller [ none ↦ indeterminate | some p ↦ p ]) t₁
