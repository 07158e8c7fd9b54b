-- ===== src/Net/Client/Transfers.antt =====
-- Socket/ClientSocket.hpp: `read` and `write`, as one equation each.
use mux.Prelude.{ℕ, ◌≡◌, refl, inl, inr, ◌&&◌, ◌∷◌, if◌then◌else◌, Bool-cases, nat_eq, bytes_eq}
use mux.Prelude.Int.{minus_one, int_eq}
use mux.Prelude.Bytes.{Bytes}
use mux.Net.System.{recv, send, Trace, Os}
use mux.Net.Client.{ClientSocket, set_reader, set_writer, transferred, read, write}

module _ (os : Os) where
  -- `read` never asks the poller for anything: unconnected or without interest in reading it
  -- refuses with -1 and no call, and otherwise it makes the one call `recv` on its descriptor and
  -- returns what was received, 0 if there was nothing yet, or -1.
  pub read_lem :
      (size : ℕ) (c : ClientSocket) (t : Trace)
      → let r = os t (recv c.client_fd size) in
        read os size c t ≡ (
          if c.is_connected && c.is_reader
          then (transferred r, c, (recv c.client_fd size, r) ∷ t)
          else (minus_one, c, t))
  unfolding read set_reader
  read_lem size c t = elim (Bool-cases c.is_connected) [
    | inr e ↦ rw e refl
    | inl e ↦ elim (Bool-cases c.is_reader) [ inr f ↦ rw (e, f) refl | inl f ↦ rw (e, f) refl ]
  ]

  -- `write` never asks the poller for anything either: unconnected or without interest in writing
  -- it refuses with -1 and no call, and otherwise it makes the one call `send`, of the whole text,
  -- and returns how much was sent, 0 if nothing could be sent yet, or -1.
  pub write_lem :
      (text : Bytes) (c : ClientSocket) (t : Trace)
      → let r = os t (send c.client_fd text) in
        write os text c t ≡ (
          if c.is_connected && c.is_writer
          then (transferred r, c, (send c.client_fd text, r) ∷ t)
          else (minus_one, c, t))
  unfolding write set_writer
  write_lem text c t = elim (Bool-cases c.is_connected) [
    | inr e ↦ rw e refl
    | inl e ↦ elim (Bool-cases c.is_writer) [ inr f ↦ rw (e, f) refl | inl f ↦ rw (e, f) refl ]
  ]
