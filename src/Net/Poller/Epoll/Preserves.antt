-- ===== src/Net/Poller/Epoll/Preserves.antt =====
-- Socket/Poller/Helpers.hpp, where epoll or io_uring is: what the parts of `pollingHandler` keep of
-- the server and the calls made, the whole handler keeps.
use mux.Prelude.{
  ◌≡◌, refl, inl, inr, Bool, true, false, not, Option, none, List, [], ◌∷◌, if◌then◌else◌,
  Option-cases, ◌==◌, nat_eq, bytes_eq, eq_self,
}
use mux.Prelude.Int.{ℤ, int_eq, is_neg, is_pos}
use mux.Prelude.Map.{find, subscript, find-insert}
use mux.Net.System.{Trace, Os}
use mux.Net.Client.{ClientSocket, set_writer, remove_writer}
use mux.Net.Poller.{Handler, Server, Run, close_socket, accept_connection, look_up, call_handler}
use mux.Net.Poller.Kqueue.Preserves.{Holds, and_then-Holds}
use mux.Net.Poller.Epoll.{
  Readiness, through, close_quietly, written, write_ready, read_done, client_ready, handle_ready,
  handle_all,
}

-- Looking a key up a second time finds the same pointer.
look_up-look_up : (fd : ℤ) (s : Server) → (look_up fd (look_up fd s).1).0 ≡ (look_up fd s).0
unfolding look_up subscript
look_up-look_up fd s = elim (Option-cases (find fd s.clients)) [
  | inl e ↦ rw (e, look_up, subscript, find-insert fd fd none s.clients, eq_self fd) refl
  | inr e ↦ rw (e.1, look_up, subscript, e.1) refl
]

module _ (os : Os) (handle_read handle_write : Handler) (P : Server → Trace → Type 0) (E : Type 0)
    (looks : (fd : ℤ) (s : Server) (t : Trace) → P s t → P (look_up fd s).1 t)
    (reads : (fd : ℤ) (p : Option ClientSocket) (s : Server) (t : Trace)
      → (look_up fd s).0 ≡ p
      → P s t
      → Holds P E (call_handler handle_read fd p s t))
    (writes : (fd : ℤ) (p : Option ClientSocket) (s : Server) (t : Trace)
      → (look_up fd s).0 ≡ p
      → P s t
      → Holds P E (call_handler handle_write fd p s t))
    (closes : (fd : ℤ) (s : Server) (t : Trace) → P s t → Holds P E (close_socket os fd s t))
    (accepts : (s : Server) (t : Trace) → P s t → Holds P E (accept_connection os s t))
    (sets : (fd : ℤ) (p : Option ClientSocket) (s : Server) (t : Trace)
      → (look_up fd s).0 ≡ p
      → P s t
      → Holds P E (through (set_writer os) fd p s t))
    (removes : (fd : ℤ) (p : Option ClientSocket) (s : Server) (t : Trace)
      → (look_up fd s).0 ≡ p
      → P s t
      → Holds P E (through (remove_writer os) fd p s t)) where
  -- Both branches of a test.
  either :
      {A : Type 0} (test : Bool) (x y : Run A)
      → Holds P E x
      → Holds P E y
      → Holds P E (if test then x else y)
  either true x y p q = p
  either false x y p q = q

  close_quietly-Holds :
      (fd : ℤ) (s : Server) (t : Trace) → P s t → Holds P E (close_quietly os fd s t)
  unfolding close_quietly Holds
  close_quietly-Holds fd s t m = and_then-Holds P E _ _ (closes fd s t m) (λ _ s t m. m)

  written-Holds :
      (fd status : ℤ) (s : Server) (t : Trace)
      → P s t
      → Holds P E (written os handle_read handle_write fd status s t)
  unfolding written
  written-Holds fd status s t m =
      either (not (is_pos status)) _ _ (close_quietly-Holds fd s t m) (removes fd _ s t refl m)

  write_ready-Holds :
      (e : Readiness) (s : Server) (t : Trace)
      → P s t
      → Holds P E (write_ready os handle_read handle_write e s t)
  unfolding write_ready Holds
  write_ready-Holds e s t m =
      either e.is_out _ _
        (and_then-Holds P E _ _ (writes e.ident _ s t refl m) (written-Holds e.ident)) m

  read_done-Holds :
      (e : Readiness) (status : ℤ) (s : Server) (t : Trace)
      → P s t
      → Holds P E (read_done os handle_read handle_write e status s t)
  unfolding read_done
  read_done-Holds e status s t m =
      either (is_neg status) _ _ (close_quietly-Holds e.ident s t m)
        (and_then-Holds P E _ _ (sets e.ident _ s t refl m) (λ _ s t m. write_ready-Holds e s t m))

  client_ready-Holds :
      (e : Readiness) (p : Option ClientSocket) (s : Server) (t : Trace)
      → (look_up e.ident s).0 ≡ p
      → P s t
      → Holds P E (client_ready os handle_read handle_write e p s t)
  unfolding client_ready
  client_ready-Holds e p s t f m =
      either e.is_in _ _ (and_then-Holds P E _ _ (reads e.ident p s t f m) (read_done-Holds e))
        (write_ready-Holds e s t m)

  handle_ready-Holds :
      (e : Readiness) (s : Server) (t : Trace)
      → P s t
      → Holds P E (handle_ready os handle_read handle_write e s t)
  unfolding handle_ready
  handle_ready-Holds e s t m = either e.failed _ _ (close_quietly-Holds e.ident s t m) (
      either (e.ident == s.socket) _ _ (accepts s t m)
        (client_ready-Holds e _ _ t (look_up-look_up e.ident s) (looks e.ident s t m)))

  -- A batch of events keeps what each of its parts keeps.
  pub handle_all-Holds :
      (events : List Readiness) (s : Server) (t : Trace)
      → P s t
      → Holds P E (handle_all os handle_read handle_write events s t)
  unfolding handle_all Holds
  handle_all-Holds [] s t m = m
  handle_all-Holds (e ∷ rest) s t m =
      and_then-Holds P E _ _ (handle_ready-Holds e s t m) (λ _ s t m. handle_all-Holds rest s t m)
