-- ===== src/Net/Poller/KqueueSocket/Registered.antt =====
-- Socket/SocketBase/Kqueue.hpp: the handler of KqueueSocket and the table of clients.
use mux.Prelude.{
  ◌≡◌, refl, ◌∙◌, inl, inr, not, ◌&&◌, Option, none, some, List, [], ◌∷◌, arith, Bool-cases, ◌==◌,
  nat_eq, bytes_eq,
}
use mux.Prelude.Int.{ℤ, minus_one, int_eq, is_neg, is_pos}
use mux.Prelude.Map.{find}
use mux.Net.Poller.{and_then, running}
use mux.Net.System.{Filter, reading, writing, Trace, Os}
use mux.Net.Client.{ClientSocket, close_client, set_writer, remove_writer}
use mux.Net.Poller.{Handler, Server, look_up}
use mux.Net.Client.Accepting.{set_writer-client_fd}
use mux.Net.Poller.Kqueue.{Event}
use mux.Net.Poller.Epoll.{through}
use mux.Net.Poller.Kqueue.Preserves.{Holds}
use mux.Net.Poller.Kqueue.Table.{
  Table, Keeps, KeepsFd, and_then-Keeps, Fits, insert-Table, erase-Table, look_up-Table,
  call_handler-Keeps, accept_connection-Keeps,
}
use mux.Net.Poller.KqueueSocket.{
  close_server, close_listed, close_known, close_descriptor, dismiss, read_status, dismiss_writer,
  write_status, client_step, event_step, events_step, handler,
}
use mux.Net.Client.Closing.{close_client-client_fd}

abbrev pub AnyKey : ℤ → Type 0
AnyKey k = Unit

pub remove_writer-client_fd :
    (os : Os) (c : ClientSocket) (t : Trace) → (remove_writer os c t).1.client_fd ≡ c.client_fd
unfolding remove_writer
remove_writer-client_fd os c t = ground arith

pub through-Keeps :
    (method : ClientSocket → Trace → ℤ × ClientSocket × Trace) (fd : ℤ) (p : Option ClientSocket)
    (s : Server) (t : Trace)
    → ((c : ClientSocket) (t : Trace) → (method c t).1.client_fd ≡ c.client_fd)
    → Fits fd p
    → Table AnyKey s.clients
    → Keeps AnyKey ⊥ (through method fd p s t)
unfolding through Holds Fits
through-Keeps method fd none s t k f m = tt
through-Keeps method fd (some c) s t k f m =
    insert-Table AnyKey fd (some (method c t).1) s.clients tt (k c t ∙ f) m

-- The pointer that is looked up for a key fits the key.
pub look_up-Fits : (fd : ℤ) (s : Server) → Table AnyKey s.clients → Fits fd (look_up fd s).0
look_up-Fits fd s m = let l = look_up-Table AnyKey fd s tt m in (l.0 fd _ l.1).1

empty-Table : Table AnyKey []
unfolding find
empty-Table k p h = elim (no_value p h) [ ]
  where
    no_value : (p : Option ClientSocket) → none ≡ some p → ⊥
    no_value p h = cc

module _ (os : Os) where
  close_listed-Keeps :
      (fd : ℤ) (p : Option ClientSocket) (s : Server) (t : Trace)
      → Fits fd p
      → Table AnyKey s.clients
      → Keeps AnyKey ⊥ (close_listed os fd p s t)
  unfolding close_listed Holds Fits
  close_listed-Keeps fd none s t f m = tt
  close_listed-Keeps fd (some c) s t f m =
      elim (Bool-cases ((close_client os c t).0 == minus_one)) [
        | inl e ↦
            rw e
              (insert-Table AnyKey fd (some _) s.clients tt (close_client-client_fd os c t ∙ f) m)
        | inr e ↦ rw e (erase-Table AnyKey fd s.clients m)
      ]

  close_known-Keeps :
      (fd : ℤ) (o : Option (Option ClientSocket)) (s : Server) (t : Trace)
      → find fd s.clients ≡ o
      → Table AnyKey s.clients
      → Keeps AnyKey ⊥ (close_known os fd o s t)
  unfolding close_known close_server Holds
  close_known-Keeps fd none s t e m = m
  close_known-Keeps fd (some p) s t e m = elim (Bool-cases (is_neg fd)) [
    | inl n ↦ rw n empty-Table
    | inr n ↦ rw n (close_listed-Keeps fd p s t (m fd p e).1 m)
  ]

  pub dismiss-Keeps :
      (fd : ℤ) (s : Server) (t : Trace)
      → Table AnyKey s.clients
      → Keeps AnyKey ⊥ (dismiss os fd s t)
  unfolding dismiss close_descriptor Holds
  dismiss-Keeps fd s t m =
      and_then-Keeps AnyKey ⊥ _ _ (close_known-Keeps fd _ s t refl m) (λ _ s t m. m)

  -- A descriptor that is no key is ignored.
  pub dismiss-absent :
      (fd : ℤ) (s : Server) (t : Trace)
      → find fd s.clients ≡ none
      → dismiss os fd s t ≡ running tt s t
  unfolding dismiss close_descriptor close_known and_then
  dismiss-absent fd s t e = rw e refl

  pub read_status-Keeps :
      (fd status : ℤ) (s : Server) (t : Trace)
      → Table AnyKey s.clients
      → Keeps AnyKey ⊥ (read_status os fd status s t)
  unfolding read_status
  read_status-Keeps fd status s t m = elim (Bool-cases (is_neg status)) [
    | inl e ↦ rw e (dismiss-Keeps fd s t m)
    | inr e ↦
        rw e
          (through-Keeps (set_writer os) fd _ s t (set_writer-client_fd os) (look_up-Fits fd s m) m)
  ]

  dismiss_writer-Keeps :
      (fd : ℤ) (p : Option ClientSocket) (s : Server) (t : Trace)
      → Fits fd p
      → Table AnyKey s.clients
      → Keeps AnyKey ⊥ (dismiss_writer os fd p s t)
  unfolding dismiss_writer Holds Fits
  dismiss_writer-Keeps fd none s t f m = tt
  dismiss_writer-Keeps fd (some c) s t f m = elim (Bool-cases (is_neg fd)) [
    | inl n ↦ rw n empty-Table
    | inr n ↦ elim (Bool-cases ((close_client os c t).0 == minus_one)) [
      | inl e ↦
          rw (n, e)
            (insert-Table AnyKey fd (some _) s.clients tt
              (remove_writer-client_fd os _ _ ∙ close_client-client_fd os c t ∙ f) m)
      | inr e ↦ rw (n, e) (erase-Table AnyKey fd s.clients m)
    ]
  ]

  pub write_status-Keeps :
      (fd status : ℤ) (s : Server) (t : Trace)
      → Table AnyKey s.clients
      → Keeps AnyKey ⊥ (write_status os fd status s t)
  unfolding write_status
  write_status-Keeps fd status s t m = elim (Bool-cases (is_pos status)) [
    | inr e ↦ rw e (dismiss_writer-Keeps fd _ s t (look_up-Fits fd s m) m)
    | inl e ↦ rw e (
        through-Keeps (remove_writer os) fd _ s t (remove_writer-client_fd os) (look_up-Fits fd s m)
          m)
  ]

  module _ (handle_read handle_write : Handler) (reads : KeepsFd handle_read)
      (writes : KeepsFd handle_write) where
    client_step-Keeps :
        (fd : ℤ) (filter : Option Filter) (p : Option ClientSocket) (s : Server) (t : Trace)
        → Fits fd p
        → Table AnyKey s.clients
        → Keeps AnyKey ⊥ (client_step os handle_read handle_write fd filter p s t)
    unfolding client_step
    client_step-Keeps fd (some reading) p s t f m =
        and_then-Keeps AnyKey ⊥ _ _
          (call_handler-Keeps AnyKey ⊥ handle_read fd p s t reads (tt, f) m) (read_status-Keeps fd)
    client_step-Keeps fd (some writing) p s t f m =
        and_then-Keeps AnyKey ⊥ _ _
          (call_handler-Keeps AnyKey ⊥ handle_write fd p s t writes (tt, f) m)
          (write_status-Keeps fd)
    client_step-Keeps fd none p s t f m = dismiss-Keeps fd s t m

    event_step-Keeps :
        (e : Event) (s : Server) (t : Trace)
        → Table AnyKey s.clients
        → Keeps AnyKey ⊥ (event_step os handle_read handle_write e s t)
    unfolding event_step
    event_step-Keeps e s t m = elim (Bool-cases (e.is_eof && not (e.ident == s.socket))) [
      | inl y ↦ rw y (dismiss-Keeps e.ident s t m)
      | inr y ↦ elim (Bool-cases (e.ident == s.socket)) [
        | inl z ↦ rw (y, z) (accept_connection-Keeps os AnyKey ⊥ s t (λ n. tt) m)
        | inr z ↦
            let l = look_up-Table AnyKey e.ident s tt m in
            rw (y, z) (client_step-Keeps e.ident e.filter _ _ t (look_up-Fits e.ident s m) l.0)
      ]
    ]

    events_step-Keeps :
        (events : List Event) (s : Server) (t : Trace)
        → Table AnyKey s.clients
        → Keeps AnyKey ⊥ (events_step os handle_read handle_write events s t)
    unfolding events_step Holds
    events_step-Keeps [] s t m = m
    events_step-Keeps (e ∷ rest) s t m =
        and_then-Keeps AnyKey ⊥ _ _ (event_step-Keeps e s t m)
          (λ _ s t m. events_step-Keeps rest s t m)

-- One call of the handler of KqueueSocket, on any batch of events, never calls `exit`, and keeps
-- every client of the table under its own descriptor, if the read and write handlers leave a client
-- its descriptor and no null pointer is followed.
pub handler-Keeps :
    (os : Os) (handle_read handle_write : Handler) (batch : Option (List Event)) (s : Server)
    (t : Trace)
    → KeepsFd handle_read
    → KeepsFd handle_write
    → Table AnyKey s.clients
    → Keeps AnyKey ⊥ (handler os handle_read handle_write batch s t)
unfolding handler Holds
handler-Keeps os hr hw none s t reads writes m = m
handler-Keeps os hr hw (some events) s t reads writes m =
    events_step-Keeps os hr hw reads writes events s t m
