-- ===== src/Net/Poller/EpollSocket/Registered.antt =====
-- Socket/SocketBase/epoll.hpp and Socket/SocketBase/io_uring.hpp: one call of a handler, the table
-- of clients, and the listening socket.
use mux.Prelude.{
  ℕ, ◌≡◌, refl, inl, inr, true, ◌||◌, Option, none, some, List, [], ◌∷◌, Bool-cases, ◌==◌, nat_eq,
  bytes_eq,
}
use mux.Prelude.Int.{ℤ, minus_one, int_eq}
use mux.Prelude.Map.{find}
use mux.Net.System.{Trace, Os}
use mux.Net.Client.{ClientSocket}
use mux.Net.Poller.{Handler, Server, Run, running, and_then}
use mux.Net.Poller.Kqueue.{Flow, next, finished}
use mux.Net.Poller.Kqueue.Preserves.{Holds}
use mux.Net.Poller.Kqueue.Table.{
  Table, Keeps, KeepsFd, and_then-Keeps, Fits, call_handler-Keeps, accept_connection-Keeps,
  look_up-Table,
}
use mux.Net.Poller.Epoll.{Readiness, EpollEvent, of_epoll, has}
use mux.Net.Poller.KqueueSocket.Registered.{
  AnyKey, dismiss-Keeps, read_status-Keeps, write_status-Keeps, look_up-Fits, dismiss-absent,
}
use mux.Net.Poller.EpollSocket.{
  Cqe, carry_on, hung_up, serve_client, ready_step, proceed, ready_steps, epoll_socket_handler,
  io_uring_socket_handler,
}

module _ (os : Os) where
  carry_on-Keeps : (r : Run Unit) → Keeps AnyKey ⊥ r → Keeps AnyKey ⊥ (carry_on r)
  unfolding Holds
  carry_on-Keeps r h = and_then-Keeps AnyKey ⊥ r _ h (λ _ s t m. m)

  hung_up-Keeps :
      (fd : ℤ) (s : Server) (t : Trace)
      → Table AnyKey s.clients
      → Keeps AnyKey ⊥ (hung_up os fd s t)
  unfolding hung_up Holds
  hung_up-Keeps fd s t m = elim (Bool-cases (fd == s.socket)) [
    | inl e ↦ rw e (and_then-Keeps AnyKey ⊥ _ _ (dismiss-Keeps os minus_one s t m) (λ _ s t m. m))
    | inr e ↦ rw e (carry_on-Keeps _ (dismiss-Keeps os fd s t m))
  ]

  module _ (handle_read handle_write : Handler) (reads : KeepsFd handle_read)
      (writes : KeepsFd handle_write) where
    serve_client-Keeps :
        (e : Readiness) (p : Option ClientSocket) (s : Server) (t : Trace)
        → Fits e.ident p
        → Table AnyKey s.clients
        → Keeps AnyKey ⊥ (serve_client os handle_read handle_write e p s t)
    unfolding serve_client
    serve_client-Keeps e p s t f m = elim (Bool-cases e.is_in) [
      | inl y ↦ rw y (
          and_then-Keeps AnyKey ⊥ _ _
            (call_handler-Keeps AnyKey ⊥ handle_read e.ident p s t reads (tt, f) m)
            (read_status-Keeps os e.ident))
      | inr y ↦ elim (Bool-cases e.is_out) [
        | inl z ↦
            rw (y, z)
              (and_then-Keeps AnyKey ⊥ _ _
                (call_handler-Keeps AnyKey ⊥ handle_write e.ident p s t writes (tt, f) m)
                (write_status-Keeps os e.ident))
        | inr z ↦ rw (y, z) (dismiss-Keeps os e.ident s t m)
      ]
    ]

    ready_step-Keeps :
        (e : Readiness) (s : Server) (t : Trace)
        → Table AnyKey s.clients
        → Keeps AnyKey ⊥ (ready_step os handle_read handle_write e s t)
    unfolding ready_step
    ready_step-Keeps e s t m = elim (Bool-cases e.failed) [
      | inl y ↦ rw y (hung_up-Keeps e.ident s t m)
      | inr y ↦ elim (Bool-cases (e.ident == s.socket)) [
        | inl z ↦ rw (y, z) (carry_on-Keeps _ (accept_connection-Keeps os AnyKey ⊥ s t (λ n. tt) m))
        | inr z ↦
            let l = look_up-Table AnyKey e.ident s tt m in
            rw (y, z) (carry_on-Keeps _ (serve_client-Keeps e _ _ t (look_up-Fits e.ident s m) l.0))
      ]
    ]

    proceed-Keeps :
        (rest : Server → Trace → Run Unit)
        → ((s : Server) (t : Trace) → Table AnyKey s.clients → Keeps AnyKey ⊥ (rest s t))
        → (flow : Flow) (s : Server) (t : Trace) → Table AnyKey s.clients
        → Keeps AnyKey ⊥ (proceed os handle_read handle_write rest flow s t)
    unfolding proceed Holds
    proceed-Keeps rest k next s t m = k s t m
    proceed-Keeps rest k finished s t m = m

    ready_steps-Keeps :
        (events : List Readiness) (s : Server) (t : Trace)
        → Table AnyKey s.clients
        → Keeps AnyKey ⊥ (ready_steps os handle_read handle_write events s t)
    unfolding ready_steps Holds
    ready_steps-Keeps [] s t m = m
    ready_steps-Keeps (e ∷ rest) s t m = and_then-Keeps AnyKey ⊥ _ _ (ready_step-Keeps e s t m) (
        proceed-Keeps (ready_steps os handle_read handle_write rest)
          (λ s t m. ready_steps-Keeps rest s t m))

-- One call of the handler of EpollSocket, on any batch of events, and one of IoUringSocket, on any
-- completions, never calls `exit`, and keeps every client of the table under its own descriptor, if
-- the read and write handlers leave a client its descriptor and no null pointer is followed.
pub socket_handlers-Keep :
    (os : Os) (handle_read handle_write : Handler) (batch : Option (List EpollEvent)) (f_miss : ℕ)
    (completions : List Cqe) (s : Server) (t : Trace)
    → KeepsFd handle_read
    → KeepsFd handle_write
    → Table AnyKey s.clients
    → Keeps AnyKey ⊥ (epoll_socket_handler os handle_read handle_write batch s t)
      × Keeps AnyKey ⊥ (io_uring_socket_handler os handle_read handle_write f_miss completions s t)
unfolding epoll_socket_handler io_uring_socket_handler Holds
socket_handlers-Keep os hr hw batch f_miss completions s t reads writes m =
    (epoll batch, ready_steps-Keeps os hr hw reads writes _ s t m)
  where
    epoll :
        (batch : Option (List EpollEvent))
        → Keeps AnyKey ⊥ (epoll_socket_handler os hr hw batch s t)
    epoll none = m
    epoll (some events) = ready_steps-Keeps os hr hw reads writes _ s t m

-- If the listening socket of an EpollSocket is reported as hung up or failed, by EPOLLHUP or
-- EPOLLERR, the handler ends with its batch unread and has done nothing: -1 is no key of the table,
-- so `closeSocket(-1)` returns at once, and neither the listening socket nor any client is closed.
pub epoll_socket_handler-hung_up :
    (os : Os) (handle_read handle_write : Handler) (e : EpollEvent) (rest : List EpollEvent)
    (s : Server) (t : Trace)
    → (has e.events 8 || has e.events 16) ≡ true
    → (e.fd == s.socket) ≡ true
    → find minus_one s.clients ≡ none
    → epoll_socket_handler os handle_read handle_write (some (e ∷ rest)) s t ≡ running tt s t
unfolding epoll_socket_handler ready_steps ready_step hung_up proceed of_epoll and_then
epoll_socket_handler-hung_up os hr hw e rest s t h n a =
    rw (h, n, dismiss-absent os minus_one s t a, and_then) refl
