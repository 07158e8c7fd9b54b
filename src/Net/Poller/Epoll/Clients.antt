-- ===== src/Net/Poller/Epoll/Clients.antt =====
-- Socket/Poller/Helpers.hpp: one call of `pollingHandler` for epoll or io_uring and the table of
-- clients.
use mathlib.Core.Path.{subst}
use mux.Prelude.{Option, none, some, List, ◌≡◌, nat_eq, bytes_eq}
use mux.Prelude.Int.{ℤ, int_eq}
use mux.Net.System.{Trace, Os}
use mux.Net.Client.{ClientSocket, set_writer, remove_writer}
use mux.Net.Client.Accepting.{set_writer-client_fd}
use mux.Net.Poller.{Handler, Server, Run, running, exited, faulted, look_up, call_handler}
use mux.Net.Poller.Kqueue.Preserves.{Holds}
use mux.Net.Poller.Kqueue.Table.{
  Table, Keeps, KeepsFd, Fits, call_handler-Keeps, accept_connection-Keeps, look_up-Table,
  close_socket-Keeps,
}
use mux.Net.Poller.Epoll.{
  Readiness, EpollEvent, Completion, handle_all, epoll_handler, io_uring_handler,
}
use mux.Net.Poller.Epoll.Preserves.{handle_all-Holds}
use mux.Net.Poller.KqueueSocket.Registered.{
  AnyKey, look_up-Fits, through-Keeps, remove_writer-client_fd,
}

-- Either the process has ended, or every client is under its own descriptor.
abbrev pub Registers : {A : Type 0} → Run A → Type 0
Registers r = Keeps AnyKey (Unit {0}) r

weaken : (r : Run Unit) → Keeps AnyKey ⊥ r → Registers r
unfolding Holds
weaken (running a s t) h = h
weaken (exited t) h = tt
weaken (faulted t) h = tt

-- A pointer that is looked up fits its key.
points-Fits :
    (fd : ℤ) (p : Option ClientSocket) (s : Server)
    → (look_up fd s).0 ≡ p
    → Table AnyKey s.clients
    → Fits fd p
points-Fits fd p s e m = subst (Fits fd) e (look_up-Fits fd s m)

call-Registers :
    (h : Handler) (fd : ℤ) (p : Option ClientSocket) (s : Server) (t : Trace)
    → KeepsFd h
    → (look_up fd s).0 ≡ p
    → Table AnyKey s.clients
    → Registers (call_handler h fd p s t)
call-Registers h fd p s t k e m =
    call_handler-Keeps AnyKey Unit h fd p s t k (tt, points-Fits fd p s e m) m

handle_all-Registers :
    (os : Os) (handle_read handle_write : Handler)
    → KeepsFd handle_read
    → KeepsFd handle_write
    → (events : List Readiness) (s : Server) (t : Trace) → Table AnyKey s.clients
    → Registers (handle_all os handle_read handle_write events s t)
handle_all-Registers os hr hw reads writes =
    handle_all-Holds os hr hw (λ s t. Table AnyKey s.clients) Unit
      (λ fd s t m. (look_up-Table AnyKey fd s tt m).0)
      (λ fd p s t e m. call-Registers hr fd p s t reads e m)
      (λ fd p s t e m. call-Registers hw fd p s t writes e m)
      (λ fd s t m. close_socket-Keeps os AnyKey Unit (λ k q n. tt) fd s t m)
      (λ s t m. accept_connection-Keeps os AnyKey Unit s t (λ n. tt) m)
      (λ fd p s t e m. weaken _ (
        through-Keeps (set_writer os) fd p s t (set_writer-client_fd os) (points-Fits fd p s e m)
          m))
      (λ fd p s t e m. weaken _ (
        through-Keeps (remove_writer os) fd p s t (remove_writer-client_fd os)
          (points-Fits fd p s e m) m))

-- One call of `pollingHandler` for epoll, on any batch of events, and one for io_uring, on any
-- completions, keeps every client of the table under its own descriptor, if the read and write
-- handlers leave a client its descriptor and the process goes on.
pub polling_handlers-Keep :
    (os : Os) (handle_read handle_write : Handler) (batch : Option (List EpollEvent))
    (completions : List Completion) (s : Server) (t : Trace)
    → KeepsFd handle_read
    → KeepsFd handle_write
    → Table AnyKey s.clients
    → Registers (epoll_handler os handle_read handle_write batch s t)
      × Registers (io_uring_handler os handle_read handle_write completions s t)
unfolding epoll_handler io_uring_handler Holds
polling_handlers-Keep os hr hw none completions s t reads writes m =
    (m, handle_all-Registers os hr hw reads writes _ s t m)
polling_handlers-Keep os hr hw (some events) completions s t reads writes m = (
  handle_all-Registers os hr hw reads writes _ s t m,
  handle_all-Registers os hr hw reads writes _ s t m,
)
