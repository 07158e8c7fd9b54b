-- ===== src/Net/Poller/Epoll/Balance.antt =====
-- Socket/Poller/Helpers.hpp, where epoll or io_uring is: every accepted descriptor is shut down
-- once, or is still held by the table of clients.
use mux.Prelude.{
  ◌≡◌, ◌∙◌, refl, ap, inl, inr, Option, none, some, List, arith, Option-cases, nat_eq, bytes_eq,
}
use mux.Prelude.Int.{ℤ, int_beq_iff, int_eq}
use mux.Prelude.Map.{find, subscript}
use mux.Net.System.{Trace, Os}
use mux.Net.Client.{ClientSocket, set_writer, remove_writer}
use mux.Net.Client.Accepting.{set_writer-client_fd, set_writer-is_connected}
use mux.Net.Client.Closing.{shutdowns}
use mux.Net.Client.Balance.{accepts, IsHealthy, set_writer-counts}
use mux.Net.Poller.{Handler, Server, look_up}
use mux.Net.Poller.Kqueue.Table.{Fits, insert-Table}
use mux.Net.Poller.Kqueue.Preserves.{Holds}
use mux.Net.Poller.Kqueue.Held.{
  IsBalanced, IsNeutral, held-insert, look_up-IsBalanced, call_handler-IsBalanced,
}
use mux.Net.Poller.Kqueue.Balance.{close_socket-IsBalanced, accept_connection-IsBalanced}
use mux.Net.Poller.KqueueSocket.Registered.{remove_writer-client_fd}
use mux.Net.Poller.Epoll.{
  Readiness, EpollEvent, Completion, through, handle_all, epoll_handler, io_uring_handler,
}
use mux.Net.Poller.Epoll.Preserves.{handle_all-Holds}

-- A client that is looked up stands in the table.
points-found :
    (fd : ℤ) (p : Option ClientSocket) (s : Server)
    → (look_up fd s).0 ≡ p
    → (c : ClientSocket) → p ≡ some c
    → find fd s.clients ≡ some (some c)
unfolding look_up subscript
points-found fd p s h c e = elim (Option-cases (find fd s.clients)) [
  | inr f ↦ let same : f.0 ≡ some c = (rw (f.1, look_up, subscript) at h) ∙ e in f.1 ∙ ap some same
  | inl f ↦
      let absurd : none ≡ some c = (rw (f, look_up, subscript) at h) ∙ e in elim (never absurd) [ ]
]
  where
    never : none ≡ some c → ⊥
    never q = cc

-- What a method leaves alone: the descriptor and whether it is connected, and the counts.
pub record IsQuiet (method : ClientSocket → Trace → ℤ × ClientSocket × Trace) : Type 0 where
  pub same_fd : (c : ClientSocket) (t : Trace) → (method c t).1.client_fd ≡ c.client_fd
  pub same_state : (c : ClientSocket) (t : Trace) → (method c t).1.is_connected ≡ c.is_connected
  pub same_counts :
      (k : ℤ) (c : ClientSocket) (t : Trace)
      → (shutdowns k (method c t).2 ≡ shutdowns k t) × (accepts k (method c t).2 ≡ accepts k t)

set_writer-IsQuiet : (os : Os) → IsQuiet (set_writer os)
set_writer-IsQuiet os = record {
  same_fd = set_writer-client_fd os;
  same_state = set_writer-is_connected os;
  same_counts = set_writer-counts os;
}

remove_writer-IsQuiet : (os : Os) → IsQuiet (remove_writer os)
unfolding remove_writer shutdowns accepts
remove_writer-IsQuiet os = record {
  same_fd = remove_writer-client_fd os;
  same_state = λ c t. ground arith;
  same_counts = λ k c t. ground arith;
}

through-IsBalanced :
    (method : ClientSocket → Trace → ℤ × ClientSocket × Trace) (fd : ℤ) (p : Option ClientSocket)
    (s : Server) (t : Trace)
    → IsQuiet method
    → ((c : ClientSocket) → p ≡ some c → find fd s.clients ≡ some (some c))
    → IsBalanced s t
    → Holds IsBalanced (Unit {0}) (through method fd p s t)
unfolding through Holds Fits
through-IsBalanced method fd none s t q f b = tt
through-IsBalanced method fd (some c) s t q f b =
    let (_, c', t') = method c t in
    let found = f c refl in
    record {
      placed =
          insert-Table (λ k. Unit) fd (some c') s.clients tt
            (q.same_fd c t ∙ (b.placed fd (some c) found).1) b.placed;
      level = λ k z. ground (
        arith,
        held-insert k fd (some c') s.clients,
        int_beq_iff fd k,
        q.same_state c t,
        q.same_counts k c t,
        b.level k z,
      );
    }

handle_all-IsBalanced :
    (os : Os) (handle_read handle_write : Handler)
    → IsHealthy os
    → IsNeutral handle_read
    → IsNeutral handle_write
    → (events : List Readiness) (s : Server) (t : Trace) → IsBalanced s t
    → Holds IsBalanced (Unit {0}) (handle_all os handle_read handle_write events s t)
handle_all-IsBalanced os hr hw h r w =
    handle_all-Holds os hr hw IsBalanced Unit look_up-IsBalanced
      (λ fd p s t e. call_handler-IsBalanced hr fd p s t r (points-found fd p s e))
      (λ fd p s t e. call_handler-IsBalanced hw fd p s t w (points-found fd p s e))
      (close_socket-IsBalanced os) (accept_connection-IsBalanced os h)
      (λ fd p s t e.
        through-IsBalanced (set_writer os) fd p s t (set_writer-IsQuiet os) (points-found fd p s e))
      (λ fd p s t e.
        through-IsBalanced (remove_writer os) fd p s t (remove_writer-IsQuiet os)
          (points-found fd p s e))

-- The balance of one call for epoll, on any batch of events, and of one for io_uring, on any
-- completions: on a system on which the setup of a connection never fails, and with neutral
-- handlers, what was accepted and not shut down is what the table holds, behind the call as before
-- it, if the process goes on.
pub polling_handlers-IsBalanced :
    (os : Os) (handle_read handle_write : Handler)
    → IsHealthy os
    → IsNeutral handle_read
    → IsNeutral handle_write
    → (batch : Option (List EpollEvent)) (completions : List Completion) (s : Server) (t : Trace)
    → IsBalanced s t
    → Holds IsBalanced (Unit {0}) (epoll_handler os handle_read handle_write batch s t)
      × Holds IsBalanced (Unit {0}) (io_uring_handler os handle_read handle_write completions s t)
unfolding epoll_handler io_uring_handler Holds
polling_handlers-IsBalanced os hr hw h r w none completions s t b =
    (b, handle_all-IsBalanced os hr hw h r w _ s t b)
polling_handlers-IsBalanced os hr hw h r w (some events) completions s t b =
    (handle_all-IsBalanced os hr hw h r w _ s t b, handle_all-IsBalanced os hr hw h r w _ s t b)
