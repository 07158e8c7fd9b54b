-- ===== src/Net/Poller/EpollSocket.antt =====
-- Socket/SocketBase/epoll.hpp and Socket/SocketBase/io_uring.hpp: the handlers of EpollSocket and
-- IoUringSocket. Their closeSocket is, word for word, that of KqueueSocket. Releasing a completion,
-- which every branch does, makes no system call.
pub mod Registered
mod Tests
use mux.Prelude.{
  ℕ, zero, suc, ◌+◌, ◌-◌, ◌*◌, ◌/◌, ◌%◌, ◌^◌, ◌≤◌, ◌<◌, ◌≡◌, refl, sym, ap, ◌∙◌, ◌≡⟨◌⟩◌, ◌∎, ◌≢◌,
  ◌↔◌, ◌⊎◌, inl, inr, Bool, true, false, not, ◌&&◌, ◌||◌, Option, none, some, List, [], ◌∷◌, ◌++◌,
  map, append_assoc, append-nil, arith, ltb, leb, nat_beq, nat_beq_iff, if◌then◌else◌, Bool-cases,
  Option-cases, eq-false_of_ne_true, length, take, drop, length-append, take-length,
  drop-length-append, All, All-append, HasEq, ◌==◌, nat_eq, bytes_eq, bytes_beq, bytes_beq_iff,
  eq_self, ne_of_beq,
}
use mux.Prelude.Int.{ℤ, pos, negsuc, minus_one, int_beq, int_beq_iff, int_eq, is_neg, is_pos}
use mux.Prelude.Map.{
  Map, find, contains, insert, erase, subscript, find-insert, find-erase, contains-find, map_laws,
}
use mux.Prelude.Bytes.{Bytes, codes, cr, lf, crlf, Lacks}
use mux.Prelude.Decimal.{
  print_nat, print_int, read_nat, IsDigit, read_nat-print_nat, print_nat-Lacks, print_int-Lacks,
}
use mux.Net.System.{Filter, reading, writing, Trace, Os, Call, Reply}
use mux.Net.Client.{ClientSocket}
use mux.Net.Poller.{
  Handler, Server, Run, running, exited, faulted, and_then, accept_connection, look_up,
  call_handler,
}
use mux.Net.Poller.Kqueue.{Flow, next, finished}
use mux.Net.Poller.Epoll.{Readiness, EpollEvent, of_epoll, has}
use mux.Net.Poller.KqueueSocket.{dismiss, read_status, write_status}

-- The fields of a completion that the handler reads. IORING_CQE_F_MORE is 2.
pub record Cqe : Type 0 where
  pub fd : ℤ
  pub res : ℤ
  pub flags : ℕ

-- No header of liburing defines IORING_CQE_F_MISS, the second argument.
pub of_cqe : ℕ → Cqe → Readiness
of_cqe f_miss c = record {
  ident = c.fd;
  failed = is_neg c.res;
  is_in = has c.flags 2;
  is_out = has c.flags f_miss;
}

-- `continue`, behind what was done.
abbrev carry_on : Run Unit → Run Flow
carry_on r = and_then r (λ _ s t. running next s t)

module _ (os : Os) where
  -- An event that says that the descriptor hung up or failed.
  hung_up : ℤ → Server → Trace → Run Flow
  hung_up fd s t =
      if not (fd == s.socket)
      then carry_on (dismiss os fd s t)
      else and_then (dismiss os minus_one s t) (λ _ s t. running finished s t)

  module _ (handle_read handle_write : Handler) where
    serve_client : Readiness → Option ClientSocket → Server → Trace → Run Unit
    serve_client e p s t =
        if e.is_in
        then and_then (call_handler handle_read e.ident p s t) (read_status os e.ident)
        else if e.is_out
        then and_then (call_handler handle_write e.ident p s t) (write_status os e.ident)
        else dismiss os e.ident s t

    ready_step : Readiness → Server → Trace → Run Flow
    unfolding hung_up serve_client
    ready_step e s t =
        let (p, s₁) = look_up e.ident s in
        if e.failed
        then hung_up e.ident s t
        else if e.ident == s.socket
        then carry_on (accept_connection os s t)
        else carry_on (serve_client e p s₁ t)

    proceed : (Server → Trace → Run Unit) → Flow → Server → Trace → Run Unit
    proceed rest next s t = rest s t
    proceed rest finished s t = running tt s t

    ready_steps : List Readiness → Server → Trace → Run Unit
    unfolding ready_step proceed
    ready_steps [] s t = running tt s t
    ready_steps (e ∷ rest) s t = and_then (ready_step e s t) (proceed (ready_steps rest))

    -- EpollSocket::handler over the events of one `epoll_wait`, or none if it failed
    pub epoll_socket_handler : Option (List EpollEvent) → Server → Trace → Run Unit
    unfolding ready_steps
    epoll_socket_handler none s t = running tt s t
    epoll_socket_handler (some events) s t = ready_steps (map of_epoll events) s t

    -- IoUringSocket::handler over the completions that come until the wait for one fails
    pub io_uring_socket_handler : ℕ → List Cqe → Server → Trace → Run Unit
    unfolding ready_steps of_cqe
    io_uring_socket_handler f_miss completions s t =
        ready_steps (map (of_cqe f_miss) completions) s t
