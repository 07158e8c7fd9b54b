-- ===== src/Net/Poller/KqueueSocket.antt =====
-- Socket/SocketBase/Kqueue.hpp, the older server class: KqueueSocket::closeSocket and
-- KqueueSocket::handler. The table of clients and the handlers are as in the newer class.
pub mod Registered
mod Tests
use mux.Prelude.{
  ℕ, zero, suc, ◌+◌, ◌-◌, ◌*◌, ◌/◌, ◌%◌, ◌^◌, ◌≤◌, ◌<◌, ◌≡◌, refl, sym, ap, ◌∙◌, ◌≡⟨◌⟩◌, ◌∎, ◌≢◌,
  ◌↔◌, ◌⊎◌, inl, inr, Bool, true, false, not, ◌&&◌, ◌||◌, Option, none, some, List, [], ◌∷◌, ◌++◌,
  map, append_assoc, append-nil, arith, ltb, leb, nat_beq, nat_beq_iff, if◌then◌else◌, Bool-cases,
  Option-cases, eq-false_of_ne_true, length, take, drop, length-append, take-length,
  drop-length-append, All, All-append, HasEq, ◌==◌, nat_eq, bytes_eq, bytes_beq, bytes_beq_iff,
  eq_self, ne_of_beq,
}
use mux.Prelude.Int.{ℤ, pos, negsuc, minus_one, int_beq, int_beq_iff, int_eq, is_neg, is_pos}
use mux.Prelude.Map.{
  Map, find, contains, insert, erase, subscript, find-insert, find-erase, contains-find, map_laws,
}
use mux.Prelude.Bytes.{Bytes, codes, cr, lf, crlf, Lacks}
use mux.Prelude.Decimal.{
  print_nat, print_int, read_nat, IsDigit, read_nat-print_nat, print_nat-Lacks, print_int-Lacks,
}
use mux.Net.System.{Filter, reading, writing, Trace, Os, Call, Reply}
use mux.Net.Client.{
  ClientSocket, new_client, accept_client, close_client, destroy_client, set_writer, remove_writer,
}
use mux.Net.Poller.{
  Handler, Clients, Server, Run, running, exited, faulted, and_then, destroy_all, close_entry,
  close_found, close_socket, release, admit, accept_connection, look_up, call_handler,
}
use mux.Net.System.{close, sys}
use mux.Net.Poller.Kqueue.{Event}
use mux.Net.Poller.Epoll.{through}

module _ (os : Os) where
  -- `socket_ = -1; clientFds_.clear(); return ::close(socket_) == 0;`
  close_server : Server → Trace → Run Bool
  close_server s t =
      let (r, t₁) = sys os (close minus_one) (destroy_all os s.clients t) in
      running (r.value == pos 0) (record s { socket = minus_one; clients = [] }) t₁

  -- A client that cannot be closed stays in the table.
  close_listed : ℤ → Option ClientSocket → Server → Trace → Run Bool
  close_listed fd none s t = faulted t
  close_listed fd (some c) s t =
      let (r, c', t') = close_client os c t in
      if r == minus_one
      then running false (record s { clients = insert fd (some c') s.clients }) t'
      else running true (record s { clients = erase fd s.clients }) (destroy_client os c' t')

  close_known : ℤ → Option (Option ClientSocket) → Server → Trace → Run Bool
  unfolding close_server close_listed
  close_known fd none s t = running true s t
  close_known fd (some p) s t = if is_neg fd then close_server s t else close_listed fd p s t

  -- KqueueSocket::closeSocket
  close_descriptor : ℤ → Server → Trace → Run Bool
  unfolding close_known
  close_descriptor fd s t = close_known fd (find fd s.clients) s t

  pub dismiss : ℤ → Server → Trace → Run Unit
  unfolding and_then
  dismiss fd s t = and_then (close_descriptor fd s t) (λ closed s t. running tt s t)

  pub read_status : ℤ → ℤ → Server → Trace → Run Unit
  unfolding through dismiss
  read_status fd status s t =
      if is_neg status then dismiss fd s t else through (set_writer os) fd (look_up fd s).0 s t

  -- `closeSocket(fd); clientSock->removeWriter();` The event's own pointer keeps the client alive
  -- until then, also where the table has given it up.
  dismiss_writer : ℤ → Option ClientSocket → Server → Trace → Run Unit
  dismiss_writer fd none s t = faulted t
  dismiss_writer fd (some c) s t =
      let (r, c', t') = close_client os c t in
      let (_, c'', t'') = remove_writer os c' t' in
      let (_, u) = sys os (close minus_one) (destroy_all os (erase fd s.clients) t) in
      let (_, d, u') = remove_writer os c u in
      if is_neg fd
      then running tt (record s { socket = minus_one; clients = [] }) (destroy_client os d u')
      else if r == minus_one
      then running tt (record s { clients = insert fd (some c'') s.clients }) t''
      else running tt (record s { clients = erase fd s.clients }) (destroy_client os c'' t'')

  pub write_status : ℤ → ℤ → Server → Trace → Run Unit
  unfolding through dismiss_writer
  write_status fd status s t =
      let p = (look_up fd s).0 in
      if not (is_pos status) then dismiss_writer fd p s t else through (remove_writer os) fd p s t

  module _ (handle_read handle_write : Handler) where
    pub client_step : ℤ → Option Filter → Option ClientSocket → Server → Trace → Run Unit
    unfolding and_then call_handler read_status write_status dismiss
    client_step fd (some reading) p s t =
        and_then (call_handler handle_read fd p s t) (read_status fd)
    client_step fd (some writing) p s t =
        and_then (call_handler handle_write fd p s t) (write_status fd)
    client_step fd none p s t = dismiss fd s t

    event_step : Event → Server → Trace → Run Unit
    unfolding client_step dismiss
    event_step e s t =
        let (p, s₁) = look_up e.ident s in
        if e.is_eof && not (e.ident == s.socket)
        then dismiss e.ident s t
        else if e.ident == s.socket
        then accept_connection os s t
        else client_step e.ident e.filter p s₁ t

    -- KqueueSocket::handler over the events of one `kevent`, or none if it failed
    events_step : List Event → Server → Trace → Run Unit
    unfolding and_then event_step
    events_step [] s t = running tt s t
    events_step (e ∷ rest) s t = and_then (event_step e s t) (λ _ s t. events_step rest s t)

    pub handler : Option (List Event) → Server → Trace → Run Unit
    unfolding events_step
    handler none s t = running tt s t
    handler (some events) s t = events_step events s t
