-- ===== src/HttpServer.antt =====
-- mux/HTTP.hpp: SocketReader and class Socket, where kqueue or epoll is. A coroutine handle is made
-- of a promise that stands in no coroutine; what `destroy` does on it is an argument, since the
-- language leaves it undefined. The bytes that a read puts into the buffer are an argument too.
pub mod Undefined
pub mod Closing
mod Tests
use mux.Prelude.{
  ℕ, zero, suc, ◌+◌, ◌-◌, ◌*◌, ◌/◌, ◌%◌, ◌^◌, ◌≤◌, ◌<◌, ◌≡◌, refl, sym, ap, ◌∙◌, ◌≡⟨◌⟩◌, ◌∎, ◌≢◌,
  ◌↔◌, ◌⊎◌, inl, inr, Bool, true, false, not, ◌&&◌, ◌||◌, Option, none, some, List, [], ◌∷◌, ◌++◌,
  map, append_assoc, append-nil, arith, ltb, leb, nat_beq, nat_beq_iff, if◌then◌else◌, Bool-cases,
  Option-cases, eq-false_of_ne_true, length, take, drop, length-append, take-length,
  drop-length-append, All, All-append, HasEq, ◌==◌, nat_eq, bytes_eq, bytes_beq, bytes_beq_iff,
  eq_self, ne_of_beq,
}
use mux.Prelude.Int.{ℤ, pos, negsuc, minus_one, int_beq, int_beq_iff, int_eq, is_neg, is_pos}
use mux.Prelude.Map.{
  Map, find, contains, insert, erase, subscript, find-insert, find-erase, contains-find, map_laws,
}
use mux.Prelude.Bytes.{Bytes, codes, cr, lf, crlf, Lacks}
use mux.Prelude.Decimal.{
  print_nat, print_int, read_nat, IsDigit, read_nat-print_nat, print_nat-Lacks, print_int-Lacks,
}
use mux.Net.System.{
  Filter, reading, Call, accept, close, send, open_socket, bind_address, listen_on, create_poller,
  add_event, epoll_add, read_from, wait_one, Reply, Trace, Os, Sys, sys,
}
use mux.Http.Page.{create_http_response}

-- A call returns, throws a std::runtime_error, or has undefined behaviour.
pub data Outcome (A : Type 0) : Type 0 where
  finished : A → Trace → Outcome A
  thrown : Trace → Outcome A
  undefined : Trace → Outcome A

pub and_then : {A B : Type 0} → Outcome A → (A → Trace → Outcome B) → Outcome B
and_then (finished a t) f = f a t
and_then (thrown t) f = thrown t
and_then (undefined t) f = undefined t

pub record HttpSocket : Type 0 where
  pub server_socket : ℤ
  pub port : ℤ

-- `htons(m_port) == 0`: the port has 16 bits.
port_is_zero : ℤ → Bool
port_is_zero (pos n) = n % 2 ^ 16 == 0
port_is_zero (negsuc n) = (n + 1) % 2 ^ 16 == 0

pub record Event : Type 0 where
  pub ident : ℤ
  -- `filter == EVFILT_READ`, or `events & EPOLLIN`
  pub is_readable : Bool

module _ (os : Os) where
  -- createSocket
  create_socket : HttpSocket → Trace → HttpSocket × Outcome Unit
  create_socket h t =
      let (r, t₁) = sys os open_socket t in
      (record h { server_socket = r.value }, if is_neg r.value then thrown t₁ else finished tt t₁)

  bind_and_listen : ℕ → HttpSocket → Trace → Outcome ℤ
  bind_and_listen backlog h t =
      let (b, t₁) = sys os (bind_address h.server_socket) t in
      let (l, t₂) = sys os (listen_on h.server_socket backlog) t₁ in
      if port_is_zero h.port
      then thrown t
      else if is_neg b.value
      then thrown t₁
      else if is_neg l.value
      then thrown t₂
      else finished (pos 0) t₂

  -- Socket::setup
  pub setup : ℕ → HttpSocket → Trace → HttpSocket × Outcome ℤ
  unfolding create_socket and_then bind_and_listen
  setup backlog h t =
      let (h₁, created) = create_socket h t in
      (h₁, and_then created (λ _ t. bind_and_listen backlog h₁ t))

  -- closeServerSocket, closeSocket, which ignores its argument, and the destructor
  pub close_server_socket : HttpSocket → Trace → Trace
  close_server_socket h t = (sys os (close h.server_socket) t).1

  -- closeClientSocket
  pub close_client_socket : ℤ → Trace → Trace
  close_client_socket fd t = (sys os (close fd) t).1

  -- receiveData; whether the event that was waited for is one for reading is an argument.
  pub receive_data : (Trace → Bool) → ℤ → ℕ → ℤ → Sys ℤ
  receive_data is_reading fd size poller t =
      let (w, t₁) = sys os (wait_one poller) t in
      let (r, t₂) = sys os (read_from fd size) t₁ in
      if is_pos w.value && is_reading t₁ then (r.value, t₂) else (minus_one, t₁)

  -- `std::max`
  larger_fd : ℤ → ℤ → ℤ
  larger_fd (pos a) (pos b) = if ltb a b then pos b else pos a
  larger_fd (pos a) (negsuc b) = pos a
  larger_fd (negsuc a) (pos b) = pos b
  larger_fd (negsuc a) (negsuc b) = if ltb b a then negsuc b else negsuc a

  -- acceptNewConnections: the set `master` and `max_sd`
  accept_new_connections : HttpSocket → (ℤ → Bool) → ℤ → Trace → (ℤ → Bool) × ℤ × Trace
  unfolding larger_fd
  accept_new_connections h master max_sd t =
      let (a, t₁) = sys os (accept h.server_socket) t in
      if is_neg a.value
      then (master, max_sd, t₁)
      else (λ fd. if fd == a.value then true else master fd, larger_fd max_sd a.value, t₁)

  module _ (destroy : Trace → Outcome Unit) (content : Trace → Bytes) where
    -- What follows the two `destroy`s, with the destructor of the reader at the end.
    respond : ℤ → ℤ → Bytes → Trace → Outcome Unit
    unfolding close_client_socket
    respond fd bytes_read buffer t =
        if is_pos bytes_read
        then finished tt (
            close_client_socket fd
              (sys os (send fd (create_http_response buffer (codes "text/plain"))) t).1)
        else finished tt (close_client_socket fd (close_client_socket fd t))

    -- SocketReader::operator()(handle): the result of `read` and the bytes that it read
    read_request : ℤ → Trace → Outcome (ℤ × Bytes)
    unfolding and_then
    read_request fd t =
        let (r, t₁) = sys os (read_from fd 1023) t in
        if is_neg r.value
        then thrown t₁
        else and_then (destroy t₁) (λ _ t. finished (r.value, content t₁) t)

    -- An exception in the reader passes its destructor, which closes the descriptor.
    unwind : {A : Type 0} → ℤ → Outcome A → Outcome A
    unfolding close_client_socket
    unwind fd (finished a t) = finished a t
    unwind fd (thrown t) = thrown (close_client_socket fd t)
    unwind fd (undefined t) = undefined t

    -- Socket::handleConnection
    pub handle_connection : ℤ → Trace → Outcome Unit
    unfolding and_then respond read_request unwind
    handle_connection fd t =
        and_then (unwind fd (read_request fd t))
          (λ request t. and_then (destroy t) (λ _ t. respond fd request.0 request.1 t))

    -- A readable client: `handleConnection(…); close(…);`
    pub client_event : ℤ → Trace → Outcome Unit
    unfolding and_then handle_connection
    client_event fd t =
        and_then (handle_connection fd t) (λ _ t. finished tt (close_client_socket fd t))

    -- handleExistingConnections, from the descriptor `i` on; a set of descriptors, none of which is
    -- as large as FD_SETSIZE, is a function.
    handle_from : HttpSocket → (ℤ → Bool) → ℕ → ℕ → (ℤ → Bool) → Trace → Outcome (ℤ → Bool)
    unfolding and_then handle_connection close_client_socket
    handle_from h readfds zero i master t = finished master t
    handle_from h readfds (suc rounds) i master t =
        let handled = handle_connection (pos i) t in
        let cleared = λ (fd : ℤ). if fd == pos i then false else master fd in
        let rest = handle_from h readfds rounds (i + 1) in
        if readfds (pos i) && not (pos i == h.server_socket)
        then and_then handled (λ _ t. rest cleared (close_client_socket (pos i) t))
        else rest master t

    handle_existing_connections :
        HttpSocket → (ℤ → Bool) → (ℤ → Bool) → ℤ → Trace → Outcome (ℤ → Bool)
    unfolding handle_from
    handle_existing_connections h readfds master (pos max_sd) t =
        handle_from h readfds (suc max_sd) 0 master t
    handle_existing_connections h readfds master (negsuc n) t = finished master t

    -- A new connection with kqueue, where the result of `accept` is not looked at, and with epoll
    accept_kqueue : ℤ → HttpSocket → Trace → Outcome Unit
    accept_kqueue poller h t =
        let (a, t₁) = sys os (accept h.server_socket) t in
        finished tt (sys os (add_event poller a.value reading) t₁).1

    accept_epoll : ℤ → HttpSocket → Trace → Outcome Unit
    accept_epoll poller h t =
        let (a, t₁) = sys os (accept h.server_socket) t in
        if is_neg a.value
        then finished tt t₁
        else finished tt (sys os (epoll_add poller a.value reading) t₁).1

    module _ (new_connection : HttpSocket → Trace → Outcome Unit) (h : HttpSocket) where
      pub handle_event : Event → Trace → Outcome Unit
      unfolding client_event
      handle_event e t =
          if e.is_readable
          then if e.ident == h.server_socket then new_connection h t else client_event e.ident t
          else finished tt t

      pub handle_events : List Event → Trace → Outcome Unit
      unfolding and_then handle_event
      handle_events [] t = finished tt t
      handle_events (e ∷ rest) t = and_then (handle_event e t) (λ _ t. handle_events rest t)

      -- The loop, over what the waits report: a batch of events, or none if the wait failed, which
      -- ends it. It yields whether it has ended.
      pub poll_loop : List (Option (List Event)) → Trace → Outcome Bool
      unfolding and_then handle_events
      poll_loop [] t = finished false t
      poll_loop (none ∷ rest) t = finished true t
      poll_loop (some events ∷ rest) t = and_then (handle_events events t) (λ _ t. poll_loop rest t)

      -- `close(kq); close(m_serverSocket);`, where the loop has ended
      close_both : ℤ → Bool → Trace → Outcome Bool
      unfolding close_server_socket
      close_both poller false t = finished false t
      close_both poller true t = finished true (close_server_socket h (sys os (close poller) t).1)

    -- The exception that is caught and the destructor; a loop that goes on is not destroyed.
    end_of_main : HttpSocket → Outcome Bool → Outcome Bool
    unfolding close_server_socket
    end_of_main h (finished false t) = finished false t
    end_of_main h (finished true t) = finished true (close_server_socket h t)
    end_of_main h (thrown t) = finished true (close_server_socket h t)
    end_of_main h (undefined t) = undefined t

    -- handleAndResumeConnections
    pub resume_kqueue : HttpSocket → List (Option (List Event)) → Trace → Outcome Bool
    unfolding and_then accept_kqueue poll_loop close_both
    resume_kqueue h waits t =
        let (k, t₁) = sys os create_poller t in
        let (_, t₂) = sys os (add_event k.value h.server_socket reading) t₁ in
        and_then (poll_loop (accept_kqueue k.value) h waits t₂)
          (close_both (accept_kqueue k.value) h k.value)

    pub resume_epoll : HttpSocket → List (Option (List Event)) → Trace → Outcome Bool
    unfolding and_then accept_epoll poll_loop close_both
    resume_epoll h waits t =
        let (k, t₁) = sys os create_poller t in
        let (_, t₂) = sys os (epoll_add k.value h.server_socket reading) t₁ in
        and_then (poll_loop (accept_epoll k.value) h waits t₂)
          (close_both (accept_epoll k.value) h k.value)

    -- `main` of src/http.cc from the server on, which the handler of exceptions and the destructor
    -- end; whether `handleAndResumeConnections` is that for kqueue is an argument.
    pub serve_http : Bool → List (Option (List Event)) → Trace → Outcome Bool
    unfolding setup resume_kqueue resume_epoll close_server_socket
    serve_http is_kqueue waits t =
        let (h, ready) = setup 5 (record { server_socket = minus_one; port = pos 3736 }) t in
        end_of_main h (
          and_then ready
            (λ _ t. if is_kqueue then resume_kqueue h waits t else resume_epoll h waits t))
