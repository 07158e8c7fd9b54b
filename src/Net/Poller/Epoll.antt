-- ===== src/Net/Poller/Epoll.antt =====
-- Socket/Poller/Helpers.hpp, where epoll or io_uring is: the two `pollingHandler`s, which differ
-- in what they read from an event.
pub mod Preserves
pub mod Clients
pub mod Balance
mod Tests
use mux.Prelude.{
  ℕ, Bool, false, not, ◌||◌, Option, none, some, List, [], ◌∷◌, map, if◌then◌else◌, ◌==◌, nat_eq,
  bytes_eq,
}
use mux.Prelude.Int.{ℤ, pos, negsuc, int_eq, is_neg, is_pos}
use mux.Prelude.Map.{insert}
use mux.Net.System.{Trace, Os}
use mux.Net.Client.{ClientSocket, set_writer, remove_writer}
use mux.Net.Poller.{
  Handler, Server, Run, running, faulted, and_then, close_socket, accept_connection, look_up,
  call_handler,
}
use Prim.Native.Nat.{bit_and}

-- What a handler reads from an event.
pub record Readiness : Type 0 where
  pub ident : ℤ
  pub failed : Bool
  pub is_in : Bool
  pub is_out : Bool

pub record EpollEvent : Type 0 where
  pub fd : ℤ
  pub events : ℕ

-- A completion of io_uring; its `user_data` is the descriptor.
pub record Completion : Type 0 where
  pub user_data : ℤ
  pub res : ℤ

-- EPOLLIN and POLLIN are 1, EPOLLOUT and POLLOUT 4, EPOLLERR 8, EPOLLHUP 16.
abbrev pub has : ℕ → ℕ → Bool
has flags flag = not (bit_and flags flag == 0)

has_bit : ℤ → ℕ → Bool
has_bit (pos n) flag = has n flag
has_bit (negsuc n) flag = false

unfoldable pub of_epoll : EpollEvent → Readiness
of_epoll e = record {
  ident = e.fd;
  failed = has e.events 8 || has e.events 16;
  is_in = has e.events 1;
  is_out = has e.events 4;
}

-- A negative result is a failure, whose bits are not looked at.
pub of_completion : Completion → Readiness
unfolding has_bit
of_completion c = record {
  ident = c.user_data;
  failed = is_neg c.res;
  is_in = has_bit c.res 1;
  is_out = has_bit c.res 4;
}

-- A method called through the shared pointer.
unfoldable pub through :
    (ClientSocket → Trace → ℤ × ClientSocket × Trace)
    → ℤ
    → Option ClientSocket
    → Server
    → Trace
    → Run Unit
through method fd none s t = faulted t
through method fd (some c) s t =
    let (_, c', t') = method c t in
    running tt (record s { clients = insert fd (some c') s.clients }) t'

module _ (os : Os) where
  close_quietly : ℤ → Server → Trace → Run Unit
  unfolding and_then
  close_quietly fd s t = and_then (close_socket os fd s t) (λ closed s t. running tt s t)

  module _ (handle_read handle_write : Handler) where
    -- The pointer is the one in the table, so looking it up again finds what the calls before
    -- have made of the client.
    written : ℤ → ℤ → Server → Trace → Run Unit
    unfolding through close_quietly
    written fd status s t =
        if not (is_pos status)
        then close_quietly fd s t
        else through (remove_writer os) fd (look_up fd s).0 s t

    write_ready : Readiness → Server → Trace → Run Unit
    unfolding and_then written
    write_ready e s t =
        if e.is_out
        then and_then (call_handler handle_write e.ident (look_up e.ident s).0 s t)
            (written e.ident)
        else running tt s t

    read_done : Readiness → ℤ → Server → Trace → Run Unit
    unfolding and_then write_ready through close_quietly
    read_done e status s t =
        if is_neg status
        then close_quietly e.ident s t
        else and_then (through (set_writer os) e.ident (look_up e.ident s).0 s t)
            (λ _ s t. write_ready e s t)

    client_ready : Readiness → Option ClientSocket → Server → Trace → Run Unit
    unfolding and_then read_done write_ready
    client_ready e p s t =
        if e.is_in
        then and_then (call_handler handle_read e.ident p s t) (read_done e)
        else write_ready e s t

    pub handle_ready : Readiness → Server → Trace → Run Unit
    unfolding client_ready close_quietly
    handle_ready e s t =
        let (p, s₁) = look_up e.ident s in
        if e.failed
        then close_quietly e.ident s t
        else if e.ident == s.socket
        then accept_connection os s t
        else client_ready e p s₁ t

    pub handle_all : List Readiness → Server → Trace → Run Unit
    unfolding and_then handle_ready
    handle_all [] s t = running tt s t
    handle_all (e ∷ rest) s t = and_then (handle_ready e s t) (λ _ s t. handle_all rest s t)

    -- `pollingHandler` over the events of one `epoll_wait`, or none if it failed
    pub epoll_handler : Option (List EpollEvent) → Server → Trace → Run Unit
    unfolding handle_all of_epoll
    epoll_handler none s t = running tt s t
    epoll_handler (some events) s t = handle_all (map of_epoll events) s t

    -- `pollingHandler` over the completions that are in the ring
    pub io_uring_handler : List Completion → Server → Trace → Run Unit
    unfolding handle_all of_completion
    io_uring_handler completions s t = handle_all (map of_completion completions) s t
