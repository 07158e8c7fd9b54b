-- ===== src/Net/Poller.antt =====
-- Socket/Poller/Server.hpp and the parts of Socket/Poller/Helpers.hpp that every poller shares: the
-- table of clients, `closeSocket`, and what is done with a connection and with an event's handler.
pub mod Kqueue
pub mod Epoll
pub mod KqueueSocket
pub mod EpollSocket
use mux.Prelude.{
  ℕ, zero, suc, ◌+◌, ◌-◌, ◌*◌, ◌/◌, ◌%◌, ◌^◌, ◌≤◌, ◌<◌, ◌≡◌, refl, sym, ap, ◌∙◌, ◌≡⟨◌⟩◌, ◌∎, ◌≢◌,
  ◌↔◌, ◌⊎◌, inl, inr, Bool, true, false, not, ◌&&◌, ◌||◌, Option, none, some, List, [], ◌∷◌, ◌++◌,
  map, append_assoc, append-nil, arith, ltb, leb, nat_beq, nat_beq_iff, if◌then◌else◌, Bool-cases,
  Option-cases, eq-false_of_ne_true, length, take, drop, length-append, take-length,
  drop-length-append, All, All-append, HasEq, ◌==◌, nat_eq, bytes_eq, bytes_beq, bytes_beq_iff,
  eq_self, ne_of_beq,
}
use mux.Prelude.Int.{ℤ, pos, negsuc, minus_one, int_beq, int_beq_iff, int_eq, is_neg, is_pos}
use mux.Prelude.Map.{
  Map, find, contains, insert, erase, subscript, find-insert, find-erase, contains-find, map_laws,
}
use mux.Prelude.Bytes.{Bytes, codes, cr, lf, crlf, Lacks}
use mux.Prelude.Decimal.{
  print_nat, print_int, read_nat, IsDigit, read_nat-print_nat, print_nat-Lacks, print_int-Lacks,
}
use mux.Net.System.{Filter, reading, writing, Trace, Os}
use mux.Net.Client.{ClientSocket, new_client, accept_client, close_client, destroy_client}

-- A handler gets a shared pointer: to a client, which it may change, or null, which it may follow.
pub record Handler : Type 0 where
  pub on_client : ClientSocket → Trace → ℤ × ClientSocket × Trace
  pub on_null : Trace → Option (ℤ × Trace)

-- `clientFds_` maps a descriptor to a shared pointer, null for a key that was only looked up.
abbrev pub Clients : Type 0
Clients = Map ℤ (Option ClientSocket)

pub record Server : Type 0 where
  pub socket : ℤ
  pub poller : ℤ
  pub clients : Clients

-- The process goes on, has called `exit`, or has followed a null pointer.
pub data Run (A : Type 0) : Type 0 where
  running : A → Server → Trace → Run A
  exited : Trace → Run A
  faulted : Trace → Run A

pub and_then : {A B : Type 0} → Run A → (A → Server → Trace → Run B) → Run B
and_then (running a s t) f = f a s t
and_then (exited t) f = exited t
and_then (faulted t) f = faulted t

-- `clientFds_[fd]`
pub look_up : ℤ → Server → Option ClientSocket × Server
look_up fd s = let (p, m) = subscript fd none s.clients in (p, record s { clients = m })

pub call_handler : Handler → ℤ → Option ClientSocket → Server → Trace → Run ℤ
call_handler h fd none s t = elim (h.on_null t) [
  | none ↦ faulted t
  | some (status, t') ↦ running status s t'
]
call_handler h fd (some c) s t =
    let (status, c', t') = h.on_client c t in
    running status (record s { clients = insert fd (some c') s.clients }) t'

module _ (os : Os) where
  -- `clientFds_.clear()`
  pub destroy_all : Clients → Trace → Trace
  destroy_all [] t = t
  destroy_all ((fd, none) ∷ m) t = destroy_all m t
  destroy_all ((fd, some c) ∷ m) t = destroy_all m (destroy_client os c t)

  pub close_entry : ℤ → Option ClientSocket → Server → Trace → Run Bool
  close_entry client none s t = faulted t
  close_entry client (some c) s t =
      let (r, c', t') = close_client os c t in
      running (not (is_neg r)) (record s { clients = erase client s.clients })
        (destroy_client os c' t')

  pub close_found : ℤ → Option (Option ClientSocket) → Server → Trace → Run Bool
  unfolding close_entry destroy_all
  close_found client none s t = running true s t
  close_found client (some p) s t =
      if is_pos client then close_entry client p s t else exited (destroy_all s.clients t)

  -- SocketBase::closeSocket
  pub close_socket : ℤ → Server → Trace → Run Bool
  unfolding close_found
  close_socket client s t = close_found client (find client s.clients) s t

  -- The pointer that an assignment to its key replaces.
  release : Option (Option ClientSocket) → Trace → Trace
  release (some (some c)) t = destroy_client os c t
  release _ t = t

  pub admit : ℤ × ClientSocket × Trace → Server → Run Unit
  unfolding release
  admit (fd, c, t) s =
      if fd == minus_one
      then running tt s (destroy_client os c t)
      else running tt (record s { clients = insert fd (some c) s.clients })
          (release (find fd s.clients) t)

  -- `fd == socket_`: a new connection
  pub accept_connection : Server → Trace → Run Unit
  unfolding admit
  accept_connection s t = admit (accept_client os (new_client s.poller s.socket) t) s
