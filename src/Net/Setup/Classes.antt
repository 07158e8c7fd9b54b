-- ===== src/Net/Setup/Classes.antt =====
-- Socket/SocketBase/: the constructors and destructors of KqueueSocket, EpollSocket and
-- IoUringSocket, and the members of the abstract class in main.hpp that they call. The members that
-- set up the socket are, word for word, those of the newer SocketBase.
pub mod Ends
pub mod Registration
pub mod Leak
mod Tests
use mux.Prelude.{
  ℕ, zero, suc, ◌+◌, ◌-◌, ◌*◌, ◌/◌, ◌%◌, ◌^◌, ◌≤◌, ◌<◌, ◌≡◌, refl, sym, ap, ◌∙◌, ◌≡⟨◌⟩◌, ◌∎, ◌≢◌,
  ◌↔◌, ◌⊎◌, inl, inr, Bool, true, false, not, ◌&&◌, ◌||◌, Option, none, some, List, [], ◌∷◌, ◌++◌,
  map, append_assoc, append-nil, arith, ltb, leb, nat_beq, nat_beq_iff, if◌then◌else◌, Bool-cases,
  Option-cases, eq-false_of_ne_true, length, take, drop, length-append, take-length,
  drop-length-append, All, All-append, HasEq, ◌==◌, nat_eq, bytes_eq, bytes_beq, bytes_beq_iff,
  eq_self, ne_of_beq,
}
use mux.Prelude.Int.{ℤ, pos, negsuc, minus_one, int_beq, int_beq_iff, int_eq, is_neg, is_pos}
use mux.Prelude.Map.{
  Map, find, contains, insert, erase, subscript, find-insert, find-erase, contains-find, map_laws,
}
use mux.Prelude.Bytes.{Bytes, codes, cr, lf, crlf, Lacks}
use mux.Prelude.Decimal.{
  print_nat, print_int, read_nat, IsDigit, read_nat-print_nat, print_nat-Lacks, print_int-Lacks,
}
use mux.Net.System.{
  Filter, reading, writing, Call, close, open_socket, create_poller, watch, epoll_add, init_ring,
  next_entry, submit_poll, exit_ring, Reply, Trace, Os, Sys, sys,
}
use mux.Net.Setup.{
  Metadata, Base, create, bind, listen, set_nonblocking, set_reuse_address, set_send_timeout,
  set_recv_timeout, close_poller, destroy_base,
}

-- The virtual members of the abstract SocketBase that concern the listening socket.
pub record Members : Type 0 where
  pub create : Base → Trace → Bool × Base × Trace
  pub bind : Base → Sys Bool
  pub set_nonblocking : Bool → Base → Sys Bool
  pub set_reuse_address : Bool → Base → Sys Bool
  pub set_send_timeout : ℤ → Base → Sys Bool
  pub set_recv_timeout : ℤ → Base → Sys Bool
  pub listen : Metadata → Base → Sys Bool

-- The two of them that the constructors of KqueueSocket and EpollSocket call, and that of
-- IoUringSocket does not.
pub record Interests : Type 0 where
  pub set_readable : Base → Sys Bool
  pub set_writable : Base → Sys Bool

-- Where a constructor returned.
pub data Halt : Type 0 where
  poller_missing socket_missing reuse_refused nonblock_refused address_refused : Halt
  listen_refused unreadable unwritable complete : Halt

-- The object that a constructor leaves: how far it came, the descriptors, and whether `events_` is
-- an array and not null.
pub record Built : Type 0 where
  pub halt : Halt
  pub base : Base
  pub has_events : Bool

abbrev pub halted : Halt → Base → Trace → Built × Trace
halted h b t = (record { halt = h; base = b; has_events = false }, t)

-- `if (!member()) { perror(…); return; }`
pub need : Sys Bool → Halt → (Base → Trace → Built × Trace) → Base → Trace → Built × Trace
need member h rest b t = let (ok, t₁) = member t in if ok then rest b t₁ else halted h b t₁

-- The poller's descriptor, once there is one.
abbrev polled_by : Base → ℤ
polled_by b = elim b.poller [ some p ↦ p | none ↦ minus_one ]

module _ (os : Os) where
  -- `kevent(…) == 1 && (event.flags & EV_ERROR) == 0`; the flags are an argument.
  watch_event : (Trace → Bool) → Filter → Base → Sys Bool
  watch_event is_error filter b t =
      let (r, t₁) = sys os (watch (polled_by b) b.socket filter) t in
      (r.value == pos 1 && not (is_error t₁), t₁)

  add_epoll : Filter → Base → Sys Bool
  add_epoll filter b t =
      let (r, t₁) = sys os (epoll_add (polled_by b) b.socket filter) t in (r.value == pos 0, t₁)

  -- IoUringSocket::setReadable and setWritable. The first looks whether it was given an entry of
  -- the ring, the second uses a null pointer where it was not, which is none.
  ring_readable : Base → Sys Bool
  ring_readable b t =
      let (e, t₁) = sys os next_entry t in
      let (r, t₂) = sys os (submit_poll b.socket reading) t₁ in
      if is_neg e.value then (false, t₁) else (is_pos r.value, t₂)

  ring_writable : Base → Trace → Option Bool × Trace
  ring_writable b t =
      let (e, t₁) = sys os next_entry t in
      let (r, t₂) = sys os (submit_poll b.socket writing) t₁ in
      if is_neg e.value then (none, t₁) else (some (is_pos r.value), t₂)

  pub kqueue_interests : (Trace → Bool) → Interests
  unfolding watch_event
  kqueue_interests is_error = record {
    set_readable = watch_event is_error reading;
    set_writable = watch_event is_error writing;
  }

  pub epoll_interests : Interests
  unfolding add_epoll
  epoll_interests = record { set_readable = add_epoll reading; set_writable = add_epoll writing }

  pub kqueue_members : Members
  unfolding create bind set_nonblocking set_reuse_address listen
  kqueue_members = record {
    create = create os;
    bind = bind os;
    set_nonblocking = set_nonblocking os;
    set_reuse_address = set_reuse_address os;
    set_send_timeout = set_send_timeout os;
    set_recv_timeout = set_recv_timeout os;
    listen = listen os;
  }

  pub epoll_members : Members
  unfolding create bind set_nonblocking set_reuse_address listen
  epoll_members = record {
    create = create os;
    bind = bind os;
    set_nonblocking = set_nonblocking os;
    set_reuse_address = set_reuse_address os;
    set_send_timeout = set_send_timeout os;
    set_recv_timeout = set_recv_timeout os;
    listen = listen os;
  }

  pub uring_members : Members
  unfolding create bind set_nonblocking set_reuse_address listen
  uring_members = record {
    create = create os;
    bind = bind os;
    set_nonblocking = set_nonblocking os;
    set_reuse_address = set_reuse_address os;
    set_send_timeout = set_send_timeout os;
    set_recv_timeout = set_recv_timeout os;
    listen = listen os;
  }

-- The constructors of the three classes agree from `create` to `listen`. What follows is an
-- argument.
module _ (x : Members) (m : Metadata) (rest : Base → Trace → Built × Trace) where
  listen_first : Base → Trace → Built × Trace
  unfolding need
  listen_first b t = if m.is_stream then need (x.listen m b) listen_refused rest b t else rest b t

  bind_first : Base → Trace → Built × Trace
  unfolding listen_first
  bind_first b t = need (x.bind b) address_refused listen_first b t

  nonblocking_first : Base → Trace → Built × Trace
  unfolding bind_first
  nonblocking_first b t = need (x.set_nonblocking true b) nonblock_refused bind_first b t

  reuse_first : Base → Trace → Built × Trace
  unfolding nonblocking_first
  reuse_first b t = need (x.set_reuse_address true b) reuse_refused nonblocking_first b t

  pub create_first : Base → Trace → Built × Trace
  unfolding reuse_first
  create_first b t =
      let (ok, b₁, t₁) = x.create b t in
      if ok then reuse_first b₁ t₁ else halted socket_missing b₁ t₁

-- `events_ = new …[metadata_.backlog];`
allocate : Base → Trace → Built × Trace
allocate b t = (record { halt = complete; base = b; has_events = true }, t)

writable_last : Interests → Base → Trace → Built × Trace
unfolding need allocate
writable_last x b t = need (x.set_writable b) unwritable allocate b t

readable_last : Interests → Base → Trace → Built × Trace
unfolding writable_last
readable_last x b t = need (x.set_readable b) unreadable (writable_last x) b t

abbrev unset : ℤ → Base
unset p = record { socket = minus_one; poller = some p }

module _ (os : Os) where
  -- A constructor that makes its poller first.
  construct_polled : Members → Interests → Metadata → Trace → Built × Trace
  unfolding create_first readable_last
  construct_polled x i m t =
      let (p, t₁) = sys os create_poller t in
      if p.value == minus_one
      then halted poller_missing (unset p.value) t₁
      else create_first x m (readable_last i) (unset p.value) t₁

  -- KqueueSocket::KqueueSocket
  pub kqueue_socket : (Trace → Bool) → Metadata → Trace → Built × Trace
  unfolding construct_polled kqueue_members kqueue_interests
  kqueue_socket is_error m t =
      construct_polled (kqueue_members os) (kqueue_interests os is_error) m t

  -- EpollSocket::EpollSocket
  pub epoll_socket : Metadata → Trace → Built × Trace
  unfolding construct_polled epoll_members epoll_interests
  epoll_socket m t = construct_polled (epoll_members os) (epoll_interests os) m t

  -- IoUringSocket::IoUringSocket, or none if it throws. The ring is no descriptor of its own.
  pub uring_socket : Metadata → Trace → Option Built × Trace
  unfolding create_first allocate uring_members
  uring_socket m t =
      let (r, t₁) = sys os (init_ring 32) t in
      let (o, t₂) =
        create_first (uring_members os) m allocate (record { socket = minus_one; poller = none })
          t₁ in
      if is_neg r.value then (none, t₁) else (some o, t₂)

  -- ~KqueueSocket and ~EpollSocket, behind the clearing of the table: `close(-1)`, then the poller.
  pub destroy_polled : Built → Trace → Trace
  unfolding destroy_base
  destroy_polled o t = destroy_base os o.base t

  -- ~IoUringSocket
  pub destroy_uring : Built → Trace → Trace
  destroy_uring o t = (sys os exit_ring (sys os (close minus_one) t).1).1
