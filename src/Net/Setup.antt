-- ===== src/Net/Setup.antt =====
-- Socket/Poller/Server.hpp, the listening socket: the constructor of SocketBase with its socket
-- options, its destructor, and the registration with kqueue of Socket/Poller/Helpers.hpp.
pub mod Ready
pub mod Quiet
pub mod Release
pub mod Timeout
pub mod Classes
mod Tests
use mux.Prelude.{
  ℕ, zero, suc, ◌+◌, ◌-◌, ◌*◌, ◌/◌, ◌%◌, ◌^◌, ◌≤◌, ◌<◌, ◌≡◌, refl, sym, ap, ◌∙◌, ◌≡⟨◌⟩◌, ◌∎, ◌≢◌,
  ◌↔◌, ◌⊎◌, inl, inr, Bool, true, false, not, ◌&&◌, ◌||◌, Option, none, some, List, [], ◌∷◌, ◌++◌,
  map, append_assoc, append-nil, arith, ltb, leb, nat_beq, nat_beq_iff, if◌then◌else◌, Bool-cases,
  Option-cases, eq-false_of_ne_true, length, take, drop, length-append, take-length,
  drop-length-append, All, All-append, HasEq, ◌==◌, nat_eq, bytes_eq, bytes_beq, bytes_beq_iff,
  eq_self, ne_of_beq,
}
use mux.Prelude.Int.{ℤ, pos, negsuc, minus_one, int_beq, int_beq_iff, int_eq, is_neg, is_pos}
use mux.Prelude.Map.{
  Map, find, contains, insert, erase, subscript, find-insert, find-erase, contains-find, map_laws,
}
use mux.Prelude.Bytes.{Bytes, codes, cr, lf, crlf, Lacks}
use mux.Prelude.Decimal.{
  print_nat, print_int, read_nat, IsDigit, read_nat-print_nat, print_nat-Lacks, print_int-Lacks,
}
use mux.Net.System.{Filter, epoll_add, next_entry, submit_poll, init_ring}
use mux.Net.System.{
  Filter, reading, writing, Call, get_flags, set_flags, close, add_event, open_socket, set_reuse,
  bind_address, listen_on, set_timeout, create_poller, add_both, Reply, Trace, Os, Sys, sys,
  with_nonblock, without_nonblock,
}

-- CreateSocketT, less what only the address is made of.
pub record Metadata : Type 0 where
  pub is_stream : Bool
  pub backlog : ℕ

-- `poller_ni_` has no value before the constructor reaches it.
pub record Base : Type 0 where
  pub socket : ℤ
  pub poller : Option ℤ

-- Where the constructor returned.
pub data Stage : Type 0 where
  no_socket no_reuse no_nonblock no_address no_poller no_interest no_listen done : Stage

-- `milliseconds / 1000` and `%` of C++ round towards zero.
abbrev pub quotient : ℤ → ℕ → ℤ
quotient (pos n) d = pos (n / d)
quotient (negsuc n) d = let q = (n + 1) / d in if q == 0 then pos 0 else negsuc (q - 1)

abbrev pub remainder : ℤ → ℕ → ℤ
remainder (pos n) d = pos (n % d)
remainder (negsuc n) d = let r = (n + 1) % d in if r == 0 then pos 0 else negsuc (r - 1)

abbrev pub times_1000 : ℤ → ℤ
times_1000 (pos n) = pos (n * 1000)
times_1000 (negsuc n) = negsuc (n * 1000 + 999)

module _ (os : Os) where
  create : Base → Trace → Bool × Base × Trace
  create b t =
      let (r, t₁) = sys os open_socket t in
      (not (is_neg r.value), record b { socket = r.value }, t₁)

  pub bind : Base → Sys Bool
  bind b t =
      let (r, t₁) = sys os (bind_address b.socket) t in
      if is_neg b.socket then (false, t) else (r.value == pos 0, t₁)

  pub listen : Metadata → Base → Sys Bool
  listen m b t =
      let (r, t₁) = sys os (listen_on b.socket m.backlog) t in
      if is_neg b.socket then (false, t) else (not (is_neg r.value), t₁)

  pub set_nonblocking : Bool → Base → Sys Bool
  set_nonblocking non_blocking b t =
      let (f, t₁) = sys os (get_flags b.socket) t in
      let flags = if non_blocking then with_nonblock f.value else without_nonblock f.value in
      let (r, t₂) = sys os (set_flags b.socket flags) t₁ in
      if f.value == minus_one then (false, t₁) else (r.value == pos 0, t₂)

  pub set_reuse_address : Bool → Base → Sys Bool
  set_reuse_address reuse_address b t =
      let (r, t₁) = sys os (set_reuse b.socket (if reuse_address then 1 else 0)) t in
      (r.value == pos 0, t₁)

  -- setSendTimeout and setRecvTimeout
  pub set_send_timeout : ℤ → Base → Sys Bool
  set_send_timeout milliseconds b t =
      let (r, t₁) =
        sys os
          (set_timeout b.socket writing (quotient milliseconds 1000)
            (times_1000 (remainder milliseconds 1000)))
          t in
      (r.value == pos 0, t₁)

  pub set_recv_timeout : ℤ → Base → Sys Bool
  set_recv_timeout milliseconds b t =
      let (r, t₁) =
        sys os
          (set_timeout b.socket reading (quotient milliseconds 1000)
            (times_1000 (remainder milliseconds 1000)))
          t in
      (r.value == pos 0, t₁)

  pub set_poller_readable_writable : ℤ → ℤ → Sys Bool
  set_poller_readable_writable socket poller t =
      let (r, t₁) = sys os (add_both poller socket) t in (not (is_neg r.value), t₁)

  pub set_poller_readable : ℤ → ℤ → Sys Bool
  set_poller_readable socket poller t =
      let (r, t₁) = sys os (add_event poller socket reading) t in (not (is_neg r.value), t₁)

  pub set_poller_writable : ℤ → ℤ → Sys Bool
  set_poller_writable socket poller t =
      let (r, t₁) = sys os (add_event poller socket writing) t in (not (is_neg r.value), t₁)

  -- setPollerReadable and setPollerWritable with epoll
  set_epoll_readable : ℤ → ℤ → Sys Bool
  set_epoll_readable socket poller t =
      let (r, t₁) = sys os (epoll_add poller socket reading) t in (not (r.value == minus_one), t₁)

  set_epoll_writable : ℤ → ℤ → Sys Bool
  set_epoll_writable socket poller t =
      let (r, t₁) = sys os (epoll_add poller socket writing) t in (not (r.value == minus_one), t₁)

  -- The same with io_uring. It writes to the entry that io_uring_get_sqe gives without a look at
  -- it: none where that is null.
  submit_entry : Filter → ℤ → Trace → Option Bool × Trace
  submit_entry filter socket t =
      let (e, t₁) = sys os next_entry t in
      let (r, t₂) = sys os (submit_poll socket filter) t₁ in
      if is_neg e.value then (none, t₁) else (some (not (is_neg r.value)), t₂)

  set_uring_readable : ℤ → Trace → Option Bool × Trace
  unfolding submit_entry
  set_uring_readable socket t = submit_entry reading socket t

  set_uring_writable : ℤ → Trace → Option Bool × Trace
  unfolding submit_entry
  set_uring_writable socket t = submit_entry writing socket t

  -- CreatePollingNotificationInterface, which throws if there is no ring
  create_uring : Sys (Option Unit)
  create_uring t =
      let (r, t₁) = sys os (init_ring 320000) t in (if is_neg r.value then none else some tt, t₁)

  -- The constructor, from its last step to its first.
  listening : Metadata → Base → Trace → Stage × Base × Trace
  unfolding listen
  listening m b t =
      let (ok, t₁) = listen m b t in
      if m.is_stream then if ok then (done, b, t₁) else (no_listen, b, t₁) else (done, b, t)

  interested : Metadata → ℤ → Base → Trace → Stage × Base × Trace
  unfolding set_poller_readable_writable listening
  interested m poller b t =
      let (ok, t₁) = set_poller_readable_writable b.socket poller t in
      if ok then listening m b t₁ else (no_interest, b, t₁)

  polled : Metadata → Base → Trace → Stage × Base × Trace
  unfolding interested
  polled m b t =
      let (p, t₁) = sys os create_poller t in
      let b₁ = record b { poller = some p.value } in
      if p.value == minus_one then (no_poller, b₁, t₁) else interested m p.value b₁ t₁

  bound : Metadata → Base → Trace → Stage × Base × Trace
  unfolding bind polled
  bound m b t = let (ok, t₁) = bind b t in if ok then polled m b t₁ else (no_address, b, t₁)

  nonblocking : Metadata → Base → Trace → Stage × Base × Trace
  unfolding set_nonblocking bound
  nonblocking m b t =
      let (ok, t₁) = set_nonblocking true b t in if ok then bound m b t₁ else (no_nonblock, b, t₁)

  reusing : Metadata → Base → Trace → Stage × Base × Trace
  unfolding set_reuse_address nonblocking
  reusing m b t =
      let (ok, t₁) = set_reuse_address true b t in
      if ok then nonblocking m b t₁ else (no_reuse, b, t₁)

  -- SocketBase::SocketBase
  pub construct : Metadata → Trace → Stage × Base × Trace
  unfolding create reusing
  construct m t =
      let (ok, b, t₁) = create (record { socket = minus_one; poller = none }) t in
      if ok then reusing m b t₁ else (no_socket, b, t₁)

  pub close_poller : Option ℤ → Trace → Trace
  close_poller none t = t
  close_poller (some p) t = if p == minus_one then t else (sys os (close p) t).1

  -- SocketBase::~SocketBase, behind the clearing of the table; a poller without a value is not
  -- followed any further.
  pub destroy_base : Base → Trace → Trace
  unfolding close_poller
  destroy_base b t = close_poller b.poller (sys os (close minus_one) t).1
