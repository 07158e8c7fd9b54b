-- ===== src/Net/System.antt =====
-- The system calls that the socket classes make. The operating system is an argument: it answers a
-- call by what has happened so far, so any behaviour of kernel and peers is some such function.
use mux.Prelude.{ℕ, ◌-◌, ◌%◌, ◌^◌, Bool, not, List, ◌∷◌, ◌==◌, nat_eq, bytes_eq}
use mux.Prelude.Int.{ℤ, pos, negsuc, int_eq}
use mux.Prelude.Bytes.{Bytes}
use Prim.Native.Nat.{bit_and, bit_or}

-- EVFILT_READ and EVFILT_WRITE
pub data Filter : Type 0 where
  reading writing : Filter

pub data Call : Type 0 where
  accept : (server : ℤ) → Call
  get_flags : (fd : ℤ) → Call
  set_flags : (fd : ℤ) (flags : ℕ) → Call
  set_nodelay : (fd : ℤ) → Call
  shutdown : (fd : ℤ) → Call
  close : (fd : ℤ) → Call
  recv : (fd : ℤ) (size : ℕ) → Call
  send : (fd : ℤ) (text : Bytes) → Call
  open_socket : Call
  set_reuse : (fd : ℤ) (option : ℕ) → Call
  bind_address : (fd : ℤ) → Call
  listen_on : (fd : ℤ) (backlog : ℕ) → Call
  -- SO_SNDTIMEO or SO_RCVTIMEO, in seconds and microseconds
  set_timeout : (fd : ℤ) (filter : Filter) (seconds microseconds : ℤ) → Call
  create_poller : Call
  -- kevent with both changes of `setPollerReadableWritable`
  add_both : (poller fd : ℤ) → Call
  -- kevent with one change, EV_ADD | EV_ENABLE or EV_DELETE
  add_event : (poller fd : ℤ) (filter : Filter) → Call
  delete_event : (poller fd : ℤ) (filter : Filter) → Call
  -- kevent with one change, EV_ADD | EV_ENABLE | EV_CLEAR, that also waits for one event
  watch : (poller fd : ℤ) (filter : Filter) → Call
  -- epoll_ctl with EPOLL_CTL_ADD
  epoll_add : (poller fd : ℤ) (filter : Filter) → Call
  -- io_uring_queue_init; io_uring_get_sqe, which returns null (below 0 here) where the ring is
  -- full; and io_uring_submit behind io_uring_prep_poll_add
  init_ring : (entries : ℕ) → Call
  next_entry : Call
  submit_poll : (fd : ℤ) (filter : Filter) → Call
  exit_ring : Call
  -- kevent with two changes, read behind an object that holds one
  add_beyond : (poller : ℤ) → Call
  -- read of <unistd.h>
  read_from : (fd : ℤ) (size : ℕ) → Call
  -- a wait for one event of the poller
  wait_one : (poller : ℤ) → Call

pub data Errno : Type 0 where
  again would_block other : Errno

-- What a call returns, and `errno` behind it.
pub record Reply : Type 0 where
  pub value : ℤ
  pub errno : Errno

-- The calls made so far with their replies, newest first.
abbrev pub Trace : Type 0
Trace = List (Call × Reply)

abbrev pub Os : Type 0
Os = Trace → Call → Reply

-- A computation that makes system calls.
abbrev pub Sys : Type 0 → Type 0
Sys A = Trace → A × Trace

abbrev pub sys : Os → Call → Sys Reply
sys os c t = let r = os t c in (r, (c, r) ∷ t)

-- The bits of an `int`.
abbrev pub word : ℤ → ℕ
word (pos n) = n % 2 ^ 32
word (negsuc n) = 2 ^ 32 - 1 - n % 2 ^ 32

-- O_RDWR and O_NONBLOCK of <fcntl.h> where kqueue is
abbrev pub o_rdwr : ℕ
o_rdwr = 2

abbrev pub o_nonblock : ℕ
o_nonblock = 4

-- `flags & O_RDWR`
abbrev pub is_open : ℤ → Bool
is_open flags = not (bit_and (word flags) o_rdwr == 0)

-- `flags | O_NONBLOCK`
abbrev pub with_nonblock : ℤ → ℕ
with_nonblock flags = bit_or (word flags) o_nonblock

-- `flags & ~O_NONBLOCK`
abbrev pub without_nonblock : ℤ → ℕ
without_nonblock flags = bit_and (word flags) (2 ^ 32 - 1 - o_nonblock)
