-- ===== src/Net/Client.antt =====
-- Socket/ClientSocket.hpp: class ClientSocket and the free functions beside it. What is received
-- into a buffer is not modelled, only how much.
pub mod Accepting
pub mod Interest
pub mod Transfers
pub mod Closing
pub mod Balance
pub mod Closed
pub mod Reported
mod Tests
use mux.Prelude.{
  ℕ, zero, suc, ◌+◌, ◌-◌, ◌*◌, ◌/◌, ◌%◌, ◌^◌, ◌≤◌, ◌<◌, ◌≡◌, refl, sym, ap, ◌∙◌, ◌≡⟨◌⟩◌, ◌∎, ◌≢◌,
  ◌↔◌, ◌⊎◌, inl, inr, Bool, true, false, not, ◌&&◌, ◌||◌, Option, none, some, List, [], ◌∷◌, ◌++◌,
  map, append_assoc, append-nil, arith, ltb, leb, nat_beq, nat_beq_iff, if◌then◌else◌, Bool-cases,
  Option-cases, eq-false_of_ne_true, length, take, drop, length-append, take-length,
  drop-length-append, All, All-append, HasEq, ◌==◌, nat_eq, bytes_eq, bytes_beq, bytes_beq_iff,
  eq_self, ne_of_beq,
}
use mux.Prelude.Int.{ℤ, pos, negsuc, minus_one, int_beq, int_beq_iff, int_eq, is_neg, is_pos}
use mux.Prelude.Map.{
  Map, find, contains, insert, erase, subscript, find-insert, find-erase, contains-find, map_laws,
}
use mux.Prelude.Bytes.{Bytes, codes, cr, lf, crlf, Lacks}
use mux.Prelude.Decimal.{
  print_nat, print_int, read_nat, IsDigit, read_nat-print_nat, print_nat-Lacks, print_int-Lacks,
}
use mux.Net.System.{
  Filter, reading, writing, Call, accept, get_flags, set_flags, set_nodelay, shutdown, close, recv,
  send, add_event, delete_event, Errno, again, would_block, other, Reply, Trace, Os, Sys, sys,
  is_open, with_nonblock,
}

pub record ClientSocket : Type 0 where
  pub poller : ℤ
  pub server_socket : ℤ
  pub client_fd : ℤ
  pub is_reader : Bool
  pub is_writer : Bool
  pub is_connected : Bool

pub new_client : ℤ → ℤ → ClientSocket
new_client poller server_socket = record {
  poller = poller;
  server_socket = server_socket;
  client_fd = minus_one;
  is_reader = false;
  is_writer = false;
  is_connected = false;
}

-- The move constructor takes the poller and the server socket, and nothing else.
pub move_client : ClientSocket → ClientSocket
unfolding new_client
move_client source = new_client source.poller source.server_socket

-- The result of a transfer: nothing yet is 0, any other failure -1.
unfoldable pub transferred : Reply → ℤ
transferred r =
    if r.value == minus_one
    then elim r.errno [ again ↦ pos 0 | would_block ↦ pos 0 | other ↦ minus_one ]
    else r.value

module _ (os : Os) where
  -- safetyClose
  pub safety_close : ℤ → Sys ℤ
  safety_close fd t =
      let (s, t₁) = sys os (shutdown fd) t in
      let (c, t₂) = sys os (close fd) t₁ in
      if is_neg s.value then (minus_one, t₁) else (c.value, t₂)

  set_nodelay_step : ℤ → Sys ℤ
  unfolding safety_close
  set_nodelay_step fd t =
      let (n, t₁) = sys os (set_nodelay fd) t in
      if n.value == minus_one then safety_close fd t₁ else (fd, t₁)

  set_flags_step : ℤ → ℤ → Sys ℤ
  unfolding safety_close set_nodelay_step
  set_flags_step fd flags t =
      let (s, t₁) = sys os (set_flags fd (with_nonblock flags)) t in
      if s.value == minus_one then safety_close fd t₁ else set_nodelay_step fd t₁

  get_flags_step : ℤ → Sys ℤ
  unfolding safety_close set_flags_step
  get_flags_step fd t =
      let (f, t₁) = sys os (get_flags fd) t in
      if f.value == minus_one
      then safety_close fd t₁
      else if is_open f.value
      then set_flags_step fd f.value t₁
      else (minus_one, t₁)

  -- defaultAcception
  unfoldable pub default_acception : ℤ → Sys ℤ
  unfolding get_flags_step
  default_acception server t =
      let (a, t₁) = sys os (accept server) t in
      if is_neg a.value then (minus_one, t₁) else get_flags_step a.value t₁

  -- Methods change the object and make calls.
  abbrev pub Method : Type 0
  Method = ClientSocket → Trace → ℤ × ClientSocket × Trace

  pub set_reader : Method
  set_reader c t =
      let (r, t₁) = sys os (add_event c.poller c.client_fd reading) t in
      if c.is_reader
      then (pos 1, c, t)
      else if r.value == minus_one
      then (minus_one, c, t₁)
      else (pos 1, record c { is_reader = true }, t₁)

  pub remove_reader : Method
  remove_reader c t =
      let (r, t₁) = sys os (delete_event c.poller c.client_fd reading) t in
      if not c.is_reader
      then (pos 1, c, t)
      else if r.value == minus_one
      then (minus_one, c, t₁)
      else (pos 1, record c { is_reader = false }, t₁)

  pub set_writer : Method
  set_writer c t =
      let (r, t₁) = sys os (add_event c.poller c.client_fd writing) t in
      if c.is_writer
      then (pos 1, c, t)
      else if r.value == minus_one
      then (minus_one, c, t₁)
      else (pos 1, record c { is_writer = true }, t₁)

  unfoldable pub remove_writer : Method
  remove_writer c t =
      let (r, t₁) = sys os (delete_event c.poller c.client_fd writing) t in
      if not c.is_writer
      then (pos 1, c, t)
      else if r.value == minus_one
      then (minus_one, c, t₁)
      else (pos 1, record c { is_writer = false }, t₁)

  -- ClientSocket::read
  pub read : ℕ → Method
  unfolding transferred
  read size c t =
      let (status, c₁, t₁) = set_reader c t in
      let (r, t₂) = sys os (recv c₁.client_fd size) t₁ in
      if not c.is_connected || not c.is_reader
      then (minus_one, c, t)
      else if status == minus_one
      then (minus_one, c₁, t₁)
      else (transferred r, record c₁ { is_connected = true }, t₂)

  -- ClientSocket::write
  pub write : Bytes → Method
  unfolding transferred
  write buff c t =
      let (status, c₁, t₁) = set_writer c t in
      let (r, t₂) = sys os (send c₁.client_fd buff) t₁ in
      if not c.is_connected || not c.is_writer
      then (minus_one, c, t)
      else if status == minus_one
      then (minus_one, c₁, t₁)
      else (transferred r, c₁, t₂)

  -- `safetyClose(clientFD); return -1;`
  abandon : ℤ → ClientSocket → Trace → ℤ × ClientSocket × Trace
  abandon fd c t = (minus_one, c, (safety_close fd t).1)

  writer_registered : ℤ → ℤ × ClientSocket × Trace → ℤ × ClientSocket × Trace
  unfolding abandon
  writer_registered fd (writer, c, t) =
      if writer == minus_one then abandon fd c t else (fd, record c { is_connected = true }, t)

  reader_registered : ℤ → ℤ × ClientSocket × Trace → ℤ × ClientSocket × Trace
  unfolding abandon writer_registered
  reader_registered fd (reader, c, t) =
      if reader == minus_one then abandon fd c t else writer_registered fd (set_writer c t)

  -- What is done with the descriptor that `defaultAcception` returned.
  accepted : ClientSocket → ℤ × Trace → ℤ × ClientSocket × Trace
  unfolding reader_registered
  accepted c (fd, t) =
      if fd == minus_one
      then (minus_one, c, t)
      else reader_registered fd (set_reader (record c { is_connected = true; client_fd = fd }) t)

  -- ClientSocket::accept
  unfoldable pub accept_client : Method
  unfolding accepted
  accept_client c t = accepted c (default_acception c.server_socket t)

  -- `removeReader() < 0 || removeWriter() < 0`, of which only the effects matter.
  pub unregister : ClientSocket → Trace → ClientSocket × Trace
  unregister c t =
      let (reader, c₁, t₁) = remove_reader c t in
      let (writer, c₂, t₂) = remove_writer c₁ t₁ in if is_neg reader then (c₁, t₁) else (c₂, t₂)

  -- ClientSocket::close
  pub close_client : Method
  unfolding unregister
  close_client c t =
      let (c₁, t₁) = unregister c t in
      let (result, t₂) = safety_close c₁.client_fd t₁ in
      if not c.is_connected || is_neg c.client_fd
      then (pos 1, c, t)
      else (result, record c₁ { is_connected = false }, t₂)

  -- The destructor; what is left of the object is its trace.
  pub destroy_client : ClientSocket → Trace → Trace
  destroy_client c t = if c.is_connected then (close_client c t).2 else t
