-- ===== src/Programs/Echo.antt =====
-- src/Socket.cc: a server in one function, over a kqueue. The events that a wait reports are
-- arguments.
pub mod Closes
mod Tests
use mux.Prelude.{
  ℕ, zero, suc, ◌+◌, ◌-◌, ◌*◌, ◌/◌, ◌%◌, ◌^◌, ◌≤◌, ◌<◌, ◌≡◌, refl, sym, ap, ◌∙◌, ◌≡⟨◌⟩◌, ◌∎, ◌≢◌,
  ◌↔◌, ◌⊎◌, inl, inr, Bool, true, false, not, ◌&&◌, ◌||◌, Option, none, some, List, [], ◌∷◌, ◌++◌,
  map, append_assoc, append-nil, arith, ltb, leb, nat_beq, nat_beq_iff, if◌then◌else◌, Bool-cases,
  Option-cases, eq-false_of_ne_true, length, take, drop, length-append, take-length,
  drop-length-append, All, All-append, HasEq, ◌==◌, nat_eq, bytes_eq, bytes_beq, bytes_beq_iff,
  eq_self, ne_of_beq,
}
use mux.Prelude.Int.{ℤ, pos, negsuc, minus_one, int_beq, int_beq_iff, int_eq, is_neg, is_pos}
use mux.Prelude.Map.{
  Map, find, contains, insert, erase, subscript, find-insert, find-erase, contains-find, map_laws,
}
use mux.Prelude.Bytes.{Bytes, codes, cr, lf, crlf, Lacks}
use mux.Prelude.Decimal.{
  print_nat, print_int, read_nat, IsDigit, read_nat-print_nat, print_nat-Lacks, print_int-Lacks,
}
use mux.Net.System.{
  reading, Call, accept, close, recv, send, open_socket, set_reuse, bind_address, listen_on,
  create_poller, add_event, add_beyond, Reply, Trace, Os, Sys, sys,
}

-- Response200, whose length is never filled in
pub response_200 : Bytes
response_200 =
    codes "HTTP/1.1 200 OK"
    ++ (crlf ++ (codes "Content-Type: text/plain" ++ (crlf ++ codes "Content-Length: ")))

pub record Echo : Type 0 where
  pub server_fd : ℤ
  pub kq : ℤ
  pub client_fds : List ℤ

-- `std::remove`
erase_fd : ℤ → List ℤ → List ℤ
erase_fd fd [] = []
erase_fd fd (x ∷ xs) = let rest = erase_fd fd xs in if x == fd then rest else x ∷ rest

module _ (os : Os) where
  close_fd : ℤ → Trace → Trace
  close_fd fd t = (sys os (close fd) t).1

  -- `main` up to its loop, from the last step to the first; none is `return 1`.
  register_server : ℤ → ℤ → Trace → Option Echo × Trace
  unfolding close_fd
  register_server fd kq t =
      let (r, t₁) = sys os (add_event kq fd reading) t in
      if r.value == minus_one
      then (none, close_fd fd (close_fd kq t₁))
      else (some (record { server_fd = fd; kq = kq; client_fds = [] }), t₁)

  make_kqueue : ℤ → Trace → Option Echo × Trace
  unfolding close_fd register_server
  make_kqueue fd t =
      let (k, t₁) = sys os create_poller t in
      if k.value == minus_one then (none, close_fd fd t₁) else register_server fd k.value t₁

  listen_server : ℤ → Trace → Option Echo × Trace
  unfolding close_fd make_kqueue
  listen_server fd t =
      let (l, t₁) = sys os (listen_on fd 5) t in
      if l.value == minus_one then (none, close_fd fd t₁) else make_kqueue fd t₁

  bind_server : ℤ → Trace → Option Echo × Trace
  unfolding close_fd listen_server
  bind_server fd t =
      let (b, t₁) = sys os (bind_address fd) (sys os (set_reuse fd 1) t).1 in
      if b.value == minus_one then (none, close_fd fd t₁) else listen_server fd t₁

  pub open_echo : Trace → Option Echo × Trace
  unfolding bind_server
  open_echo t =
      let (s, t₁) = sys os open_socket t in
      if s.value == minus_one then (none, t₁) else bind_server s.value t₁

  -- `fd == serverFd`. The second change is read from behind `change`, and none is for the client.
  accept_echo : Echo → Trace → Echo × Trace
  unfolding close_fd
  accept_echo e t =
      let (a, t₁) = sys os (accept e.server_fd) t in
      let (k, t₂) = sys os (add_beyond e.kq) t₁ in
      if a.value == minus_one
      then (e, t₁)
      else if k.value == minus_one
      then (e, close_fd a.value t₂)
      else (record e { client_fds = e.client_fds ++ a.value ∷ [] }, t₂)

  -- Data from a client: it is answered, and closed if it has ended or failed.
  answer_client : ℤ → Echo → Trace → Echo × Trace
  unfolding close_fd erase_fd
  answer_client fd e t =
      let (r, t₁) = sys os (recv fd 1024) t in
      let (_, t₂) = sys os (send fd response_200) t₁ in
      let gone = record e { client_fds = erase_fd fd e.client_fds } in
      if is_pos r.value
      then (e, t₂)
      else if r.value == pos 0
      then (gone, close_fd fd t₂)
      else (gone, close_fd fd t₁)

  pub echo_event : ℤ → Echo → Trace → Echo × Trace
  unfolding accept_echo answer_client
  echo_event fd e t = if fd == e.server_fd then accept_echo e t else answer_client fd e t

  -- The events of one wait, and the loop over the waits; a wait that fails reports none.
  pub echo_events : List ℤ → Echo → Trace → Echo × Trace
  unfolding echo_event
  echo_events [] e t = (e, t)
  echo_events (fd ∷ rest) e t = let (e₁, t₁) = echo_event fd e t in echo_events rest e₁ t₁

  pub echo_loop : List (List ℤ) → Echo → Trace → Echo × Trace
  unfolding echo_events
  echo_loop [] e t = (e, t)
  echo_loop (batch ∷ rest) e t = let (e₁, t₁) = echo_events batch e t in echo_loop rest e₁ t₁
