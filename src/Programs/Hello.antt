-- ===== src/Programs/Hello.antt =====
-- src/kqueue.cc: the read and write handlers of the program that answers every client with the same
-- text, and its loop over calls of `pollingHandler`.
pub mod Table
pub mod Answers
pub mod Accounts
mod Tests
use mux.Prelude.{
  ℕ, zero, suc, ◌+◌, ◌-◌, ◌*◌, ◌/◌, ◌%◌, ◌^◌, ◌≤◌, ◌<◌, ◌≡◌, refl, sym, ap, ◌∙◌, ◌≡⟨◌⟩◌, ◌∎, ◌≢◌,
  ◌↔◌, ◌⊎◌, inl, inr, Bool, true, false, not, ◌&&◌, ◌||◌, Option, none, some, List, [], ◌∷◌, ◌++◌,
  map, append_assoc, append-nil, arith, ltb, leb, nat_beq, nat_beq_iff, if◌then◌else◌, Bool-cases,
  Option-cases, eq-false_of_ne_true, length, take, drop, length-append, take-length,
  drop-length-append, All, All-append, HasEq, ◌==◌, nat_eq, bytes_eq, bytes_beq, bytes_beq_iff,
  eq_self, ne_of_beq,
}
use mux.Prelude.Int.{ℤ, pos, negsuc, minus_one, int_beq, int_beq_iff, int_eq, is_neg, is_pos}
use mux.Prelude.Map.{
  Map, find, contains, insert, erase, subscript, find-insert, find-erase, contains-find, map_laws,
}
use mux.Prelude.Bytes.{Bytes, codes, cr, lf, crlf, Lacks}
use mux.Prelude.Decimal.{
  print_nat, print_int, read_nat, IsDigit, read_nat-print_nat, print_nat-Lacks, print_int-Lacks,
}
use mux.Net.System.{
  Filter, reading, writing, Trace, Os, Call, Reply, Errno, again, would_block, other,
}
use mux.Net.Client.{ClientSocket, read, write, transferred}
use mux.Net.Setup.{Metadata, construct}
use mux.Net.Poller.{Handler, Server, Run, running, and_then}
use mux.Net.Poller.Kqueue.{Event, polling_handler}

-- `config.default_buffer_size`
abbrev buffer_size : ℕ
buffer_size = 4096

pub hello_response : Bytes
hello_response =
    codes "HTTP/1.1 200 OK"
    ++ (crlf
        ++ (codes "Content-Type: text/plain"
            ++ (crlf ++ (codes "Content-Length: 12" ++ (crlf ++ (crlf ++ codes "Hello World!"))))))

-- `errno`, as the last call left it
pub last_errno : Trace → Errno
last_errno [] = other
last_errno ((call, r) ∷ t) = r.errno

pub may_retry : Errno → Bool
may_retry again = true
may_retry would_block = true
may_retry other = false

-- The second lambda, which does not look at its client.
pub on_writable : Handler
on_writable = record { on_client = λ c t. (pos 1, c, t); on_null = λ t. some (pos 1, t) }

module _ (os : Os) where
  -- `if (client->write(response) < 0) return -1; return 1;`
  respond : ClientSocket → Trace → ℤ × ClientSocket × Trace
  respond c t =
      let (n, c₁, t₁) = write os hello_response c t in
      if is_neg n then (minus_one, c₁, t₁) else (pos 1, c₁, t₁)

  -- What follows `client->read`.
  received : ℤ × ClientSocket × Trace → ℤ × ClientSocket × Trace
  unfolding respond
  received (n, c, t) =
      if is_pos n
      then respond c t
      else if n == pos 0
      then (minus_one, c, t)
      else if may_retry (last_errno t)
      then respond c t
      else (minus_one, c, t)

  -- The first lambda of `main`. It follows the pointer that it is given.
  pub on_readable : Handler
  unfolding received
  on_readable = record {
    on_client = λ c t. received (read os (buffer_size - 1) c t);
    on_null = λ t. none;
  }

  -- `while (true) serverSocket.handler(…)`, over the batches that the poller reports.
  pub serve : List (Option (List Event)) → Server → Trace → Run Unit
  unfolding on_readable on_writable
  serve [] s t = running tt s t
  serve (batch ∷ rest) s t =
      and_then (polling_handler os on_readable on_writable batch s t) (λ _ s t. serve rest s t)

  -- `main`: it serves whether or not the constructor of its SocketBase reached its end. Where that
  -- stopped before it made a poller, `poller_ni_` holds `indeterminate`.
  pub hello_main : Metadata → ℤ → List (Option (List Event)) → Trace → Run Unit
  unfolding serve
  hello_main config indeterminate batches t =
      let (_, base, t₁) = construct os config t in
      let poller : ℤ = elim base.poller [ none ↦ indeterminate | some p ↦ p ] in
      serve batches (record { socket = base.socket; poller = poller; clients = [] }) t₁
