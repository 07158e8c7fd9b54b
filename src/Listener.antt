-- ===== src/Listener.antt =====
-- mux/Listener.hpp: HttpMiddleware::start. It opens a socket and then accepts connections for ever;
-- each is served by a thread of its own. A run is a sequence of steps of the main thread and of the
-- others, in any order. The request handler is an opaque call, which returns or throws.
pub mod Accounts
pub mod Drained
mod Exits
mod Tests
use mux.Prelude.{
  ℕ, zero, suc, ◌+◌, ◌-◌, ◌*◌, ◌/◌, ◌%◌, ◌^◌, ◌≤◌, ◌<◌, ◌≡◌, refl, sym, ap, ◌∙◌, ◌≡⟨◌⟩◌, ◌∎, ◌≢◌,
  ◌↔◌, ◌⊎◌, inl, inr, Bool, true, false, not, ◌&&◌, ◌||◌, Option, none, some, List, [], ◌∷◌, ◌++◌,
  map, append_assoc, append-nil, arith, ltb, leb, nat_beq, nat_beq_iff, if◌then◌else◌, Bool-cases,
  Option-cases, eq-false_of_ne_true, length, take, drop, length-append, take-length,
  drop-length-append, All, All-append, HasEq, ◌==◌, nat_eq, bytes_eq, bytes_beq, bytes_beq_iff,
  eq_self, ne_of_beq,
}
use mux.Prelude.Int.{ℤ, pos, negsuc, minus_one, int_beq, int_beq_iff, int_eq, is_neg, is_pos}
use mux.Prelude.Map.{
  Map, find, contains, insert, erase, subscript, find-insert, find-erase, contains-find, map_laws,
}
use mux.Prelude.Bytes.{Bytes, codes, cr, lf, crlf, Lacks}
use mux.Prelude.Decimal.{
  print_nat, print_int, read_nat, IsDigit, read_nat-print_nat, print_nat-Lacks, print_int-Lacks,
}
use mux.Net.System.{Call, open_socket, bind_address, listen_on, Reply, Trace, Os, sys}

-- The lambda that a thread runs, by what it does next.
pub data Thread : Type 0 where
  receiving : (client : ℤ) → Thread
  handling : (client : ℤ) (request : Bytes) → Thread
  closing : (client : ℤ) → Thread

pub record Process : Type 0 where
  pub threads : List Thread
  -- an exception left the function of a thread, so that `std::terminate` ended the process
  pub terminated : Bool
  -- the requests that the handler returned from, and the descriptors that were closed, in order
  pub handled : List Bytes
  pub closed : List ℤ
  -- the connections accepted and the requests received, for the theorems only
  pub accepted : List ℤ
  pub received : List Bytes

pub data Step : Type 0 where
  -- `accept` returns this
  accepting : ℤ → Step
  -- a thread goes on; what `recv` gives it, empty if it returns 0 or -1
  going : ℕ → Bytes → Step
  -- the handler that a thread calls throws, which nothing catches
  throwing : ℕ → Step

-- `start` returned, or goes on to its loop with the listening socket.
pub data Start : Type 0 where
  returned : Start
  serving : ℤ → Start

pub start_listening : Os → Trace → Start × Trace
start_listening os t =
    let (s, t₁) = sys os open_socket t in
    let (b, t₂) = sys os (bind_address s.value) t₁ in
    let (_, t₃) = sys os (listen_on s.value 5) t₂ in
    if is_neg s.value
    then (returned, t₁)
    else if is_neg b.value
    then (returned, t₂)
    else (serving s.value, t₃)

pub idle : Process
idle = record {
  threads = [];
  terminated = false;
  handled = [];
  closed = [];
  accepted = [];
  received = [];
}

pub thread_at : ℕ → List Thread → Option Thread
thread_at i [] = none
thread_at zero (w ∷ ws) = some w
thread_at (suc i) (w ∷ ws) = thread_at i ws

pub replace : ℕ → Thread → List Thread → List Thread
replace i v [] = []
replace zero v (w ∷ ws) = v ∷ ws
replace (suc i) v (w ∷ ws) = w ∷ replace i v ws

-- A thread that has returned is gone.
pub remove : ℕ → List Thread → List Thread
remove i [] = []
remove zero (w ∷ ws) = ws
remove (suc i) (w ∷ ws) = w ∷ remove i ws

-- `if (clientSocket < 0) continue;`, or a new thread
accept_step : ℤ → Process → Process
accept_step client p =
    if is_neg client
    then p
    else record p { threads = p.threads ++ receiving client ∷ []; accepted = client ∷ p.accepted }

-- `recv` and the test of its result
recv_step : ℕ → ℤ → Bytes → Process → Process
unfolding replace
recv_step i client [] p = record p { threads = replace i (closing client) p.threads }
recv_step i client (c ∷ s) p = record p {
  threads = replace i (handling client (c ∷ s)) p.threads;
  received = (c ∷ s) ∷ p.received;
}

thread_step : ℕ → Option Thread → Bytes → Process → Option Process
unfolding recv_step remove replace
thread_step i none input p = none
thread_step i (some (receiving client)) input p = some (recv_step i client (take 1024 input) p)
thread_step i (some (handling client request)) input p =
    some
      (record p { threads = replace i (closing client) p.threads; handled = request ∷ p.handled })
thread_step i (some (closing client)) input p =
    some (record p { threads = remove i p.threads; closed = client ∷ p.closed })

throw_step : Option Thread → Process → Option Process
throw_step none p = none
throw_step (some (receiving client)) p = none
throw_step (some (handling client request)) p = some (record p { terminated = true })
throw_step (some (closing client)) p = none

live_step : Step → Process → Option Process
unfolding accept_step thread_step throw_step thread_at
live_step (accepting client) p = some (accept_step client p)
live_step (going i input) p = thread_step i (thread_at i p.threads) input p
live_step (throwing i) p = throw_step (thread_at i p.threads) p

-- A process that was terminated takes no step.
pub step : Step → Process → Option Process
unfolding live_step
step s p = if p.terminated then none else live_step s p

pub run : List Step → Process → Option Process
unfolding step
run [] p = some p
run (s ∷ steps) p = elim (step s p) [ none ↦ none | some q ↦ run steps q ]

-- `main` returns 0 once `start` has returned, which it does only where it cannot serve.
exit_code : Start → Option ℕ
exit_code returned = some 0
exit_code (serving server) = none

pub listener_main : Os → Trace → Option ℕ × Trace
unfolding exit_code start_listening
listener_main os t = let (s, t₁) = start_listening os t in (exit_code s, t₁)
