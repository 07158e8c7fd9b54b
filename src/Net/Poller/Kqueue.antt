-- ===== src/Net/Poller/Kqueue.antt =====
-- Socket/Poller/Helpers.hpp, where kqueue is: `pollingHandler` over the events that one call of
-- `kevent` filled in, or none if that call failed.
pub mod Table
pub mod Safety
pub mod Sources
pub mod Stale
pub mod Reduce
pub mod Resumed
pub mod Hashes
pub mod Preserves
pub mod Held
pub mod Balance
mod Tests
use mux.Prelude.{
  ℕ, zero, suc, ◌+◌, ◌-◌, ◌*◌, ◌/◌, ◌%◌, ◌^◌, ◌≤◌, ◌<◌, ◌≡◌, refl, sym, ap, ◌∙◌, ◌≡⟨◌⟩◌, ◌∎, ◌≢◌,
  ◌↔◌, ◌⊎◌, inl, inr, Bool, true, false, not, ◌&&◌, ◌||◌, Option, none, some, List, [], ◌∷◌, ◌++◌,
  map, append_assoc, append-nil, arith, ltb, leb, nat_beq, nat_beq_iff, if◌then◌else◌, Bool-cases,
  Option-cases, eq-false_of_ne_true, length, take, drop, length-append, take-length,
  drop-length-append, All, All-append, HasEq, ◌==◌, nat_eq, bytes_eq, bytes_beq, bytes_beq_iff,
  eq_self, ne_of_beq,
}
use mux.Prelude.Int.{ℤ, pos, negsuc, minus_one, int_beq, int_beq_iff, int_eq, is_neg, is_pos}
use mux.Prelude.Map.{
  Map, find, contains, insert, erase, subscript, find-insert, find-erase, contains-find, map_laws,
}
use mux.Prelude.Bytes.{Bytes, codes, cr, lf, crlf, Lacks}
use mux.Prelude.Decimal.{
  print_nat, print_int, read_nat, IsDigit, read_nat-print_nat, print_nat-Lacks, print_int-Lacks,
}
use mux.Net.System.{Filter, reading, writing, Trace, Os, Call, Reply}
use mux.Net.Client.{
  ClientSocket, new_client, accept_client, close_client, destroy_client, set_writer, remove_writer,
}
use mux.Net.Poller.{
  Handler, Clients, Server, Run, running, exited, faulted, and_then, destroy_all, close_entry,
  close_found, close_socket, release, admit, accept_connection, look_up, call_handler,
}

pub record Event : Type 0 where
  pub ident : ℤ
  -- none for a filter that is neither EVFILT_READ nor EVFILT_WRITE
  pub filter : Option Filter
  pub is_eof : Bool
  pub is_error : Bool

-- `continue` or `return`
pub data Flow : Type 0 where
  next finished : Flow

module _ (os : Os) where
  -- `if (status < 0) closeSocket(fd);`
  pub close_failed : ℤ → ℤ → Server → Trace → Run Flow
  unfolding and_then
  close_failed fd status s t =
      if is_neg status
      then and_then (close_socket os fd s t) (λ closed s t. running next s t)
      else running next s t

  -- `closeSocket(-1); return;`, unless the descriptor could not be closed
  end_batch : Bool → Server → Trace → Run Flow
  unfolding and_then
  end_batch closed s t =
      if closed
      then and_then (close_socket os minus_one s t) (λ closed s t. running finished s t)
      else running next s t

  pub other_event : Event → Server → Trace → Run Flow
  unfolding and_then end_batch
  other_event e s t =
      if e.is_eof || e.is_error
      then and_then
          (if not (e.ident == s.socket) then close_socket os e.ident s t else running true s t)
          end_batch
      else running next s t

  module _ (handle_read handle_write : Handler) where
    pub client_event : Event → Option Filter → Option ClientSocket → Server → Trace → Run Flow
    unfolding and_then call_handler close_failed other_event
    client_event e (some reading) p s t =
        and_then (call_handler handle_read e.ident p s t) (close_failed e.ident)
    client_event e (some writing) p s t =
        and_then (call_handler handle_write e.ident p s t) (close_failed e.ident)
    client_event e none p s t = other_event e s t

    pub handle_event : Event → Server → Trace → Run Flow
    unfolding and_then client_event
    handle_event e s t =
        let (p, s₁) = look_up e.ident s in
        if e.ident == s.socket
        then and_then (accept_connection os s t) (λ _ s t. running next s t)
        else if e.ident == minus_one
        then running next s t
        else client_event e e.filter p s₁ t

    continue : (Server → Trace → Run Unit) → Flow → Server → Trace → Run Unit
    continue rest next s t = rest s t
    continue rest finished s t = running tt s t

    pub handle_events : List Event → Server → Trace → Run Unit
    unfolding and_then handle_event continue
    handle_events [] s t = running tt s t
    handle_events (e ∷ rest) s t = and_then (handle_event e s t) (continue (handle_events rest))

    pub polling_handler : Option (List Event) → Server → Trace → Run Unit
    unfolding handle_events
    polling_handler none s t = running tt s t
    polling_handler (some events) s t = handle_events events s t
