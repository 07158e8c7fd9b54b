-- ===== src/Net/Poller/Kqueue/Resumed.antt =====
-- Socket/Poller/Helpers.hpp, where kqueue is: `reduceEvents` and `pollingHandler` on one event.
use mux.Prelude.{
  ℕ, suc, ◌≡◌, refl, inl, inr, Bool, false, Option, none, some, Bool-cases, ◌==◌, nat_eq, bytes_eq,
}
use mux.Prelude.Int.{ℤ, minus_one, int_eq, is_neg}
use mux.Net.System.{Filter, reading, writing, Trace, Os}
use mux.Net.Client.{ClientSocket, new_client, accept_client}
use mux.Net.Poller.{
  Handler, Server, Run, running, exited, faulted, and_then, close_socket, admit, accept_connection,
  look_up, call_handler,
}
use mux.Net.Poller.Kqueue.{Event, next, close_failed, client_event, handle_event}
use mux.Net.Poller.Kqueue.Reduce.{
  closed, handled, suspended, ended, after_accept, new_connection, call_by_filter, resume_reduce,
  drive, reduce_events,
}

and_then-cong :
    {A B : Type 0} (r : Run A) (f g : A → Server → Trace → Run B)
    → ((a : A) (s : Server) (t : Trace) → f a s t ≡ g a s t)
    → and_then r f ≡ and_then r g
unfolding and_then
and_then-cong (running a s t) f g h = h a s t
and_then-cong (exited t) f g h = refl
and_then-cong (faulted t) f g h = refl

and_then-and_then :
    {A B C : Type 0} (r : Run A) (f : A → Server → Trace → Run B) (g : B → Server → Trace → Run C)
    → and_then (and_then r f) g ≡ and_then r (λ a s t. and_then (f a s t) g)
unfolding and_then
and_then-and_then (running a s t) f g = refl
and_then-and_then (exited t) f g = refl
and_then-and_then (faulted t) f g = refl

-- What is left of an event after its handler.
module _ (os : Os) (handle_read handle_write : Handler) (client : ℤ) (filter : Option Filter) where
  drive-handled :
      (n : ℕ) (status : ℤ) (s : Server) (t : Trace)
      → drive os handle_read handle_write client filter
          (suc (suc n))
          (suspended (handled status))
          s
          t
        ≡ and_then (close_failed os client status s t) (λ _ s t. running ended s t)
  unfolding drive resume_reduce close_failed and_then
  drive-handled n status s t = elim (Bool-cases (is_neg status)) [
    | inl e ↦ rw e (and_then-close (close_socket os client s t))
    | inr e ↦ rw e refl
  ]
    where
      and_then-close :
          (r : Run Bool)
          → and_then
              (and_then r (λ _ s t. running (suspended closed) s t))
              (drive os handle_read handle_write client filter (suc n))
            ≡ and_then (and_then r (λ _ s t. running next s t)) (λ _ s t. running ended s t)
      and_then-close (running a s t) = refl
      and_then-close (exited t) = refl
      and_then-close (faulted t) = refl

  drive-called :
      (n : ℕ) (r : Run ℤ)
      → and_then
          (and_then r (λ status s t. running (suspended (handled status)) s t))
          (drive os handle_read handle_write client filter (suc (suc n)))
        ≡ and_then (and_then r (close_failed os client)) (λ _ s t. running ended s t)
  unfolding and_then
  drive-called n (running status s t) = drive-handled n status s t
  drive-called n (exited t) = refl
  drive-called n (faulted t) = refl

  drive-accepted :
      (n : ℕ) (accepted : ℤ × ClientSocket × Trace) (r : Run Unit)
      → and_then
          (and_then r (λ _ s t. running (after_accept accepted.0) s t))
          (drive os handle_read handle_write client filter (suc n))
        ≡ and_then (and_then r (λ _ s t. running next s t)) (λ _ s t. running ended s t)
  unfolding and_then after_accept drive resume_reduce
  drive-accepted n (fd, _, _) (running a s t) = elim (Bool-cases (fd == minus_one)) [
    | inl e ↦ rw e refl
    | inr e ↦ rw e refl
  ]
  drive-accepted n accepted (exited t) = refl
  drive-accepted n accepted (faulted t) = refl

-- An event with a filter of its own: three resumptions of the coroutine bring it to its end, and do
-- to the table of clients and to the system what one round of the loop of `pollingHandler` does.
-- The descriptor is not -1, which only that loop tests for.
pub reduce_events-handle_event :
    (os : Os) (handle_read handle_write : Handler) (e : Event) (f : Filter) (s : Server) (t : Trace)
    → e.filter ≡ some f
    → (e.ident == minus_one) ≡ false
    → reduce_events os handle_read handle_write e.ident e.filter 3 s t
      ≡ and_then (handle_event os handle_read handle_write e s t) (λ _ s t. running ended s t)
unfolding reduce_events drive resume_reduce new_connection handle_event accept_connection
    call_by_filter client_event and_then
reduce_events-handle_event os handle_read handle_write e f s t has valid =
    elim (Bool-cases (e.ident == s.socket)) [
      | inl same ↦ rw same (
          drive-accepted os handle_read handle_write e.ident e.filter 1
            (accept_client os (new_client s.poller s.socket) t)
            (admit os (accept_client os (new_client s.poller s.socket) t) s))
      | inr other ↦
          rw (other, valid) (by_filter e.filter has (look_up e.ident s).0 (look_up e.ident s).1)
    ]
  where
    by_filter :
        (g : Option Filter)
        → g ≡ some f
        → (p : Option ClientSocket) (s₁ : Server)
        → and_then
            (call_by_filter os handle_read handle_write e.ident e.filter g p s₁ t)
            (drive os handle_read handle_write e.ident e.filter 2)
          ≡ and_then
              (client_event os handle_read handle_write e g p s₁ t)
              (λ _ s t. running ended s t)
    by_filter none h p s₁ = cc
    by_filter (some reading) h p s₁ =
        drive-called os handle_read handle_write e.ident e.filter 0
          (call_handler handle_read e.ident p s₁ t)
    by_filter (some writing) h p s₁ =
        drive-called os handle_read handle_write e.ident e.filter 0
          (call_handler handle_write e.ident p s₁ t)
