-- ===== src/Net/Poller/Kqueue/Preserves.antt =====
-- Socket/Poller/Helpers.hpp, where kqueue is: what the parts of `pollingHandler` keep of the server
-- and the calls made, the whole handler keeps.
use mux.Prelude.{
  ◌≡◌, refl, inl, inr, Bool, true, false, ◌||◌, Option, none, some, List, [], ◌∷◌, Bool-cases,
  Option-cases, ◌==◌, nat_eq, bytes_eq, eq_self, ne_of_beq, ◌≢◌, All,
}
use mux.Prelude.Int.{ℤ, minus_one, int_eq, is_neg}
use mux.Prelude.Map.{find, subscript, find-insert}
use mux.Net.System.{Filter, reading, writing, Trace, Os}
use mux.Net.Client.{ClientSocket}
use mux.Net.Poller.{
  Handler, Server, Run, running, exited, faulted, and_then, close_socket, accept_connection,
  look_up, call_handler,
}
use mux.Net.Poller.Kqueue.{
  Event, Flow, next, finished, close_failed, end_batch, other_event, client_event, handle_event,
  continue, handle_events,
}

-- `P` holds where a computation goes on, and `E` if it exits.
unfoldable pub Holds : {A : Type 0} → (Server → Trace → Type 0) → Type 0 → Run A → Type 0
Holds P E (running a s t) = P s t
Holds P E (exited t) = E
Holds P E (faulted t) = Unit {0}

pub and_then-Holds :
    {A B : Type 0} (P : Server → Trace → Type 0) (E : Type 0) (r : Run A)
    (f : A → Server → Trace → Run B)
    → Holds P E r
    → ((a : A) (s : Server) (t : Trace) → P s t → Holds P E (f a s t))
    → Holds P E (and_then r f)
unfolding and_then Holds
and_then-Holds P E (running a s t) f h k = k a s t h
and_then-Holds P E (exited t) f h k = h
and_then-Holds P E (faulted t) f h k = tt

-- The pointer that a look-up returns stands in the table behind it.
look_up-found : (fd : ℤ) (s : Server) → find fd (look_up fd s).1.clients ≡ some (look_up fd s).0
unfolding look_up subscript
look_up-found fd s = elim (Option-cases (find fd s.clients)) [
  | inl e ↦ rw (e, look_up, subscript, find-insert fd fd none s.clients, eq_self fd) refl
  | inr e ↦ rw (e.1, look_up, subscript) (e.1)
]

module _ (os : Os) (handle_read handle_write : Handler) (P : Server → Trace → Type 0) (E : Type 0)
    (Q : ℤ → Type 0)
    (looks : (fd : ℤ) (s : Server) (t : Trace) → Q fd → P s t → P (look_up fd s).1 t)
    (reads : (fd : ℤ) (p : Option ClientSocket) (s : Server) (t : Trace)
      → find fd s.clients ≡ some p
      → P s t
      → Holds P E (call_handler handle_read fd p s t))
    (writes : (fd : ℤ) (p : Option ClientSocket) (s : Server) (t : Trace)
      → find fd s.clients ≡ some p
      → P s t
      → Holds P E (call_handler handle_write fd p s t))
    (closes : (fd : ℤ) (s : Server) (t : Trace) → P s t → Holds P E (close_socket os fd s t))
    (accepts : (s : Server) (t : Trace) → P s t → Holds P E (accept_connection os s t)) where
  close_failed-Holds :
      (fd status : ℤ) (s : Server) (t : Trace) → P s t → Holds P E (close_failed os fd status s t)
  unfolding close_failed Holds
  close_failed-Holds fd status s t m = elim (Bool-cases (is_neg status)) [
    | inl e ↦ rw e (and_then-Holds P E _ _ (closes fd s t m) (λ _ s t m. m))
    | inr e ↦ rw e m
  ]

  end_batch-Holds :
      (closed : Bool) (s : Server) (t : Trace) → P s t → Holds P E (end_batch os closed s t)
  unfolding end_batch Holds
  end_batch-Holds false s t m = m
  end_batch-Holds true s t m = and_then-Holds P E _ _ (closes minus_one s t m) (λ _ s t m. m)

  other_event-Holds :
      (e : Event) (s : Server) (t : Trace) → P s t → Holds P E (other_event os e s t)
  unfolding other_event Holds
  other_event-Holds e s t m = elim (Bool-cases (e.is_eof || e.is_error)) [
    | inr n ↦ rw n m
    | inl y ↦ elim (Bool-cases (e.ident == s.socket)) [
      | inl z ↦ rw (y, z) (end_batch-Holds true s t m)
      | inr z ↦ rw (y, z) (and_then-Holds P E _ _ (closes e.ident s t m) end_batch-Holds)
    ]
  ]

  client_event-Holds :
      (e : Event) (filter : Option Filter) (p : Option ClientSocket) (s : Server) (t : Trace)
      → find e.ident s.clients ≡ some p
      → P s t
      → Holds P E (client_event os handle_read handle_write e filter p s t)
  unfolding client_event
  client_event-Holds e (some reading) p s t f m =
      and_then-Holds P E _ _ (reads e.ident p s t f m) (close_failed-Holds e.ident)
  client_event-Holds e (some writing) p s t f m =
      and_then-Holds P E _ _ (writes e.ident p s t f m) (close_failed-Holds e.ident)
  client_event-Holds e none p s t f m = other_event-Holds e s t m

  handle_event-Holds :
      (e : Event) (s : Server) (t : Trace)
      → (e.ident ≢ minus_one → Q e.ident)
      → P s t
      → Holds P E (handle_event os handle_read handle_write e s t)
  unfolding handle_event Holds
  handle_event-Holds e s t q m = elim (Bool-cases (e.ident == s.socket)) [
    | inl y ↦ rw y (and_then-Holds P E _ _ (accepts s t m) (λ _ s t m. m))
    | inr y ↦ elim (Bool-cases (e.ident == minus_one)) [
      | inl z ↦ rw (y, z) m
      | inr z ↦
          rw (y, z)
            (client_event-Holds e e.filter _ _ t (look_up-found e.ident s)
              (looks e.ident s t (q (ne_of_beq z)) m))
    ]
  ]

  continue-Holds :
      (rest : Server → Trace → Run Unit)
      → ((s : Server) (t : Trace) → P s t → Holds P E (rest s t))
      → (flow : Flow) (s : Server) (t : Trace) → P s t
      → Holds P E (continue os handle_read handle_write rest flow s t)
  unfolding continue Holds
  continue-Holds rest k next s t m = k s t m
  continue-Holds rest k finished s t m = m

  pub handle_events-Holds :
      (events : List Event) (s : Server) (t : Trace)
      → All (λ e. e.ident ≢ minus_one → Q e.ident) events
      → P s t
      → Holds P E (handle_events os handle_read handle_write events s t)
  unfolding handle_events Holds
  handle_events-Holds [] s t q m = m
  handle_events-Holds (e ∷ rest) s t q m = and_then-Holds P E _ _ (handle_event-Holds e s t q.0 m) (
      continue-Holds (handle_events os handle_read handle_write rest)
        (λ s t m. handle_events-Holds rest s t q.1 m))
