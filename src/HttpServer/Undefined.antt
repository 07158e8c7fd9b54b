-- ===== src/HttpServer/Undefined.antt =====
-- mux/HTTP.hpp: what the undefined behaviour of a coroutine handle without a coroutine means for
-- the server.
use mux.Prelude.{
  ◌≡◌, inl, inr, Bool, true, false, not, ◌&&◌, ◌||◌, Option, none, some, List, [], ◌∷◌, Bool-cases,
  ◌==◌, nat_eq, bytes_eq,
}
use mux.Prelude.Int.{ℤ, int_eq, is_neg}
use mux.Prelude.Bytes.{Bytes}
use mux.Net.System.{reading, create_poller, add_event, epoll_add, read_from, Trace, Os, sys}
use mux.HttpServer.{
  Outcome, finished, thrown, undefined, and_then, HttpSocket, Event, handle_connection,
  read_request, unwind, client_event, accept_kqueue, accept_epoll, handle_event, handle_events,
  poll_loop, close_both, resume_kqueue, resume_epoll,
}

-- Does not return: it has thrown, or its behaviour is undefined.
abbrev pub IsBroken : {A : Type 0} → Outcome A → Type 0
IsBroken (finished a t) = ⊥
IsBroken (thrown t) = Unit
IsBroken (undefined t) = Unit

module _ {A B : Type 0} where
  then_first : (r : Outcome A) (f : A → Trace → Outcome B) → IsBroken r → IsBroken (and_then r f)
  unfolding and_then
  then_first (finished a t) f h = elim h [ ]
  then_first (thrown t) f h = tt
  then_first (undefined t) f h = tt

  then_second :
      (r : Outcome A) (f : A → Trace → Outcome B)
      → ((a : A) (t : Trace) → IsBroken (f a t))
      → IsBroken (and_then r f)
  unfolding and_then
  then_second (finished a t) f h = h a t
  then_second (thrown t) f h = tt
  then_second (undefined t) f h = tt

-- A batch that holds an event for a client with something to read.
unfoldable pub has_client : HttpSocket → List Event → Bool
has_client h [] = false
has_client h (e ∷ rest) = (e.is_readable && not (e.ident == h.server_socket)) || has_client h rest

-- Such a batch comes before a wait fails.
unfoldable pub reaches_client : HttpSocket → List (Option (List Event)) → Bool
unfolding has_client
reaches_client h [] = false
reaches_client h (none ∷ rest) = false
reaches_client h (some events ∷ rest) = has_client h events || reaches_client h rest

module _ (os : Os) (content : Trace → Bytes) where
  handle_connection-IsBroken :
      (fd : ℤ) (t : Trace) → IsBroken (handle_connection os undefined content fd t)
  unfolding handle_connection and_then read_request unwind
  handle_connection-IsBroken fd t = elim (Bool-cases (is_neg (os t (read_from fd 1023)).value)) [
    | inl e ↦ rw e tt
    | inr e ↦ rw e tt
  ]

  module _ (new_connection : HttpSocket → Trace → Outcome Unit) (h : HttpSocket) where
    handle_event-IsBroken :
        (e : Event) (t : Trace)
        → (e.is_readable && not (e.ident == h.server_socket)) ≡ true
        → IsBroken (handle_event os undefined content new_connection h e t)
    unfolding handle_event client_event
    handle_event-IsBroken e t c = elim (Bool-cases e.is_readable) [
      | inr y ↦ elim (clash (rw y at c)) [ ]
      | inl y ↦ elim (Bool-cases (e.ident == h.server_socket)) [
        | inl z ↦ elim (clash (rw (y, z) at c)) [ ]
        | inr z ↦ rw (y, z) (then_first _ _ (handle_connection-IsBroken e.ident t))
      ]
    ]
      where
        clash : false ≡ true → ⊥
        clash c = cc

    handle_events-IsBroken :
        (events : List Event) (t : Trace)
        → has_client h events ≡ true
        → IsBroken (handle_events os undefined content new_connection h events t)
    unfolding handle_events has_client
    handle_events-IsBroken [] t c = cc
    handle_events-IsBroken (e ∷ rest) t c =
        elim (Bool-cases (e.is_readable && not (e.ident == h.server_socket))) [
          | inl y ↦ then_first _ _ (handle_event-IsBroken e t y)
          | inr y ↦ then_second _ _ (λ _ t. handle_events-IsBroken rest t (rw y at c))
        ]

    poll_loop-IsBroken :
        (waits : List (Option (List Event))) (t : Trace)
        → reaches_client h waits ≡ true
        → IsBroken (poll_loop os undefined content new_connection h waits t)
    unfolding poll_loop reaches_client
    poll_loop-IsBroken [] t c = cc
    poll_loop-IsBroken (none ∷ rest) t c = cc
    poll_loop-IsBroken (some events ∷ rest) t c = elim (Bool-cases (has_client h events)) [
      | inl y ↦ then_first _ _ (handle_events-IsBroken events t y)
      | inr y ↦ then_second _ _ (λ _ t. poll_loop-IsBroken rest t (rw y at c))
    ]

    resumed-IsBroken :
        (poller : ℤ) (waits : List (Option (List Event))) (t : Trace)
        → reaches_client h waits ≡ true
        → IsBroken (
            and_then
              (poll_loop os undefined content new_connection h waits t)
              (close_both os undefined content new_connection h poller))
    resumed-IsBroken poller waits t c =
        then_first (poll_loop os undefined content new_connection h waits t)
          (close_both os undefined content new_connection h poller) (poll_loop-IsBroken waits t c)

  -- With kqueue and with epoll, `handleAndResumeConnections` never returns once a client has sent
  -- something, whatever the batches held before: the read throws, or what follows it is undefined,
  -- since it destroys a coroutine handle that has no coroutine.
  pub resume-IsBroken :
      (h : HttpSocket) (waits : List (Option (List Event))) (t : Trace)
      → reaches_client h waits ≡ true
      → IsBroken (resume_kqueue os undefined content h waits t)
        × IsBroken (resume_epoll os undefined content h waits t)
  unfolding resume_kqueue resume_epoll
  resume-IsBroken h waits t c =
      let (k, t₁) = sys os create_poller t in
      (
        resumed-IsBroken (accept_kqueue os undefined content k.value) h k.value waits
            (sys os (add_event k.value h.server_socket reading) t₁).1 c,
        resumed-IsBroken (accept_epoll os undefined content k.value) h k.value waits
            (sys os (epoll_add k.value h.server_socket reading) t₁).1 c,
      )
