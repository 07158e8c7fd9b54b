-- ===== src/HttpServer/Closing.antt =====
-- mux/HTTP.hpp: how often a descriptor is closed.
use mux.Prelude.{
  ℕ, ◌+◌, ◌≡◌, refl, sym, ◌≢◌, ◌⊎◌, inl, inr, Bool, true, false, not, ◌&&◌, Option, none, some,
  List, [], ◌∷◌, arith, if◌then◌else◌, Bool-cases, eq-false_of_ne_true, ◌==◌, nat_eq, bytes_eq,
  eq_self,
}
use mux.Prelude.Int.{ℤ, int_beq_iff, int_eq, is_neg, is_pos}
use mux.Prelude.Bytes.{Bytes, codes}
use mux.Net.System.{accept, close, send, create_poller, read_from, Trace, Os, sys}
use mux.Http.Page.{create_http_response}
use mux.HttpServer.{
  Outcome, finished, thrown, undefined, and_then, HttpSocket, Event, close_server_socket,
  close_client_socket, respond, handle_connection, read_request, unwind, client_event,
  accept_kqueue, accept_epoll, handle_event, handle_events, poll_loop, close_both, resume_kqueue,
  resume_epoll,
}
use mux.Net.Setup.Release.{closes}
use mux.HttpServer.Undefined.{has_client, reaches_client}

-- `destroy` does nothing.
abbrev pub harmless : Trace → Outcome Unit
harmless t = finished tt t

-- Even if the destroyed handles did no harm, a client that is read from would be closed twice if it
-- has sent something, and three times if it has sent nothing: by `handleConnection`, by the
-- destructor of the reader, and by the loop.
pub client_event-closes :
    (os : Os) (content : Trace → Bytes) (fd : ℤ) (t : Trace)
    → let n = (os t (read_from fd 1023)).value in
      is_neg n ≡ false
      → (after : Trace) × (client_event os harmless content fd t ≡ finished tt after)
        × (closes fd after ≡ closes fd t + (if is_pos n then 2 else 3))
unfolding client_event handle_connection read_request unwind respond close_client_socket and_then
    closes
client_event-closes os content fd t h =
    let t₁ = (sys os (read_from fd 1023) t).1 in
    let sent = (sys os (send fd (create_http_response (content t₁) (codes "text/plain"))) t₁).1 in
    let twice = λ (t : Trace). close_client_socket os fd (close_client_socket os fd t) in
    elim (Bool-cases (is_pos (os t (read_from fd 1023)).value)) [
      | inl e ↦ (twice sent, rw (h, e) refl, rw (e, eq_self fd) (omega arith))
      | inr e ↦
          (close_client_socket os fd (twice t₁), rw (h, e) refl, rw (e, eq_self fd) (omega arith))
    ]

abbrev Quiet : {A : Type 0} → ℤ → ℕ → Outcome A → Type 0
Quiet fd n (finished a t) = closes fd t ≡ n
Quiet fd n (thrown t) = Unit
Quiet fd n (undefined t) = Unit

Quiet-then :
    {A B : Type 0} (fd : ℤ) (n : ℕ) (r : Outcome A) (f : A → Trace → Outcome B)
    → Quiet fd n r
    → ((a : A) (t : Trace) → closes fd t ≡ n → Quiet fd n (f a t))
    → Quiet fd n (and_then r f)
unfolding and_then
Quiet-then fd n (finished a t) f q k = k a t q
Quiet-then fd n (thrown t) f q k = tt
Quiet-then fd n (undefined t) f q k = tt

module _ (os : Os) (destroy : Trace → Outcome Unit) (content : Trace → Bytes) (fd : ℤ) (n : ℕ) where
  accept_kqueue-Quiet :
      (poller : ℤ) (h : HttpSocket) (t : Trace)
      → closes fd t ≡ n
      → Quiet fd n (accept_kqueue os destroy content poller h t)
  unfolding accept_kqueue closes
  accept_kqueue-Quiet poller h t q = q

  accept_epoll-Quiet :
      (poller : ℤ) (h : HttpSocket) (t : Trace)
      → closes fd t ≡ n
      → Quiet fd n (accept_epoll os destroy content poller h t)
  unfolding accept_epoll closes
  accept_epoll-Quiet poller h t q =
      elim (Bool-cases (is_neg (os t (accept h.server_socket)).value)) [
        | inl e ↦ rw e q
        | inr e ↦ rw e q
      ]

  module _ (new_connection : HttpSocket → Trace → Outcome Unit) (h : HttpSocket)
      (accepts : (t : Trace) → closes fd t ≡ n → Quiet fd n (new_connection h t)) where
    handle_event-Quiet :
        (e : Event) (t : Trace)
        → (e.is_readable && not (e.ident == h.server_socket)) ≡ false
        → closes fd t ≡ n
        → Quiet fd n (handle_event os destroy content new_connection h e t)
    unfolding handle_event
    handle_event-Quiet e t c q = elim (Bool-cases e.is_readable) [
      | inr y ↦ rw y q
      | inl y ↦ elim (Bool-cases (e.ident == h.server_socket)) [
        | inl z ↦ rw (y, z) (accepts t q)
        | inr z ↦ elim (clash (rw (y, z) at c)) [ ]
      ]
    ]
      where
        clash : true ≡ false → ⊥
        clash c = cc

    handle_events-Quiet :
        (events : List Event) (t : Trace)
        → has_client h events ≡ false
        → closes fd t ≡ n
        → Quiet fd n (handle_events os destroy content new_connection h events t)
    unfolding handle_events has_client
    handle_events-Quiet [] t c q = q
    handle_events-Quiet (e ∷ rest) t c q =
        elim (Bool-cases (e.is_readable && not (e.ident == h.server_socket))) [
          | inl y ↦ elim (clash (rw y at c)) [ ]
          | inr y ↦
              Quiet-then fd n _ _ (handle_event-Quiet e t y q)
                (λ _ t q. handle_events-Quiet rest t (rw y at c) q)
        ]
      where
        clash : true ≡ false → ⊥
        clash c = cc

    poll_loop-Quiet :
        (waits : List (Option (List Event))) (t : Trace)
        → reaches_client h waits ≡ false
        → closes fd t ≡ n
        → Quiet fd n (poll_loop os destroy content new_connection h waits t)
    unfolding poll_loop reaches_client
    poll_loop-Quiet [] t c q = q
    poll_loop-Quiet (none ∷ rest) t c q = q
    poll_loop-Quiet (some events ∷ rest) t c q = elim (Bool-cases (has_client h events)) [
      | inl y ↦ elim (clash (rw y at c)) [ ]
      | inr y ↦
          Quiet-then fd n _ _ (handle_events-Quiet events t y q)
            (λ _ t q. poll_loop-Quiet rest t (rw y at c) q)
    ]
      where
        clash : true ≡ false → ⊥
        clash c = cc

-- The end of a loop that closes the socket, and then the destructor.
ended :
    (os : Os) (destroy : Trace → Outcome Unit) (content : Trace → Bytes)
    (new_connection : HttpSocket → Trace → Outcome Unit) (h : HttpSocket) (poller : ℤ) (n : ℕ)
    (r : Outcome Bool) (after : Trace)
    → poller ≢ h.server_socket
    → Quiet h.server_socket n r
    → and_then r (close_both os destroy content new_connection h poller) ≡ finished true after
    → closes h.server_socket (close_server_socket os h after) ≡ n + 2
unfolding and_then close_both close_server_socket closes
ended os destroy content new_connection h poller n (finished false t) after d q e =
    elim (no_end e) [ ]
  where
    no_end : finished false t ≡ finished true after → ⊥
    no_end e = cc
ended os destroy content new_connection h poller n (finished true t) after d q e =
    let closed = (sys os (close h.server_socket) (sys os (close poller) t).1).1 in
    let same : after ≡ closed = cc in
    let ne =
      eq-false_of_ne_true (h.server_socket == poller) (λ x. d (sym ((int_beq_iff _ _).0 x))) in
    rw (same, closes, eq_self h.server_socket, ne) (omega arith)
ended os destroy content new_connection h poller n (thrown t) after d q e = elim (no_end e) [ ]
  where
    no_end : thrown t ≡ finished true after → ⊥
    no_end e = cc
ended os destroy content new_connection h poller n (undefined t) after d q e = elim (no_end e) [ ]
  where
    no_end : undefined t ≡ finished true after → ⊥
    no_end e = cc

-- If the loop ends, since a wait failed, and no client was ever read from, the listening socket is
-- closed twice: by `handleAndResumeConnections` and by the destructor, with kqueue and with epoll,
-- if the poller is another descriptor.
pub resume-closes :
    (os : Os) (destroy : Trace → Outcome Unit) (content : Trace → Bytes) (h : HttpSocket)
    (waits : List (Option (List Event))) (t after : Trace)
    → (os t create_poller).value ≢ h.server_socket
    → reaches_client h waits ≡ false
    → (resume_kqueue os destroy content h waits t ≡ finished true after)
      ⊎ (resume_epoll os destroy content h waits t ≡ finished true after)
    → closes h.server_socket (close_server_socket os h after) ≡ closes h.server_socket t + 2
unfolding resume_kqueue resume_epoll closes
resume-closes os destroy content h waits t after d c (inl e) =
    let poller = (os t create_poller).value in
    let new = accept_kqueue os destroy content poller in
    let n = closes h.server_socket t in
    ended os destroy content new h poller n _ after d
      (poll_loop-Quiet os destroy content h.server_socket n new h
        (accept_kqueue-Quiet os destroy content h.server_socket n poller h) waits _ c refl)
      e
resume-closes os destroy content h waits t after d c (inr e) =
    let poller = (os t create_poller).value in
    let new = accept_epoll os destroy content poller in
    let n = closes h.server_socket t in
    ended os destroy content new h poller n _ after d
      (poll_loop-Quiet os destroy content h.server_socket n new h
        (accept_epoll-Quiet os destroy content h.server_socket n poller h) waits _ c refl)
      e
