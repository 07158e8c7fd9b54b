-- ===== src/Programs/Echo/Closes.antt =====
-- src/Socket.cc: which descriptors are closed.
use mux.Prelude.{
  ℕ, ◌+◌, ◌≡◌, refl, sym, ap, ◌∙◌, ◌≢◌, inl, inr, Bool, true, false, Option, none, some, [], ◌∷◌,
  arith, if◌then◌else◌, Bool-cases, eq-false_of_ne_true, ◌==◌, nat_eq, bytes_eq, eq_self,
}
use mux.Prelude.Int.{ℤ, pos, minus_one, int_beq_iff, int_eq, is_pos}
use mux.Programs.Echo.{
  Echo, close_fd, register_server, make_kqueue, listen_server, bind_server, open_echo,
  answer_client, echo_event, echo_events,
}
use mux.Net.System.{
  reading, recv, open_socket, set_reuse, bind_address, listen_on, create_poller, add_event, Trace,
  Os, sys,
}
use mux.Net.Setup.Release.{closes}

-- One if the program has returned
abbrev pub if_returned : Option Echo → ℕ
if_returned none = 1
if_returned (some e) = 0

-- A failure closes `fd` once, and success not at all.
abbrev ClosesOnFailure : ℤ → ℕ → Option Echo × Trace → Type 0
ClosesOnFailure fd n (o, after) = closes fd after ≡ n + if_returned o

module _ (os : Os) (fd : ℤ) (n : ℕ) (apart : (t : Trace) → (os t create_poller).value ≢ fd) where
  choose :
      (test : Bool) (x y : Option Echo × Trace)
      → ClosesOnFailure fd n x
      → ClosesOnFailure fd n y
      → ClosesOnFailure fd n (if test then x else y)
  choose true x y p q = p
  choose false x y p q = q

  close_fd_self : (t : Trace) → closes fd t ≡ n → closes fd (close_fd os fd t) ≡ n + 1
  unfolding close_fd closes
  close_fd_self t h = rw (eq_self fd) (omega (arith, h))

  register_server-closes :
      (kq : ℤ) (t : Trace)
      → kq ≢ fd
      → closes fd t ≡ n
      → ClosesOnFailure fd n (register_server os fd kq t)
  unfolding register_server closes
  register_server-closes kq t d h =
      let t₁ = (sys os (add_event kq fd reading) t).1 in
      let ne = eq-false_of_ne_true (fd == kq) (λ x. d (sym ((int_beq_iff _ _).0 x))) in
      let other : closes fd (close_fd os kq t₁) ≡ n = unfold close_fd in rw ne h in
      choose ((os t (add_event kq fd reading)).value == minus_one) _ _
        (close_fd_self (close_fd os kq t₁) other) (omega (arith, h))

  make_kqueue-closes : (t : Trace) → closes fd t ≡ n → ClosesOnFailure fd n (make_kqueue os fd t)
  unfolding make_kqueue closes
  make_kqueue-closes t h =
      choose ((os t create_poller).value == minus_one) _ _
        (close_fd_self (sys os create_poller t).1 h)
        (register_server-closes _ (sys os create_poller t).1 (apart t) h)

  listen_server-closes :
      (t : Trace) → closes fd t ≡ n → ClosesOnFailure fd n (listen_server os fd t)
  unfolding listen_server closes
  listen_server-closes t h =
      let t₁ = (sys os (listen_on fd 5) t).1 in
      choose ((os t (listen_on fd 5)).value == minus_one) _ _ (close_fd_self t₁ h)
        (make_kqueue-closes t₁ h)

  bind_server-closes : (t : Trace) → closes fd t ≡ n → ClosesOnFailure fd n (bind_server os fd t)
  unfolding bind_server closes
  bind_server-closes t h =
      let t₀ = (sys os (set_reuse fd 1) t).1 in
      let t₁ = (sys os (bind_address fd) t₀).1 in
      choose ((os t₀ (bind_address fd)).value == minus_one) _ _ (close_fd_self t₁ h)
        (listen_server-closes t₁ h)

-- Before its loop the program loses no socket: if it returns early, whichever call failed, the
-- socket that it opened was closed exactly once, and if it goes on to the loop it was not closed.
-- The poller must be another descriptor.
pub open_echo-closes :
    (os : Os) (t : Trace)
    → let fd = (os t open_socket).value in
      let (o, after) = open_echo os t in
      fd ≢ minus_one
      → ((t : Trace) → (os t create_poller).value ≢ fd)
      → closes fd after ≡ closes fd t + if_returned o
unfolding open_echo closes
open_echo-closes os t opened apart =
    let fd = (os t open_socket).value in
    let e = eq-false_of_ne_true (fd == minus_one) (λ x. opened ((int_beq_iff _ _).0 x)) in
    let t₁ = (sys os open_socket t).1 in rw e (bind_server-closes os fd (closes fd t) apart t₁ refl)

module _ (os : Os) (fd : ℤ) (gone : (t : Trace) → is_pos (os t (recv fd 1024)).value ≡ false) where
  echo_event-gone :
      (e : Echo) (t : Trace)
      → (fd == e.server_fd) ≡ false
      → (closes fd (echo_event os fd e t).1 ≡ closes fd t + 1)
        × ((echo_event os fd e t).0.server_fd ≡ e.server_fd)
  unfolding echo_event answer_client close_fd closes
  echo_event-gone e t n = elim (Bool-cases ((os t (recv fd 1024)).value == pos 0)) [
    | inl z ↦ rw (n, gone t, z, eq_self fd) (omega arith, refl)
    | inr z ↦ rw (n, gone t, z, eq_self fd) (omega arith, refl)
  ]

  -- A client from which nothing can be read, and that two events of one batch name, is closed
  -- twice.
  pub echo_events-twice :
      (e : Echo) (t : Trace)
      → (fd == e.server_fd) ≡ false
      → closes fd (echo_events os (fd ∷ (fd ∷ [])) e t).1 ≡ closes fd t + 2
  unfolding echo_events
  echo_events-twice e t n =
      let (e₁, t₁) = echo_event os fd e t in
      let first = echo_event-gone e t n in
      let second = echo_event-gone e₁ t₁ (ap (λ s. fd == s) first.1 ∙ n) in
      omega (arith, first.0, second.0)
