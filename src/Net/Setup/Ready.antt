-- ===== src/Net/Setup/Ready.antt =====
-- Socket/Poller/Server.hpp: the calls of a constructor that reaches its end.
use mux.Prelude.{
  ◌≡◌, refl, sym, ap, ◌∙◌, ◌≢◌, inl, inr, Bool, true, false, none, some, List, [], ◌∷◌, ◌++◌,
  if◌then◌else◌, Bool-cases, ◌==◌, nat_eq, bytes_eq, ne_of_beq,
}
use mux.Prelude.Int.{ℤ, pos, minus_one, int_eq, is_neg}
use mux.Net.System.{
  Call, get_flags, set_flags, open_socket, set_reuse, bind_address, listen_on, create_poller,
  add_both, Trace, Os, with_nonblock,
}
use mux.Net.Setup.{
  Metadata, Base, Stage, no_socket, no_reuse, no_nonblock, no_address, no_poller, no_interest,
  no_listen, done, create, bind, listen, set_nonblocking, set_reuse_address,
  set_poller_readable_writable, listening, interested, polled, bound, nonblocking, reusing,
  construct,
}

unfoldable pub calls : Trace → List Call
calls [] = []
calls ((call, r) ∷ t) = call ∷ calls t

-- `listen`, for a stream socket
pub listens : Metadata → ℤ → List Call
listens m fd = if m.is_stream then listen_on fd m.backlog ∷ [] else []

is_done : Stage → Bool
is_done done = true
is_done _ = false

early : (s : Stage) → is_done s ≡ false → s ≡ done → ⊥
unfolding is_done
early s h q = clash (rw q at h)
  where
    clash : true ≡ false → ⊥
    clash c = cc

-- The calls of a complete constructor, newest first, before those made earlier.
abbrev pub opening : Metadata → ℤ → ℤ → List Call → ℤ → List Call
opening m poller flags earlier fd =
    listens m fd
    ++ add_both poller fd
      ∷ create_poller
      ∷ bind_address fd
      ∷ set_flags fd (with_nonblock flags)
      ∷ get_flags fd
      ∷ set_reuse fd 1
      ∷ open_socket
      ∷ earlier

module _ (os : Os) (m : Metadata) where
  listening-done :
      (b : Base) (t : Trace)
      → (listening os m b t).0 ≡ done
      → ((listening os m b t).1 ≡ b)
        × (calls (listening os m b t).2 ≡ listens m b.socket ++ calls t)
  unfolding listening listen calls listens is_done
  listening-done b t h = elim (Bool-cases m.is_stream) [
    | inr e ↦ rw e (refl, refl)
    | inl e ↦ elim (Bool-cases (is_neg b.socket)) [
      | inl n ↦ elim (early no_listen refl (rw (e, n) at h)) [ ]
      | inr n ↦ elim (Bool-cases (is_neg (os t (listen_on b.socket m.backlog)).value)) [
        | inl f ↦ elim (early no_listen refl (rw (e, n, f) at h)) [ ]
        | inr f ↦ rw (e, n, f) (refl, refl)
      ]
    ]
  ]

  interested-done :
      (p : ℤ) (b : Base) (t : Trace)
      → (interested os m p b t).0 ≡ done
      → ((interested os m p b t).1 ≡ b)
        × (calls (interested os m p b t).2 ≡ listens m b.socket ++ add_both p b.socket ∷ calls t)
  unfolding interested set_poller_readable_writable calls is_done
  interested-done p b t h = elim (Bool-cases (is_neg (os t (add_both p b.socket)).value)) [
    | inl e ↦ elim (early no_interest refl (rw e at h)) [ ]
    | inr e ↦ rw e (listening-done b _ (rw e at h))
  ]

  polled-done :
      (b : Base) (t : Trace)
      → (polled os m b t).0 ≡ done
      → (p : ℤ) × (p ≢ minus_one)
        × ((polled os m b t).1 ≡ record b { poller = some p })
        × (calls (polled os m b t).2
            ≡ listens m b.socket ++ add_both p b.socket ∷ create_poller ∷ calls t)
  unfolding polled calls is_done
  polled-done b t h = elim (Bool-cases ((os t create_poller).value == minus_one)) [
    | inl e ↦ elim (early no_poller refl (rw e at h)) [ ]
    | inr e ↦
        let p = (os t create_poller).value in
        let (same, called) = interested-done p (record b { poller = some p }) _ (rw e at h) in
        (p, ne_of_beq e, rw e same, rw e called)
  ]

  bound-step :
      (b : Base) (t : Trace)
      → (bound os m b t).0 ≡ done
      → let call = bind_address b.socket in
        (is_neg b.socket ≡ false) × (bound os m b t ≡ polled os m b ((call, os t call) ∷ t))
  unfolding bound bind is_done
  bound-step b t h = elim (Bool-cases (is_neg b.socket)) [
    | inl n ↦ elim (early no_address refl (rw n at h)) [ ]
    | inr n ↦ elim (Bool-cases ((os t (bind_address b.socket)).value == pos 0)) [
      | inr e ↦ elim (early no_address refl (rw (n, e) at h)) [ ]
      | inl e ↦ (n, rw (n, e) refl)
    ]
  ]

  nonblocking-step :
      (b : Base) (t : Trace)
      → (nonblocking os m b t).0 ≡ done
      → let f = os t (get_flags b.socket) in
        let t₁ = (get_flags b.socket, f) ∷ t in
        let call = set_flags b.socket (with_nonblock f.value) in
        nonblocking os m b t ≡ bound os m b ((call, os t₁ call) ∷ t₁)
  unfolding nonblocking set_nonblocking is_done
  nonblocking-step b t h =
      let f = os t (get_flags b.socket) in
      let t₁ = (get_flags b.socket, f) ∷ t in
      elim (Bool-cases (f.value == minus_one)) [
        | inl n ↦ elim (early no_nonblock refl (rw n at h)) [ ]
        | inr n ↦
            elim (Bool-cases
              ((os t₁ (set_flags b.socket (with_nonblock f.value))).value == pos 0)) [
                | inr e ↦ elim (early no_nonblock refl (rw (n, e) at h)) [ ]
                | inl e ↦ rw (n, e) refl
              ]
      ]

  reusing-step :
      (b : Base) (t : Trace)
      → (reusing os m b t).0 ≡ done
      → let call = set_reuse b.socket 1 in
        reusing os m b t ≡ nonblocking os m b ((call, os t call) ∷ t)
  unfolding reusing set_reuse_address is_done
  reusing-step b t h = elim (Bool-cases ((os t (set_reuse b.socket 1)).value == pos 0)) [
    | inr e ↦ elim (early no_reuse refl (rw e at h)) [ ]
    | inl e ↦ rw e refl
  ]

  construct-step :
      (t : Trace)
      → (construct os m t).0 ≡ done
      → let r = os t open_socket in
        construct os m t
        ≡ reusing os m (record { socket = r.value; poller = none }) ((open_socket, r) ∷ t)
  unfolding construct create is_done
  construct-step t h = elim (Bool-cases (is_neg (os t open_socket).value)) [
    | inl e ↦ elim (early no_socket refl (rw e at h)) [ ]
    | inr e ↦ rw e refl
  ]

  -- The stage that an equation of runs carries over.
  carried : {x y : Stage × Base × Trace} → x ≡ y → x.0 ≡ done → y.0 ≡ done
  carried e h = rw (← e) h

  -- A constructor that reaches its end has a socket and a poller and has made these calls and no
  -- other, in this order: open the socket, allow its address again, read its flags, set them with
  -- O_NONBLOCK, bind it, create the poller, register both interests, and listen if it is a stream.
  pub construct-done :
      (t : Trace)
      → (construct os m t).0 ≡ done
      → let (_, b, after) = construct os m t in
        (p flags : ℤ) × (is_neg b.socket ≡ false)
        × (p ≢ minus_one)
        × (b.poller ≡ some p)
        × (calls after ≡ opening m p flags (calls t) b.socket)
  unfolding calls
  construct-done t h =
      let v = (os t open_socket).value in
      let t₁ = (open_socket, os t open_socket) ∷ t in
      let t₂ = (set_reuse v 1, os t₁ (set_reuse v 1)) ∷ t₁ in
      let flags = (os t₂ (get_flags v)).value in
      let e₀ = construct-step t h in
      let h₁ = carried e₀ h in
      let e₁ = reusing-step _ _ h₁ in
      let h₂ = carried e₁ h₁ in
      let e₂ = nonblocking-step _ _ h₂ in
      let h₃ = carried e₂ h₂ in
      let (real, e₃) = bound-step _ _ h₃ in
      let (p, some_poller, same, called) = polled-done _ _ (carried e₃ h₃) in
      let e = e₀ ∙ e₁ ∙ e₂ ∙ e₃ in
      let base = ap (λ (x : Stage × Base × Trace). x.1) e ∙ same in
      (
        p,
        flags,
        ap (λ (x : Base). is_neg x.socket) base ∙ real,
        some_poller,
        ap (λ (x : Base). x.poller) base,
        ap (λ (x : Stage × Base × Trace). calls x.2) e
            ∙ called
            ∙ ap (λ (x : Base). opening m p flags (calls t) x.socket) (sym base),
      )
