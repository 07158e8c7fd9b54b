-- ===== src/Net/Client/Reported.antt =====
-- Socket/ClientSocket.hpp: what `accept` of a client reports, against what the kernel accepted.
use mux.Prelude.{
  ◌≡◌, refl, sym, ◌∙◌, ◌≢◌, ◌⊎◌, inl, inr, Bool, true, false, arith, if◌then◌else◌, ◌==◌, nat_eq,
  bytes_eq,
}
use mux.Prelude.Int.{ℤ, pos, minus_one, int_eq, is_neg}
use mux.Net.System.{
  accept, get_flags, set_flags, set_nodelay, shutdown, close, Trace, Os, is_open, with_nonblock,
}
use mux.Net.Client.{
  ClientSocket, safety_close, set_nodelay_step, set_flags_step, get_flags_step, default_acception,
  set_reader, set_writer, abandon, writer_registered, reader_registered, accepted, accept_client,
}
use mux.Net.Client.Accepting.{accept_client-connected}
use mux.Net.Client.Balance.{accepts, plus_if, accepts-safety_close, set_writer-counts}

-- Both branches of a test.
either :
    {A : Type 0} (P : A → Type 0) (test : Bool) (x y : A) → P x → P y → P (if test then x else y)
either P true x y p q = p
either P false x y p q = q

-- `close` returns 0, or -1 where it fails.
abbrev pub ClosesPlainly : Os → Type 0
ClosesPlainly os =
    (t : Trace) (fd : ℤ) → ((os t (close fd)).value ≡ pos 0) ⊎ ((os t (close fd)).value ≡ minus_one)

-- A result that is `fd`, or what a setup that failed leaves in its place.
abbrev pub IsReport : ℤ → ℤ → Type 0
IsReport fd result = (result ≡ fd) ⊎ ((result ≡ pos 0) ⊎ (result ≡ minus_one))

module _ (os : Os) (k : ℤ) where
  abbrev Same : {A : Type 0} → Trace → A × Trace → Type 0
  Same t r = accepts k r.1 ≡ accepts k t

  module _ (plain : ClosesPlainly os) where
    -- A step of the setup of `fd` behind the calls `t`
    abbrev Reports : ℤ → Trace → ℤ × Trace → Type 0
    Reports fd t (result, after) = IsReport fd result × (accepts k after ≡ accepts k t)

    safety_close-Reports : (fd : ℤ) (t : Trace) → Reports fd t (safety_close os fd t)
    unfolding safety_close accepts
    safety_close-Reports fd t =
        either (Reports fd t) (is_neg (os t (shutdown fd)).value) _ _ (inr (inr refl), refl)
          (inr (plain _ fd), refl)

    set_nodelay_step-Reports : (fd : ℤ) (t : Trace) → Reports fd t (set_nodelay_step os fd t)
    unfolding set_nodelay_step accepts
    set_nodelay_step-Reports fd t =
        either (Reports fd t) ((os t (set_nodelay fd)).value == minus_one) _ _
          (safety_close-Reports fd _) (inl refl, refl)

    set_flags_step-Reports :
        (fd flags : ℤ) (t : Trace) → Reports fd t (set_flags_step os fd flags t)
    unfolding set_flags_step accepts
    set_flags_step-Reports fd flags t =
        either (Reports fd t) ((os t (set_flags fd (with_nonblock flags))).value == minus_one) _ _
          (safety_close-Reports fd _) (set_nodelay_step-Reports fd _)

    get_flags_step-Reports : (fd : ℤ) (t : Trace) → Reports fd t (get_flags_step os fd t)
    unfolding get_flags_step accepts
    get_flags_step-Reports fd t =
        let f = os t (get_flags fd) in
        either (Reports fd t) (f.value == minus_one) _ _ (safety_close-Reports fd _) (
          either (Reports fd t) (is_open f.value) _ _ (set_flags_step-Reports fd f.value _)
            (inr (inr refl), refl))

    -- `accept` is called once, and its result is the descriptor or one of -1 and 0.
    default_acception-Reports :
        (server : ℤ) (t : Trace)
        → let fd = (os t (accept server)).value in
          let (result, after) = default_acception os server t in
          IsReport fd result × (accepts k after ≡ plus_if (fd == k) (accepts k t))
    unfolding default_acception accepts
    default_acception-Reports server t =
        let fd = (os t (accept server)).value in
        either
          (λ (r : ℤ × Trace). IsReport fd r.0 × (accepts k r.1 ≡ plus_if (fd == k) (accepts k t)))
          (is_neg fd) _ _ (inr (inr refl), refl) (get_flags_step-Reports fd _)

  -- Beside the object, a method has an effect on the trace.
  abbrev After : Trace → ℤ × ClientSocket × Trace → Type 0
  After t (_, _, after) = accepts k after ≡ accepts k t

  set_reader-accepts : (c : ClientSocket) (t : Trace) → After t (set_reader os c t)
  unfolding set_reader accepts
  set_reader-accepts c t = ground arith

  writer_registered-accepts :
      (fd writer : ℤ) (c : ClientSocket) (t : Trace)
      → After t (writer_registered os fd (writer, c, t))
  unfolding writer_registered abandon
  writer_registered-accepts fd writer c t =
      either (After t) (writer == minus_one) _ _ (accepts-safety_close os k fd t) refl

  reader_registered-accepts :
      (fd reader : ℤ) (c : ClientSocket) (t : Trace)
      → After t (reader_registered os fd (reader, c, t))
  unfolding reader_registered abandon
  reader_registered-accepts fd reader c t =
      either (After t) (reader == minus_one) _ _ (accepts-safety_close os k fd t) (
        writer_registered-accepts fd (set_writer os c t).0 (set_writer os c t).1 _
        ∙ (set_writer-counts os k c t).1)

  accepted-accepts : (c : ClientSocket) (fd : ℤ) (t : Trace) → After t (accepted os c (fd, t))
  unfolding accepted
  accepted-accepts c fd t =
      let up = record c { is_connected = true; client_fd = fd } in
      either (After t) (fd == minus_one) _ _ refl (
        reader_registered-accepts fd (set_reader os up t).0 (set_reader os up t).1 _
        ∙ set_reader-accepts up t)

  -- `accept` of a client calls the kernel's `accept` once; a result other than -1 is the descriptor
  -- that this returned, or 0.
  pub accept_client-reports :
      ClosesPlainly os
      → (c : ClientSocket) (t : Trace)
      → let fd = (os t (accept c.server_socket)).value in
        let (result, _, after) = accept_client os c t in
        (accepts k after ≡ plus_if (fd == k) (accepts k t))
        × (result ≢ minus_one → (result ≡ fd) ⊎ (result ≡ pos 0))
  unfolding accept_client
  accept_client-reports plain c t =
      let (report, count) = default_acception-Reports plain c.server_socket t in
      (
        accepted-accepts c (default_acception os c.server_socket t).0 _ ∙ count,
        λ n.
            let same = (accept_client-connected os c t n).0 in
            elim report [
              | inl e ↦ inl (sym same ∙ e)
              | inr (inl z) ↦ inr (sym same ∙ z)
              | inr (inr m) ↦ elim (n (sym same ∙ m)) [ ]
            ],
      )
