-- ===== src/Net/Client/Accepting.antt =====
-- Socket/ClientSocket.hpp: what becomes of an accepted descriptor.
use mux.Prelude.{
  ℕ, ◌≡◌, refl, sym, ◌∙◌, ◌≢◌, ◌⊎◌, inl, inr, true, false, ◌∷◌, arith, Bool-cases, ◌==◌, nat_eq,
  bytes_eq, ne_of_beq,
}
use mux.Prelude.Int.{ℤ, pos, minus_one, int_beq_iff, int_eq, is_neg}
use mux.Net.System.{
  accept, get_flags, set_flags, set_nodelay, shutdown, close, Reply, Trace, Os, is_open,
  with_nonblock,
}
use mux.Net.Client.{
  ClientSocket, safety_close, set_nodelay_step, set_flags_step, get_flags_step, default_acception,
  set_reader, set_writer, abandon, writer_registered, reader_registered, accepted, accept_client,
}

-- The reply of F_GETFL on a descriptor that is open for reading and writing.
abbrev pub IsOpen : Reply → Type 0
IsOpen f = (f.value ≢ minus_one) × (is_open f.value ≡ true)

-- The calls behind `t` that set up `fd`, up to F_SETFL, and up to TCP_NODELAY
abbrev pub flagged : ℤ → Reply → Reply → Trace → Trace
flagged fd f s t = (set_flags fd (with_nonblock f.value), s) ∷ ((get_flags fd, f) ∷ t)

abbrev pub undelayed : ℤ → Reply → Reply → Reply → Trace → Trace
undelayed fd f s n t = (set_nodelay fd, n) ∷ flagged fd f s t

-- The step of the setup that failed, and the calls up to it.
pub data Refused (fd : ℤ) (t rest : Trace) : Type 0 where
  flags_unread :
      (f : Reply) → f.value ≡ minus_one → rest ≡ (get_flags fd, f) ∷ t → Refused fd t rest
  flags_unset :
      (f s : Reply) → IsOpen f → s.value ≡ minus_one → rest ≡ flagged fd f s t → Refused fd t rest
  delay_unset :
      (f s n : Reply)
      → IsOpen f
      → s.value ≢ minus_one
      → n.value ≡ minus_one
      → rest ≡ undelayed fd f s n t
      → Refused fd t rest

-- How the setup of an accepted descriptor `fd` ends, behind the calls `t`.
pub data Setup (fd : ℤ) (t : Trace) (result : ℤ) (after : Trace) : Type 0 where
  -- all three steps were made and none failed
  ready :
      (f s n : Reply)
      → IsOpen f
      → s.value ≢ minus_one
      → n.value ≢ minus_one
      → after ≡ undelayed fd f s n t
      → result ≡ fd
      → Setup fd t result after
  -- a step failed, and the descriptor was shut down and closed
  closed :
      (rest : Trace) (d r : Reply)
      → Refused fd t rest
      → is_neg d.value ≡ false
      → after ≡ (close fd, r) ∷ ((shutdown fd, d) ∷ rest)
      → result ≡ r.value
      → Setup fd t result after
  -- a step failed, and so did `shutdown`
  leaked :
      (rest : Trace) (d : Reply)
      → Refused fd t rest
      → is_neg d.value ≡ true
      → after ≡ (shutdown fd, d) ∷ rest
      → result ≡ minus_one
      → Setup fd t result after
  -- the flags lack O_RDWR, and nothing more was called
  not_open :
      (f : Reply)
      → f.value ≢ minus_one
      → is_open f.value ≡ false
      → after ≡ (get_flags fd, f) ∷ t
      → result ≡ minus_one
      → Setup fd t result after

-- A step of the setup behind `t`, made at the calls `u`.
abbrev Ends : ℤ → Trace → ℤ × Trace → Type 0
Ends fd t (result, after) = Setup fd t result after

module _ (os : Os) where
  safety_close-Setup :
      (fd : ℤ) (t rest : Trace) → Refused fd t rest → Ends fd t (safety_close os fd rest)
  unfolding safety_close
  safety_close-Setup fd t rest q = elim (Bool-cases (is_neg (os rest (shutdown fd)).value)) [
    | inl e ↦ rw e (leaked rest _ q e refl refl)
    | inr e ↦ rw e (closed rest _ _ q e refl refl)
  ]

  set_nodelay_step-Setup :
      (fd : ℤ) (f s : Reply) (t : Trace)
      → IsOpen f
      → s.value ≢ minus_one
      → Ends fd t (set_nodelay_step os fd (flagged fd f s t))
  unfolding set_nodelay_step
  set_nodelay_step-Setup fd f s t o k =
      let n = os (flagged fd f s t) (set_nodelay fd) in
      elim (Bool-cases (n.value == minus_one)) [
        | inl e ↦
            rw e (safety_close-Setup fd t _ (delay_unset f s n o k ((int_beq_iff _ _).0 e) refl))
        | inr e ↦ rw e (ready f s n o k (ne_of_beq e) refl refl)
      ]

  set_flags_step-Setup :
      (fd : ℤ) (f : Reply) (t : Trace)
      → IsOpen f
      → Ends fd t (set_flags_step os fd f.value ((get_flags fd, f) ∷ t))
  unfolding set_flags_step
  set_flags_step-Setup fd f t o =
      let s = os ((get_flags fd, f) ∷ t) (set_flags fd (with_nonblock f.value)) in
      elim (Bool-cases (s.value == minus_one)) [
        | inl e ↦ rw e (safety_close-Setup fd t _ (flags_unset f s o ((int_beq_iff _ _).0 e) refl))
        | inr e ↦ rw e (set_nodelay_step-Setup fd f s t o (ne_of_beq e))
      ]

  get_flags_step-Setup : (fd : ℤ) (t : Trace) → Ends fd t (get_flags_step os fd t)
  unfolding get_flags_step
  get_flags_step-Setup fd t =
      let f = os t (get_flags fd) in
      elim (Bool-cases (f.value == minus_one)) [
        | inl e ↦ rw e (safety_close-Setup fd t _ (flags_unread f ((int_beq_iff _ _).0 e) refl))
        | inr e ↦ elim (Bool-cases (is_open f.value)) [
          | inl o ↦ rw (e, o) (set_flags_step-Setup fd f t (ne_of_beq e, o))
          | inr o ↦ rw (e, o) (not_open f (ne_of_beq e) o refl refl)
        ]
      ]

  -- Every call of `defaultAcception`: if the kernel accepts no connection the result is -1 and
  -- nothing more is called. Otherwise one of these holds. The flags were read and hold O_RDWR,
  -- O_NONBLOCK was added to them and TCP_NODELAY was set, in this order and without a failure, and
  -- the result is the descriptor. Or one of the three calls failed, which was the last of them, and
  -- then `shutdown` was called on the descriptor: where it failed too nothing more is called and
  -- the result is -1, otherwise `close` is called and the result is what it returned. Or the flags
  -- lack O_RDWR, nothing more is called, and the result is -1.
  pub default_acception-Setup :
      (server : ℤ) (t : Trace)
      → let a = os t (accept server) in
        let (result, after) = default_acception os server t in
        ((is_neg a.value ≡ true) × (result ≡ minus_one) × (after ≡ (accept server, a) ∷ t))
        ⊎ ((is_neg a.value ≡ false) × Setup a.value ((accept server, a) ∷ t) result after)
  unfolding default_acception
  default_acception-Setup server t = elim (Bool-cases (is_neg (os t (accept server)).value)) [
    | inl e ↦ rw e (inl (refl, refl, refl))
    | inr e ↦ rw e (inr (refl, get_flags_step-Setup _ _))
  ]

  -- If the flags of an accepted descriptor cannot be read, and `shutdown` and `close` then return 0
  -- on it, the result of `defaultAcception` is 0, which its caller takes for a descriptor.
  pub default_acception-zero :
      (server : ℤ) (t : Trace) (fd : ℕ)
      → (os t (accept server)).value ≡ pos fd
      → ((u : Trace) → (os u (get_flags (pos fd))).value ≡ minus_one)
      → ((u : Trace) → (os u (shutdown (pos fd))).value ≡ pos 0)
      → ((u : Trace) → (os u (close (pos fd))).value ≡ pos 0)
      → (default_acception os server t).0 ≡ pos 0
  unfolding default_acception get_flags_step safety_close
  default_acception-zero server t fd a f s c = rw (a, f, s, c) refl

  pub set_reader-client_fd :
      (c : ClientSocket) (t : Trace) → (set_reader os c t).1.client_fd ≡ c.client_fd
  unfolding set_reader
  set_reader-client_fd c t = ground arith

  pub set_writer-client_fd :
      (c : ClientSocket) (t : Trace) → (set_writer os c t).1.client_fd ≡ c.client_fd
  unfolding set_writer
  set_writer-client_fd c t = ground arith

  pub set_reader-is_connected :
      (c : ClientSocket) (t : Trace) → (set_reader os c t).1.is_connected ≡ c.is_connected
  unfolding set_reader
  set_reader-is_connected c t = ground arith

  pub set_writer-is_connected :
      (c : ClientSocket) (t : Trace) → (set_writer os c t).1.is_connected ≡ c.is_connected
  unfolding set_writer
  set_writer-is_connected c t = ground arith

  set_reader-is_reader :
      (c : ClientSocket) (t : Trace)
      → ((set_reader os c t).0 == minus_one) ≡ false
      → (set_reader os c t).1.is_reader ≡ true
  unfolding set_reader
  set_reader-is_reader c t h = ground arith

  set_writer-is_writer :
      (c : ClientSocket) (t : Trace)
      → ((set_writer os c t).0 == minus_one) ≡ false
      → (set_writer os c t).1.is_writer ≡ true
  unfolding set_writer
  set_writer-is_writer c t h = ground arith

  set_writer-is_reader :
      (c : ClientSocket) (t : Trace) → (set_writer os c t).1.is_reader ≡ c.is_reader
  unfolding set_writer
  set_writer-is_reader c t = ground arith

  writer_registered-connected :
      (fd : ℤ) (c : ClientSocket) (t : Trace)
      → fd ≢ minus_one
      → c.client_fd ≡ fd
      → c.is_reader ≡ true
      → (writer_registered os fd (set_writer os c t)).0 ≢ minus_one
      → let (result, c', _) = writer_registered os fd (set_writer os c t) in
        (result ≡ fd)
        × (c'.client_fd ≡ fd)
        × (c'.is_connected ≡ true)
        × (c'.is_reader ≡ true)
        × (c'.is_writer ≡ true)
  unfolding writer_registered abandon
  writer_registered-connected fd c t n same reader h =
      elim (Bool-cases ((set_writer os c t).0 == minus_one)) [
        | inl e ↦ elim ((rw e at h) refl) [ ]
        | inr e ↦ rw e (
          refl,
          set_writer-client_fd c t ∙ same,
          refl,
          set_writer-is_reader c t ∙ reader,
          set_writer-is_writer c t e,
        )
      ]

  reader_registered-connected :
      (fd : ℤ) (c : ClientSocket) (t : Trace)
      → fd ≢ minus_one
      → c.client_fd ≡ fd
      → (reader_registered os fd (set_reader os c t)).0 ≢ minus_one
      → let (result, c', _) = reader_registered os fd (set_reader os c t) in
        (result ≡ fd)
        × (c'.client_fd ≡ fd)
        × (c'.is_connected ≡ true)
        × (c'.is_reader ≡ true)
        × (c'.is_writer ≡ true)
  unfolding reader_registered abandon
  reader_registered-connected fd c t n same h =
      elim (Bool-cases ((set_reader os c t).0 == minus_one)) [
        | inl e ↦ elim ((rw e at h) refl) [ ]
        | inr e ↦ rw e (
            writer_registered-connected fd _ _ n (set_reader-client_fd c t ∙ same)
              (set_reader-is_reader c t e) (rw e at h))
      ]

  -- A connection that ClientSocket::accept reports, by a result other than -1, is on record: the
  -- object is connected, holds the descriptor that `defaultAcception` returned, and has both
  -- interests.
  pub accept_client-connected :
      (c : ClientSocket) (t : Trace)
      → (accept_client os c t).0 ≢ minus_one
      → let (fd, c', _) = accept_client os c t in
        ((default_acception os c.server_socket t).0 ≡ fd)
        × (c'.client_fd ≡ fd)
        × (c'.is_connected ≡ true)
        × (c'.is_reader ≡ true)
        × (c'.is_writer ≡ true)
  unfolding accept_client accepted
  accept_client-connected c t h =
      elim (Bool-cases ((default_acception os c.server_socket t).0 == minus_one)) [
        | inl e ↦ elim ((rw e at h) refl) [ ]
        | inr e ↦
            let p = reader_registered-connected _ _ _ (ne_of_beq e) refl (rw e at h) in
            rw e (sym p.0, p.1 ∙ sym p.0, p.2, p.3, p.4)
      ]
