-- ===== src/Net/Client/Closing.antt =====
-- Socket/ClientSocket.hpp: what shuts a descriptor down, and how often.
use mux.Prelude.{
  ℕ, suc, ◌≡◌, refl, ap, ◌∙◌, ◌≢◌, ◌⊎◌, inl, inr, true, false, not, ◌||◌, [], ◌∷◌, arith,
  if◌then◌else◌, Bool-cases, ◌==◌, nat_eq, bytes_eq, eq_self,
}
use mux.Prelude.Int.{ℤ, pos, minus_one, int_beq_iff, int_eq, is_neg}
use mux.Net.System.{reading, writing, shutdown, add_event, delete_event, Trace, Os}
use mux.Net.Client.{
  ClientSocket, safety_close, default_acception, set_reader, remove_reader, set_writer,
  remove_writer, abandon, writer_registered, reader_registered, accepted, accept_client, unregister,
  close_client, destroy_client,
}
use mux.Net.Client.Accepting.{
  set_reader-client_fd, set_writer-client_fd, set_reader-is_connected, set_writer-is_connected,
}

-- How often `shutdown` was called on a descriptor.
unfoldable pub shutdowns : ℤ → Trace → ℕ
shutdowns fd [] = 0
shutdowns fd ((shutdown other_fd, r) ∷ t) =
    let n = shutdowns fd t in if fd == other_fd then suc n else n
shutdowns fd (_ ∷ t) = shutdowns fd t

false_neg : is_neg minus_one ≡ false → ⊥
false_neg h = cc

module _ (os : Os) where
  -- Closing a client twice is closing it once: the second call returns 1, and neither changes the
  -- object nor calls the kernel.
  pub close_client-close_client :
      (c : ClientSocket) (t : Trace)
      → let (_, c', t') = close_client os c t in close_client os c' t' ≡ (pos 1, c', t')
  unfolding close_client
  close_client-close_client c t = elim (Bool-cases (not c.is_connected || is_neg c.client_fd)) [
    | inl e ↦ rw (e, e) refl
    | inr e ↦ rw e refl
  ]

  shutdowns-set_reader :
      (fd : ℤ) (c : ClientSocket) (t : Trace) → shutdowns fd (set_reader os c t).2 ≡ shutdowns fd t
  unfolding set_reader shutdowns
  shutdowns-set_reader fd c t = elim (Bool-cases c.is_reader) [
    | inl e ↦ rw e refl
    | inr e ↦
        elim (Bool-cases ((os t (add_event c.poller c.client_fd reading)).value == minus_one)) [
          | inl f ↦ rw (e, f) refl
          | inr f ↦ rw (e, f) refl
        ]
  ]

  shutdowns-set_writer :
      (fd : ℤ) (c : ClientSocket) (t : Trace) → shutdowns fd (set_writer os c t).2 ≡ shutdowns fd t
  unfolding set_writer shutdowns
  shutdowns-set_writer fd c t = elim (Bool-cases c.is_writer) [
    | inl e ↦ rw e refl
    | inr e ↦
        elim (Bool-cases ((os t (add_event c.poller c.client_fd writing)).value == minus_one)) [
          | inl f ↦ rw (e, f) refl
          | inr f ↦ rw (e, f) refl
        ]
  ]

  shutdowns-remove_reader :
      (fd : ℤ) (c : ClientSocket) (t : Trace)
      → shutdowns fd (remove_reader os c t).2 ≡ shutdowns fd t
  unfolding remove_reader shutdowns
  shutdowns-remove_reader fd c t = elim (Bool-cases c.is_reader) [
    | inr e ↦ rw e refl
    | inl e ↦
        elim (Bool-cases ((os t (delete_event c.poller c.client_fd reading)).value == minus_one)) [
          | inl f ↦ rw (e, f) refl
          | inr f ↦ rw (e, f) refl
        ]
  ]

  shutdowns-remove_writer :
      (fd : ℤ) (c : ClientSocket) (t : Trace)
      → shutdowns fd (remove_writer os c t).2 ≡ shutdowns fd t
  unfolding remove_writer shutdowns
  shutdowns-remove_writer fd c t = elim (Bool-cases c.is_writer) [
    | inr e ↦ rw e refl
    | inl e ↦
        elim (Bool-cases ((os t (delete_event c.poller c.client_fd writing)).value == minus_one)) [
          | inl f ↦ rw (e, f) refl
          | inr f ↦ rw (e, f) refl
        ]
  ]

  shutdowns-safety_close :
      (fd : ℤ) (t : Trace) → shutdowns fd (safety_close os fd t).1 ≡ suc (shutdowns fd t)
  unfolding safety_close shutdowns
  shutdowns-safety_close fd t = elim (Bool-cases (is_neg (os t (shutdown fd)).value)) [
    | inl e ↦ rw (e, eq_self fd) refl
    | inr e ↦ rw (e, eq_self fd) refl
  ]

  shutdowns-safety_close_at :
      (fd same_fd : ℤ) (t : Trace)
      → same_fd ≡ fd
      → shutdowns fd (safety_close os same_fd t).1 ≡ suc (shutdowns fd t)
  shutdowns-safety_close_at fd same_fd t e = rw e (shutdowns-safety_close fd t)

  pub shutdowns-unregister :
      (fd : ℤ) (c : ClientSocket) (t : Trace) → shutdowns fd (unregister os c t).1 ≡ shutdowns fd t
  unfolding unregister
  shutdowns-unregister fd c t = elim (Bool-cases (is_neg (remove_reader os c t).0)) [
    | inl e ↦ rw e (shutdowns-remove_reader fd c t)
    | inr e ↦ rw e (shutdowns-remove_writer fd _ _ ∙ shutdowns-remove_reader fd c t)
  ]

  pub unregister-client_fd :
      (c : ClientSocket) (t : Trace) → (unregister os c t).0.client_fd ≡ c.client_fd
  unfolding unregister remove_reader remove_writer
  unregister-client_fd c t = ground arith

  pub close_client-client_fd :
      (c : ClientSocket) (t : Trace) → (close_client os c t).1.client_fd ≡ c.client_fd
  unfolding close_client
  close_client-client_fd c t = elim (Bool-cases (not c.is_connected || is_neg c.client_fd)) [
    | inl e ↦ rw e refl
    | inr e ↦ rw e (unregister-client_fd c t)
  ]

  destroy_client-connected :
      (fd : ℤ) (c : ClientSocket) (t : Trace)
      → c.client_fd ≡ fd
      → is_neg fd ≡ false
      → c.is_connected ≡ true
      → shutdowns fd (destroy_client os c t) ≡ suc (shutdowns fd t)
  unfolding destroy_client close_client
  destroy_client-connected fd c t same h e =
      let up = record c { is_connected = true; client_fd = fd } in
      rw (e, same, h)
        (shutdowns-safety_close_at fd _ _ (unregister-client_fd up t)
          ∙ ap suc (shutdowns-unregister fd up t))

  -- The destructor of a client that holds a descriptor shuts it down exactly once if the client is
  -- connected, and otherwise makes no call.
  pub destroy_client_lem :
      (c : ClientSocket) (t : Trace)
      → is_neg c.client_fd ≡ false
      → ((c.is_connected ≡ true)
          × (shutdowns c.client_fd (destroy_client os c t) ≡ suc (shutdowns c.client_fd t)))
        ⊎ ((c.is_connected ≡ false) × (destroy_client os c t ≡ t))
  unfolding destroy_client
  destroy_client_lem c t h = elim (Bool-cases c.is_connected) [
    | inr e ↦ inr (e, rw e refl)
    | inl e ↦ inl (e, destroy_client-connected c.client_fd c t refl h e)
  ]

  writer_registered-failed :
      (fd : ℤ) (c : ClientSocket) (t : Trace)
      → fd ≢ minus_one
      → (writer_registered os fd (set_writer os c t)).0 ≡ minus_one
      → let (_, c', t') = writer_registered os fd (set_writer os c t) in
        (c'.client_fd ≡ c.client_fd)
        × (c'.is_connected ≡ c.is_connected)
        × (shutdowns fd t' ≡ suc (shutdowns fd t))
  unfolding writer_registered abandon
  writer_registered-failed fd c t n h = elim (Bool-cases ((set_writer os c t).0 == minus_one)) [
    | inr e ↦ elim (n (rw e at h)) [ ]
    | inl e ↦ rw e (
      set_writer-client_fd os c t,
      set_writer-is_connected os c t,
      shutdowns-safety_close fd _ ∙ ap suc (shutdowns-set_writer fd c t),
    )
  ]

  reader_registered-failed :
      (fd : ℤ) (c : ClientSocket) (t : Trace)
      → fd ≢ minus_one
      → (reader_registered os fd (set_reader os c t)).0 ≡ minus_one
      → let (_, c', t') = reader_registered os fd (set_reader os c t) in
        (c'.client_fd ≡ c.client_fd)
        × (c'.is_connected ≡ c.is_connected)
        × (shutdowns fd t' ≡ suc (shutdowns fd t))
  unfolding reader_registered abandon
  reader_registered-failed fd c t n h = elim (Bool-cases ((set_reader os c t).0 == minus_one)) [
    | inr e ↦
        let p = writer_registered-failed fd _ _ n (rw e at h) in
        rw e (
          p.0 ∙ set_reader-client_fd os c t,
          p.1 ∙ set_reader-is_connected os c t,
          p.2 ∙ ap suc (shutdowns-set_reader fd c t),
        )
    | inl e ↦ rw e (
      set_reader-client_fd os c t,
      set_reader-is_connected os c t,
      shutdowns-safety_close fd _ ∙ ap suc (shutdowns-set_reader fd c t),
    )
  ]

  -- If `defaultAcception` returns a descriptor and `accept` still fails, since an interest could
  -- not be registered, `accept` has shut that descriptor down, and the object remains connected
  -- to it.
  pub accept_client-failed :
      (c : ClientSocket) (t : Trace)
      → let (fd, t₁) = default_acception os c.server_socket t in
        fd ≢ minus_one
        → (accept_client os c t).0 ≡ minus_one
        → let (_, c', t') = accept_client os c t in
          (c'.client_fd ≡ fd) × (c'.is_connected ≡ true) × (shutdowns fd t' ≡ suc (shutdowns fd t₁))
  unfolding accept_client accepted
  accept_client-failed c t n h =
      elim (Bool-cases ((default_acception os c.server_socket t).0 == minus_one)) [
        | inl e ↦ elim (n ((int_beq_iff _ _).0 e)) [ ]
        | inr e ↦ rw e (reader_registered-failed _ _ _ n (rw e at h))
      ]

  -- If `defaultAcception` returns a descriptor that is not negative and `accept` still returns -1,
  -- then `accept` and the destructor of its object together shut the descriptor down twice.
  pub accept_client-destroy_client :
      (c : ClientSocket) (t : Trace)
      → let (fd, t₁) = default_acception os c.server_socket t in
        is_neg fd ≡ false
        → (accept_client os c t).0 ≡ minus_one
        → let (_, c', t') = accept_client os c t in
          shutdowns fd (destroy_client os c' t') ≡ suc (suc (shutdowns fd t₁))
  accept_client-destroy_client c t n h =
      let p = accept_client-failed c t (λ e. false_neg (rw e at n)) h in
      destroy_client-connected _ (accept_client os c t).1 _ p.0 n p.1 ∙ ap suc p.2
