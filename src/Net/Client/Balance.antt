-- ===== src/Net/Client/Balance.antt =====
-- Socket/ClientSocket.hpp: how often a descriptor is accepted and shut down.
use mux.Prelude.{
  ℕ, suc, ◌≡◌, refl, sym, ap, ◌∙◌, Bool, true, false, ◌&&◌, [], ◌∷◌, arith, if◌then◌else◌, ◌==◌,
  nat_eq, bytes_eq,
}
use mux.Prelude.Int.{ℤ, pos, negsuc, minus_one, int_eq, is_neg}
use mux.Net.System.{
  Filter, reading, writing, accept, get_flags, set_flags, set_nodelay, add_event, Trace, Os,
  is_open, with_nonblock,
}
use mux.Net.Client.{
  ClientSocket, new_client, safety_close, set_nodelay_step, set_flags_step, get_flags_step,
  default_acception, set_reader, remove_reader, set_writer, remove_writer, writer_registered,
  reader_registered, accepted, accept_client, unregister, close_client, destroy_client,
}
use mux.Net.Client.Closing.{shutdowns, shutdowns-unregister, unregister-client_fd}

-- How often `accept` has returned a descriptor.
unfoldable pub accepts : ℤ → Trace → ℕ
accepts fd [] = 0
accepts fd ((accept server, r) ∷ t) = let n = accepts fd t in if r.value == fd then suc n else n
accepts fd (_ ∷ t) = accepts fd t

-- A system on which the setup of an accepted descriptor never fails.
pub record IsHealthy (os : Os) : Type 0 where
  pub flags_read : (t : Trace) (fd : ℤ) → ((os t (get_flags fd)).value == minus_one) ≡ false
  pub flags_open : (t : Trace) (fd : ℤ) → is_open (os t (get_flags fd)).value ≡ true
  pub flags_set :
      (t : Trace) (fd : ℤ) (flags : ℕ) → ((os t (set_flags fd flags)).value == minus_one) ≡ false
  pub nodelay_set : (t : Trace) (fd : ℤ) → ((os t (set_nodelay fd)).value == minus_one) ≡ false
  pub event_added :
      (t : Trace) (poller fd : ℤ) (filter : Filter)
      → ((os t (add_event poller fd filter)).value == minus_one) ≡ false

-- `k` once more, if the test holds.
abbrev pub plus_if : Bool → ℕ → ℕ
plus_if b n = if b then suc n else n

module _ (os : Os) where
  shutdowns-safety_close_any :
      (k fd : ℤ) (t : Trace)
      → shutdowns k (safety_close os fd t).1 ≡ plus_if (k == fd) (shutdowns k t)
  unfolding safety_close shutdowns
  shutdowns-safety_close_any k fd t = ground arith

  pub accepts-safety_close :
      (k fd : ℤ) (t : Trace) → accepts k (safety_close os fd t).1 ≡ accepts k t
  unfolding safety_close accepts
  accepts-safety_close k fd t = ground arith

  accepts-unregister :
      (k : ℤ) (c : ClientSocket) (t : Trace) → accepts k (unregister os c t).1 ≡ accepts k t
  unfolding unregister remove_reader remove_writer accepts
  accepts-unregister k c t = ground arith

  pub set_writer-counts :
      (k : ℤ) (c : ClientSocket) (t : Trace)
      → (shutdowns k (set_writer os c t).2 ≡ shutdowns k t)
        × (accepts k (set_writer os c t).2 ≡ accepts k t)
  unfolding set_writer shutdowns accepts
  set_writer-counts k c t = ground arith

  pub ne_neg : (k fd : ℤ) → is_neg k ≡ false → is_neg fd ≡ true → (k == fd) ≡ false
  ne_neg (pos n) (negsuc m) h e = refl
  ne_neg (pos n) (pos m) h e = cc
  ne_neg (negsuc n) fd h e = cc

  -- `close` and the destructor behind it shut a connected client's descriptor down once.
  pub shutdowns-destroy-close :
      (k : ℤ) (c : ClientSocket) (t : Trace)
      → is_neg k ≡ false
      → let (_, c', t') = close_client os c t in
        shutdowns k (destroy_client os c' t')
        ≡ plus_if (c.is_connected && (k == c.client_fd)) (shutdowns k t)
  unfolding close_client destroy_client
  shutdowns-destroy-close k c t h = ground (
    arith,
    ne_neg k c.client_fd,
    shutdowns-safety_close_any k (unregister os c t).0.client_fd (unregister os c t).1,
    shutdowns-unregister os k c t,
    unregister-client_fd os c t,
  )

  pub accepts-destroy-close :
      (k : ℤ) (c : ClientSocket) (t : Trace)
      → let (_, c', t') = close_client os c t in accepts k (destroy_client os c' t') ≡ accepts k t
  unfolding close_client destroy_client
  accepts-destroy-close k c t = ground (
    arith,
    accepts-safety_close k (unregister os c t).0.client_fd (unregister os c t).1,
    accepts-unregister k c t,
  )

  pub shutdowns-destroy :
      (k : ℤ) (c : ClientSocket) (t : Trace)
      → is_neg k ≡ false
      → shutdowns k (destroy_client os c t)
        ≡ plus_if (c.is_connected && (k == c.client_fd)) (shutdowns k t)
  unfolding close_client destroy_client
  shutdowns-destroy k c t h = ground (
    arith,
    ne_neg k c.client_fd,
    shutdowns-safety_close_any k (unregister os c t).0.client_fd (unregister os c t).1,
    shutdowns-unregister os k c t,
    unregister-client_fd os c t,
  )

  pub accepts-destroy :
      (k : ℤ) (c : ClientSocket) (t : Trace) → accepts k (destroy_client os c t) ≡ accepts k t
  unfolding close_client destroy_client
  accepts-destroy k c t = ground (
    arith,
    accepts-safety_close k (unregister os c t).0.client_fd (unregister os c t).1,
    accepts-unregister k c t,
  )

  neg_ne : (fd k : ℤ) → is_neg fd ≡ true → is_neg k ≡ false → (fd == k) ≡ false
  neg_ne (negsuc m) (pos n) e h = refl
  neg_ne (negsuc m) (negsuc n) e h = cc
  neg_ne (pos m) k e h = cc

  -- The kernel has no connection: the new object stays unconnected, and it and its destructor shut
  -- down and accept nothing.
  pub accept_client-none :
      (k poller server : ℤ) (t : Trace)
      → is_neg k ≡ false
      → is_neg (os t (accept server)).value ≡ true
      → let (fd, c, t') = accept_client os (new_client poller server) t in
        (fd ≡ minus_one)
        × (accepts k (destroy_client os c t') ≡ accepts k t)
        × (shutdowns k (destroy_client os c t') ≡ shutdowns k t)
  unfolding accept_client accepted default_acception new_client destroy_client accepts shutdowns
  accept_client-none k poller server t h e =
      rw (e, neg_ne (os t (accept server)).value k e h) (refl, refl, refl)

  -- A step that ends with the descriptor `fd`, and neither accepts nor shuts down any.
  abbrev Sets : ℤ → ℤ → Trace → ℤ × Trace → Type 0
  Sets k fd t (result, t') =
      (result ≡ fd) × (accepts k t' ≡ accepts k t) × (shutdowns k t' ≡ shutdowns k t)

  module _ (h : IsHealthy os) (k : ℤ) where
    set_nodelay_step-Sets : (fd : ℤ) (t : Trace) → Sets k fd t (set_nodelay_step os fd t)
    unfolding set_nodelay_step accepts shutdowns
    set_nodelay_step-Sets fd t = rw (h.nodelay_set t fd) (refl, refl, refl)

    set_flags_step-Sets : (fd flags : ℤ) (t : Trace) → Sets k fd t (set_flags_step os fd flags t)
    unfolding set_flags_step accepts shutdowns
    set_flags_step-Sets fd flags t =
        rw (h.flags_set t fd (with_nonblock flags)) (set_nodelay_step-Sets fd _)

    get_flags_step-Sets : (fd : ℤ) (t : Trace) → Sets k fd t (get_flags_step os fd t)
    unfolding get_flags_step accepts shutdowns
    get_flags_step-Sets fd t =
        rw (h.flags_read t fd, h.flags_open t fd)
          (set_flags_step-Sets fd (os t (get_flags fd)).value _)

    pub default_acception-healthy :
        (server : ℤ) (t : Trace)
        → is_neg (os t (accept server)).value ≡ false
        → (default_acception os server t).0 ≡ (os t (accept server)).value
    unfolding default_acception
    default_acception-healthy server t e = rw e ((get_flags_step-Sets _ _).0)

    accepted-healthy :
        (fd poller server : ℤ) (t : Trace)
        → is_neg fd ≡ false
        → let (result, c, t') = accepted os (new_client poller server) (fd, t) in
          (result ≡ fd)
          × (c.client_fd ≡ fd)
          × (c.is_connected ≡ true)
          × (accepts k t' ≡ accepts k t)
          × (shutdowns k t' ≡ shutdowns k t)
    unfolding accepted reader_registered writer_registered set_reader set_writer new_client accepts
        shutdowns
    accepted-healthy fd poller server t e =
        let t₁ = (add_event poller fd reading, os t (add_event poller fd reading)) ∷ t in
        rw
          (
            ne_neg fd minus_one e refl,
            h.event_added t poller fd reading,
            h.event_added t₁ poller fd writing,
          )
          (refl, refl, refl, refl, refl)

    -- The kernel has one: the object is connected to its descriptor, which is accepted once more
    -- and not shut down.
    pub accept_client-healthy :
        (poller server : ℤ) (t : Trace)
        → is_neg (os t (accept server)).value ≡ false
        → let (fd, c, t') = accept_client os (new_client poller server) t in
          (fd ≡ (os t (accept server)).value)
          × (c.client_fd ≡ fd)
          × (c.is_connected ≡ true)
          × (accepts k t' ≡ plus_if (fd == k) (accepts k t))
          × (shutdowns k t' ≡ shutdowns k t)
    unfolding accept_client default_acception new_client accepts shutdowns
    accept_client-healthy poller server t e =
        let fd = (os t (accept server)).value in
        let t₁ = (accept server, os t (accept server)) ∷ t in
        let (same, a, s) = get_flags_step-Sets fd t₁ in
        let after = (get_flags_step os fd t₁).1 in
        let (r, c, up, a', s') = accepted-healthy fd poller server after e in
        rw (e, same)
          (
            r,
            c ∙ sym r,
            up,
            a' ∙ a ∙ ap (λ (x : ℤ). plus_if (x == k) (accepts k t)) (sym r),
            s' ∙ s,
          )
