-- ===== src/Net/Client/Closed.antt =====
-- Socket/ClientSocket.hpp: how often a descriptor is closed.
use mux.Prelude.{suc, ◌≡◌, refl, ap, ◌∙◌, true, false, arith, nat_eq, bytes_eq, eq_self}
use mux.Prelude.Int.{ℤ, int_eq, is_neg}
use mux.Net.System.{shutdown, Trace, Os}
use mux.Net.Client.{
  ClientSocket, safety_close, remove_reader, remove_writer, unregister, close_client,
  destroy_client,
}
use mux.Net.Client.Closing.{unregister-client_fd}
use mux.Net.Setup.Release.{closes}

module _ (os : Os) where
  closes-unregister :
      (k : ℤ) (c : ClientSocket) (t : Trace) → closes k (unregister os c t).1 ≡ closes k t
  unfolding unregister remove_reader remove_writer closes
  closes-unregister k c t = ground arith

  closes-safety_close :
      (fd same_fd : ℤ) (t : Trace)
      → same_fd ≡ fd
      → ((u : Trace) → is_neg (os u (shutdown fd)).value ≡ false)
      → closes fd (safety_close os same_fd t).1 ≡ suc (closes fd t)
  unfolding safety_close closes
  closes-safety_close fd same_fd t e works = rw (e, works t, eq_self fd) refl

  -- `close` on a connected client, with the destructor behind it, closes its descriptor once, where
  -- `shutdown` works on it.
  pub closes-destroy-close :
      (fd : ℤ) (c : ClientSocket) (t : Trace)
      → c.client_fd ≡ fd
      → is_neg fd ≡ false
      → c.is_connected ≡ true
      → ((u : Trace) → is_neg (os u (shutdown fd)).value ≡ false)
      → let (_, c', t') = close_client os c t in
        closes fd (destroy_client os c' t') ≡ suc (closes fd t)
  unfolding close_client destroy_client
  closes-destroy-close fd c t same h e works =
      let up = record c { is_connected = true; client_fd = fd } in
      rw (e, same, h)
        (closes-safety_close fd _ _ (unregister-client_fd os up t) works
          ∙ ap suc (closes-unregister fd up t))
