-- ===== src/Net/Poller/Kqueue/Balance.antt =====
-- Socket/Poller/Helpers.hpp, where kqueue is: every accepted descriptor is shut down once, or is
-- still held by the table of clients.
use mux.Prelude.{
  [], ◌∷◌, ◌≢◌, All, ◌+◌, ◌≡◌, refl, ap, ◌∙◌, inl, inr, true, false, Option, none, some, List,
  arith, if◌then◌else◌, Bool-cases, ◌==◌, nat_eq, bytes_eq,
}
use mux.Prelude.Int.{ℤ, pos, minus_one, int_beq_iff, int_eq, is_neg, is_pos}
use mux.Prelude.Map.{find}
use mux.Net.System.{accept, Trace, Os}
use mux.Net.Client.{ClientSocket, new_client, accept_client, destroy_client}
use mux.Net.Client.Closing.{shutdowns}
use mux.Net.Client.Balance.{
  accepts, IsHealthy, plus_if, shutdowns-destroy-close, accepts-destroy-close, shutdowns-destroy,
  accepts-destroy, ne_neg, accept_client-none, accept_client-healthy,
}
use mux.Net.Poller.{
  Handler, Server, close_entry, close_found, close_socket, release, admit, accept_connection,
}
use mux.Net.Poller.Kqueue.{Event, polling_handler}
use mux.Net.Poller.Kqueue.Table.{Fits, insert-Table, erase-Table}
use mux.Net.Poller.Kqueue.Preserves.{Holds, handle_events-Holds}
use mux.Net.Poller.Kqueue.Held.{
  held, IsBalanced, IsNeutral, held-insert, held-erase, look_up-IsBalanced, call_handler-IsBalanced,
}

module _ (os : Os) where
  pub close_socket-IsBalanced :
      (fd : ℤ) (s : Server) (t : Trace)
      → IsBalanced s t
      → Holds IsBalanced (Unit {0}) (close_socket os fd s t)
  unfolding close_socket close_found close_entry Holds Fits
  close_socket-IsBalanced fd s t b = found (find fd s.clients) refl
    where
      entry :
          (p : Option ClientSocket)
          → find fd s.clients ≡ some p
          → Holds IsBalanced (Unit {0}) (close_entry os fd p s t)
      entry none e = tt
      entry (some c) e = record {
        placed = erase-Table (λ k. Unit) fd s.clients b.placed;
        level = λ k z. ground (
          arith,
          held-erase k fd s.clients,
          int_beq_iff fd k,
          int_beq_iff k c.client_fd,
          (b.placed fd (some c) e).1,
          shutdowns-destroy-close os k c t z,
          accepts-destroy-close os k c t,
          b.level k z,
        );
      }

      found :
          (o : Option (Option ClientSocket))
          → find fd s.clients ≡ o
          → Holds IsBalanced (Unit {0}) (close_found os fd o s t)
      found none e = b
      found (some p) e = elim (Bool-cases (is_pos fd)) [
        | inr n ↦ rw n tt
        | inl y ↦ rw y (entry p e)
      ]

  shutdowns-release :
      (k fd : ℤ) (s : Server) (t t' : Trace)
      → is_neg k ≡ false
      → IsBalanced s t
      → (shutdowns k (release os (find fd s.clients) t')
          ≡ shutdowns k t' + (if fd == k then held k s.clients else 0))
        × (accepts k (release os (find fd s.clients) t') ≡ accepts k t')
  unfolding release Fits
  shutdowns-release k fd s t t' z b = released (find fd s.clients) refl
    where
      released :
          (o : Option (Option ClientSocket))
          → find fd s.clients ≡ o
          → (shutdowns k (release os o t')
              ≡ shutdowns k t' + (if fd == k then held k s.clients else 0))
            × (accepts k (release os o t') ≡ accepts k t')
      released none e = (ground (arith, int_beq_iff fd k), refl)
      released (some none) e = (ground (arith, int_beq_iff fd k), refl)
      released (some (some c)) e = (
        ground (
          arith,
          int_beq_iff fd k,
          int_beq_iff k c.client_fd,
          (b.placed fd (some c) e).1,
          shutdowns-destroy os k c t' z,
        ),
        accepts-destroy os k c t',
      )

  admit-IsBalanced :
      (accepted : ℤ × ClientSocket × Trace) (s : Server) (t : Trace)
      → (accepted.0 == minus_one) ≡ false
      → accepted.1.client_fd ≡ accepted.0
      → accepted.1.is_connected ≡ true
      → ((k : ℤ)
          → (accepts k accepted.2 ≡ plus_if (accepted.0 == k) (accepts k t))
            × (shutdowns k accepted.2 ≡ shutdowns k t))
      → IsBalanced s t
      → Holds IsBalanced (Unit {0}) (admit os accepted s)
  unfolding admit Holds Fits
  admit-IsBalanced (fd, c, t') s t n same up counts b = rw n (record {
    placed = insert-Table (λ k. Unit) fd (some c) s.clients tt same b.placed;
    level = λ k z. ground (
      arith,
      held-insert k fd (some c) s.clients,
      shutdowns-release k fd s t t' z b,
      counts k,
      b.level k z,
    );
  })

  admit_none-IsBalanced :
      (accepted : ℤ × ClientSocket × Trace) (s : Server) (t : Trace)
      → accepted.0 ≡ minus_one
      → ((k : ℤ)
          → is_neg k ≡ false
          → (accepts k (destroy_client os accepted.1 accepted.2) ≡ accepts k t)
            × (shutdowns k (destroy_client os accepted.1 accepted.2) ≡ shutdowns k t))
      → IsBalanced s t
      → Holds IsBalanced (Unit {0}) (admit os accepted s)
  unfolding admit Holds
  admit_none-IsBalanced (fd, c, t') s t n counts b =
      rw n (record { placed = b.placed; level = λ k z. ground (arith, counts k z, b.level k z) })

  pub accept_connection-IsBalanced :
      IsHealthy os
      → (s : Server) (t : Trace) → IsBalanced s t
      → Holds IsBalanced (Unit {0}) (accept_connection os s t)
  unfolding accept_connection
  accept_connection-IsBalanced h s t b =
      let a = (os t (accept s.socket)).value in
      let c = new_client s.poller s.socket in
      elim (Bool-cases (is_neg a)) [
        | inl e ↦
            let refused =
              λ (k : ℤ) (z : is_neg k ≡ false). accept_client-none os k s.poller s.socket t z e in
            admit_none-IsBalanced (accept_client os c t) s t (refused (pos 0) refl).0
              (λ k z. ((refused k z).1, (refused k z).2)) b
        | inr e ↦
            let healthy = λ (k : ℤ). accept_client-healthy os h k s.poller s.socket t e in
            admit-IsBalanced (accept_client os c t) s t
              (ne_neg os (accept_client os c t).0 minus_one (rw (healthy a).0 e) refl) (healthy a).1
              (healthy a).2 (λ k. ((healthy k).3, (healthy k).4)) b
      ]

  -- The balance of one call: on a system on which the setup of a connection never fails, and with
  -- neutral handlers, what was accepted and not shut down is what the table holds, behind a call of
  -- the polling handler as before it.
  pub polling_handler-IsBalanced :
      (handle_read handle_write : Handler)
      → IsHealthy os
      → IsNeutral handle_read
      → IsNeutral handle_write
      → (batch : Option (List Event)) (s : Server) (t : Trace) → IsBalanced s t
      → Holds IsBalanced (Unit {0}) (polling_handler os handle_read handle_write batch s t)
  unfolding polling_handler Holds
  polling_handler-IsBalanced handle_read handle_write h r w none s t b = b
  polling_handler-IsBalanced handle_read handle_write h r w (some events) s t b =
      handle_events-Holds os handle_read handle_write IsBalanced (Unit {0}) (λ k. Unit)
        (λ fd s t q. look_up-IsBalanced fd s t)
        (λ fd p s t f. call_handler-IsBalanced handle_read fd p s t r (λ c e. f ∙ ap some e))
        (λ fd p s t f. call_handler-IsBalanced handle_write fd p s t w (λ c e. f ∙ ap some e))
        close_socket-IsBalanced (accept_connection-IsBalanced h) events s t (any events) b
    where
      any : (events : List Event) → All (λ e. e.ident ≢ minus_one → Unit {0}) events
      any [] = tt
      any (e ∷ rest) = (λ n. tt, any rest)
