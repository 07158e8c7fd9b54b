-- ===== src/Net/Setup/Quiet.antt =====
-- Socket/Poller/Server.hpp: the constructor of SocketBase neither accepts nor shuts down.
use mux.Prelude.{none, some, ◌∷◌, ◌≡◌, arith, true, nat_eq, bytes_eq}
use mux.Prelude.Int.{ℤ, minus_one, int_eq}
use mux.Net.System.{create_poller, Trace, Os}
use mux.Net.Client.Closing.{shutdowns}
use mux.Net.Client.Balance.{accepts}
use mux.Net.Setup.{
  Metadata, Base, create, bind, listen, set_nonblocking, set_reuse_address,
  set_poller_readable_writable, listening, interested, polled, bound, nonblocking, reusing,
  construct,
}

-- No descriptor was accepted or shut down between two traces.
abbrev pub Quiet : ℤ → Trace → Trace → Type 0
Quiet k t t' = (shutdowns k t' ≡ shutdowns k t) × (accepts k t' ≡ accepts k t)

module _ (os : Os) (k : ℤ) (m : Metadata) where
  listening-Quiet : (b : Base) (t : Trace) → Quiet k t (listening os m b t).2
  unfolding listening listen shutdowns accepts
  listening-Quiet b t = ground arith

  interested-Quiet : (p : ℤ) (b : Base) (t : Trace) → Quiet k t (interested os m p b t).2
  unfolding interested set_poller_readable_writable shutdowns accepts
  interested-Quiet p b t =
      ground (arith, listening-Quiet b (set_poller_readable_writable os b.socket p t).1)

  polled-Quiet : (b : Base) (t : Trace) → Quiet k t (polled os m b t).2
  unfolding polled shutdowns accepts
  polled-Quiet b t =
      let r = os t create_poller in
      ground (
        arith,
        interested-Quiet r.value (record b { poller = some r.value }) ((create_poller, r) ∷ t),
      )

  bound-Quiet : (b : Base) (t : Trace) → Quiet k t (bound os m b t).2
  unfolding bound bind shutdowns accepts
  bound-Quiet b t = ground (arith, polled-Quiet b (bind os b t).1)

  nonblocking-Quiet : (b : Base) (t : Trace) → Quiet k t (nonblocking os m b t).2
  unfolding nonblocking set_nonblocking shutdowns accepts
  nonblocking-Quiet b t = ground (arith, bound-Quiet b (set_nonblocking os true b t).1)

  reusing-Quiet : (b : Base) (t : Trace) → Quiet k t (reusing os m b t).2
  unfolding reusing set_reuse_address shutdowns accepts
  reusing-Quiet b t = ground (arith, nonblocking-Quiet b (set_reuse_address os true b t).1)

  pub construct-Quiet : (t : Trace) → Quiet k t (construct os m t).2
  unfolding construct create shutdowns accepts
  construct-Quiet t =
      let (_, b, t₁) = create os (record { socket = minus_one; poller = none }) t in
      ground (arith, reusing-Quiet b t₁)
