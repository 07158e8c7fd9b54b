-- ===== src/Net/Setup/Timeout.antt =====
-- Socket/Poller/Server.hpp: the timeouts of the listening socket.
use mux.Prelude.{ℕ, ◌+◌, ◌*◌, ◌/◌, ◌%◌, ◌<◌, ◌≡◌, refl, ◌∷◌, arith, ◌==◌, nat_eq, bytes_eq}
use mux.Prelude.Int.{pos, int_eq}
use mux.Net.System.{reading, writing, set_timeout, Trace, Os}
use mux.Net.Setup.{Base, set_send_timeout, set_recv_timeout}

-- A timeout of so many milliseconds is set in seconds and fewer than a million microseconds that
-- together are as long, by one call for sending or receiving; the result tells whether it worked.
pub set_send_timeout-set_recv_timeout :
    (os : Os) (milliseconds : ℕ) (b : Base) (t : Trace)
    → (seconds microseconds : ℕ) × (seconds * 1000000 + microseconds ≡ milliseconds * 1000)
      × (microseconds < 1000000)
      × (let call = set_timeout b.socket writing (pos seconds) (pos microseconds) in
          set_send_timeout os (pos milliseconds) b t
          ≡ ((os t call).value == pos 0, (call, os t call) ∷ t))
      × (let call = set_timeout b.socket reading (pos seconds) (pos microseconds) in
          set_recv_timeout os (pos milliseconds) b t
          ≡ ((os t call).value == pos 0, (call, os t call) ∷ t))
unfolding set_send_timeout set_recv_timeout
set_send_timeout-set_recv_timeout os milliseconds b t =
    (milliseconds / 1000, (milliseconds % 1000) * 1000, omega arith, omega arith, refl, refl)
