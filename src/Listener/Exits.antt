-- ===== src/Listener/Exits.antt =====
-- mux/Listener.hpp: when `main` returns.
use mux.Prelude.{arith, ◌≡◌, ◌||◌, some, none, if◌then◌else◌}
use mux.Prelude.Int.{is_neg}
use mux.Net.System.{open_socket, bind_address, Trace, Os, sys}
use mux.Listener.{start_listening, listener_main, exit_code}

-- `main` returns, with 0, exactly where no socket could be opened or bound; whether `listen`
-- succeeded makes no difference.
listener_main_lem :
    (os : Os) (t : Trace)
    → (let (s, t₁) = sys os open_socket t in
        let (b, _) = sys os (bind_address s.value) t₁ in
        (listener_main os t).0 ≡ (if is_neg s.value || is_neg b.value then some 0 else none))
unfolding listener_main start_listening exit_code
listener_main_lem os t = ground arith
