-- ===== src/Programs/Echo/Tests.antt =====
-- Runs of src/Socket.cc.
use mux.Prelude.{◌+◌, ◌≡◌, refl, [], ◌∷◌, arith, nat_eq, bytes_eq}
use mux.Prelude.Int.{pos, minus_one, int_eq}
use mux.Programs.Echo.{open_echo, echo_events}
use mux.Net.System.{open_socket, create_poller, listen_on, Os, other}
use mux.Net.Setup.Release.{closes}
use mux.Programs.Echo.Closes.{if_returned, open_echo-closes, echo_events-twice}

-- The socket is 4 and the poller 3, and nobody can listen.
abbrev deaf : Os
deaf t open_socket = record { value = pos 4; errno = other }
deaf t create_poller = record { value = pos 3; errno = other }
deaf t (listen_on fd n) = record { value = minus_one; errno = other }
deaf t call = record { value = pos 0; errno = other }

open_echo-closes_example :
    let (o, after) = open_echo deaf [] in closes (pos 4) after ≡ closes (pos 4) [] + if_returned o
open_echo-closes_example = open_echo-closes deaf [] (λ e. cc) (λ t e. ground arith)

closed_twice :
    closes
      (pos 5)
      (echo_events deaf
        (pos 5 ∷ (pos 5 ∷ []))
        (record { server_fd = pos 4; kq = pos 3; client_fds = pos 5 ∷ [] })
        []).1
    ≡ closes (pos 5) [] + 2
closed_twice =
    echo_events-twice deaf (pos 5) (λ t. refl)
      (record { server_fd = pos 4; kq = pos 3; client_fds = pos 5 ∷ [] }) [] refl
