-- ===== src/Net/Setup/Tests.antt =====
-- A run of the constructor of Socket/Poller/Server.hpp.
use mux.Prelude.{◌≡◌, refl, ◌≢◌, true, false, some, [], nat_eq, bytes_eq}
use mux.Prelude.Int.{ℤ, pos, minus_one, int_eq, is_neg}
use mux.Net.System.{open_socket, create_poller, Os, other}
use mux.Net.Setup.{
  Metadata, Base, create, bind, listen, set_nonblocking, set_reuse_address,
  set_poller_readable_writable, listening, interested, polled, bound, nonblocking, reusing,
  construct,
}
use mux.Net.Setup.Ready.{calls, opening, construct-done}

-- The socket is 4 and the poller 3; every other call returns 0.
abbrev willing : Os
willing t open_socket = record { value = pos 4; errno = other }
willing t create_poller = record { value = pos 3; errno = other }
willing t call = record { value = pos 0; errno = other }

abbrev stream : Metadata
stream = record { is_stream = true; backlog = 64000 }

abbrev base : Base
base = record { socket = pos 4; poller = some (pos 3) }

construct-done_example :
    let (_, b, after) = construct willing stream [] in
    (p flags : ℤ) × (is_neg b.socket ≡ false)
    × (p ≢ minus_one)
    × (b.poller ≡ some p)
    × (calls after ≡ opening stream p flags [] b.socket)
unfolding construct create reusing set_reuse_address nonblocking set_nonblocking bound bind polled
    interested set_poller_readable_writable listening listen calls
construct-done_example = construct-done willing stream [] refl
