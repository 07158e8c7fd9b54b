-- ===== src/Net/Client/Tests.antt =====
-- Runs of the clients of Socket/ClientSocket.hpp on small operating systems.
use mux.Prelude.{suc, ◌≡◌, refl, ◌≢◌, ◌⊎◌, true, false, [], ◌∷◌, nat_eq, bytes_eq}
use mux.Prelude.Int.{ℤ, pos, minus_one, int_eq, is_neg}
use mux.Net.System.{accept, get_flags, add_event, other, Reply, Os}
use mux.Net.Client.{
  ClientSocket, new_client, set_nodelay_step, set_flags_step, get_flags_step, default_acception,
  set_reader, set_writer, abandon, writer_registered, reader_registered, accepted, accept_client,
  destroy_client,
}
use mux.Net.Client.Accepting.{Setup, default_acception-Setup, accept_client-connected}
use mux.Net.Client.Interest.{
  interest, Agrees, setting_reader, receiving, removing_writer, run_actions, run_actions-Agrees,
}
use mux.Net.Client.Closing.{shutdowns, accept_client-destroy_client}

abbrev answer : ℤ → Reply
answer n = record { value = n; errno = other }

-- Every call works, connections come on descriptor 5, and descriptors are open for both.
abbrev fine : Os
fine t (accept server) = answer (pos 5)
fine t (get_flags fd) = answer (pos 2)
fine t call = answer (pos 0)

-- No descriptor can be registered with the poller.
abbrev crowded : Os
crowded t (add_event poller fd filter) = answer minus_one
crowded t call = fine t call

-- The flags of a descriptor cannot be read.
abbrev no_flags : Os
no_flags t (get_flags fd) = answer minus_one
no_flags t call = fine t call

abbrev idle : ClientSocket
idle = new_client (pos 3) (pos 4)

abbrev ready_client : ClientSocket
ready_client = record idle { client_fd = pos 5; is_connected = true }

default_acception-Setup_example :
    let a = fine [] (accept (pos 4)) in
    let (result, after) = default_acception fine (pos 4) [] in
    ((is_neg a.value ≡ true) × (result ≡ minus_one) × (after ≡ (accept (pos 4), a) ∷ []))
    ⊎ ((is_neg a.value ≡ false) × Setup a.value ((accept (pos 4), a) ∷ []) result after)
default_acception-Setup_example = default_acception-Setup fine (pos 4) []

accepts_fine : (accept_client fine idle []).0 ≢ minus_one
unfolding accept_client default_acception get_flags_step set_flags_step set_nodelay_step accepted
    reader_registered writer_registered set_reader set_writer new_client
accepts_fine e = cc

accept_client-connected_example :
    let (fd, c', _) = accept_client fine idle [] in
    ((default_acception fine (pos 4) []).0 ≡ fd)
    × (c'.client_fd ≡ fd)
    × (c'.is_connected ≡ true)
    × (c'.is_reader ≡ true)
    × (c'.is_writer ≡ true)
unfolding new_client
accept_client-connected_example = accept_client-connected fine idle [] accepts_fine

run_actions-Agrees_example :
    let (c', t') =
      run_actions fine (setting_reader ∷ (receiving 10 ∷ (removing_writer ∷ []))) ready_client [] in
    Agrees c' t'
unfolding interest new_client
run_actions-Agrees_example =
    run_actions-Agrees fine (setting_reader ∷ (receiving 10 ∷ (removing_writer ∷ []))) ready_client
      [] (refl, refl)

refused : (accept_client crowded idle []).0 ≡ minus_one
unfolding accept_client default_acception get_flags_step set_flags_step set_nodelay_step accepted
    reader_registered writer_registered set_reader set_writer new_client abandon
refused = refl

offered : (default_acception crowded (pos 4) []).0 ≡ pos 5
unfolding default_acception get_flags_step set_flags_step set_nodelay_step
offered = refl

accept_client-destroy_client_example :
    let (fd, t₁) = default_acception crowded (pos 4) [] in
    let (_, c', t') = accept_client crowded idle [] in
    shutdowns fd (destroy_client crowded c' t') ≡ suc (suc (shutdowns fd t₁))
unfolding new_client
accept_client-destroy_client_example =
    accept_client-destroy_client crowded idle [] (rw offered refl) refused
