-- ===== src/Listener/Tests.antt =====
-- Runs of the server of mux/Listener.hpp.
use mux.Prelude.{◌≡◌, refl, false, some, List, [], ◌∷◌, nat_eq, bytes_eq}
use mux.Prelude.Int.{ℤ, pos, minus_one, int_eq}
use mux.Prelude.Bytes.{Bytes, codes}
use mux.Listener.{receiving, Process, Step, accepting, going, idle, run}
use mux.Listener.Accounts.{occurrences, IsAccounted, run-IsAccounted}
use mux.Listener.Drained.{run-finish}

-- Two clients, of which the second is served first.
abbrev two_clients : List Step
two_clients =
    accepting (pos 5)
    ∷ (accepting minus_one
        ∷ (accepting (pos 6) ∷ (going 1 (codes "GET /") ∷ (going 1 [] ∷ (going 1 [] ∷ [])))))

abbrev one_left : Process
one_left = record {
  terminated = false;
  threads = receiving (pos 5) ∷ [];
  handled = codes "GET /" ∷ [];
  closed = pos 6 ∷ [];
  accepted = pos 6 ∷ (pos 5 ∷ []);
  received = codes "GET /" ∷ [];
}

run-two_clients : run two_clients idle ≡ some one_left
unfolding run idle
run-two_clients = refl

run-IsAccounted_example : IsAccounted one_left
run-IsAccounted_example = run-IsAccounted two_clients one_left run-two_clients

run-finish_example :
    (rest : List Step) × (q : Process) × (run rest one_left ≡ some q)
    × (q.threads ≡ [])
    × ((fd : ℤ) → occurrences fd q.closed ≡ occurrences fd one_left.accepted)
    × ((r : Bytes) → occurrences r q.handled ≡ occurrences r one_left.received)
run-finish_example = run-finish two_clients one_left run-two_clients refl
