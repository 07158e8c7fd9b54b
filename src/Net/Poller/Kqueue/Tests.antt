-- ===== src/Net/Poller/Kqueue/Tests.antt =====
-- Runs of `pollingHandler` for kqueue on small batches of events.
use mux.Prelude.{
  arith, inl, ◌≡◌, refl, ◌≢◌, true, Option, none, some, List, [], ◌∷◌, nat_eq, bytes_eq,
}
use mux.Prelude.Int.{ℤ, pos, minus_one, int_eq, is_pos}
use mux.Prelude.Map.{find, insert}
use mux.Net.System.{accept, get_flags, reading, writing, Trace, Os}
use mux.Net.Client.{ClientSocket, accept_client}
use mux.Net.Client.Balance.{IsHealthy, default_acception-healthy}
use mux.Net.Client.Accepting.{accept_client-connected}
use mux.Net.Poller.{Handler, Server, faulted}
use mux.Net.Poller.Kqueue.{Event, handle_events, polling_handler}
use mux.Net.System.{other}
use mux.Net.Poller.{and_then, running}
use mux.Net.Poller.Kqueue.{handle_event}
use mux.Net.Poller.Kqueue.Reduce.{reduce_events, ended}
use mux.Net.Poller.Kqueue.Resumed.{reduce_events-handle_event}
use mux.Net.Poller.Kqueue.Table.{Table, Keeps, Fits, insert-Table}
use mux.Net.Poller.Kqueue.Safety.{polling_handler-Keeps, polling_handler-stays}
use mux.Net.Poller.Kqueue.Preserves.{Holds}
use mux.Net.Poller.Kqueue.Sources.{Source, OnlyAdds, polling_handler-Sourced}
use mux.Net.Poller.Kqueue.Stale.{plain, handle_events-stale}

-- Every call of the system returns 0.
abbrev zero_os : Os
zero_os t call = record { value = pos 0; errno = other }

-- A handler that leaves its client alone, returns `status`, and follows its pointer.
abbrev returns : ℤ → Handler
returns status = record { on_client = λ c t. (status, c, t); on_null = λ t. none }

abbrev five : ClientSocket
five = record {
  poller = pos 3;
  server_socket = pos 4;
  client_fd = pos 5;
  is_reader = true;
  is_writer = true;
  is_connected = true;
}

abbrev server : Server
server = record { socket = pos 4; poller = pos 3; clients = (pos 5, some five) ∷ [] }

abbrev batch : List Event
batch = plain (pos 4) reading ∷ (plain (pos 5) reading ∷ (plain (pos 6) writing ∷ []))

server-Table : (Q : ℤ → Type 0) → Q (pos 5) → Table Q server.clients
unfolding insert find Fits
server-Table Q q = insert-Table Q (pos 5) (some five) [] q refl (λ k p h. elim (absent p h) [ ])
  where
    absent : (p : Option ClientSocket) → none ≡ some p → ⊥
    absent p h = cc

polling_handler-Keeps_example :
    Keeps
      (λ k. k ≢ minus_one)
      (Unit {0})
      (polling_handler zero_os (returns (pos 1)) (returns minus_one) (some batch) server [])
polling_handler-Keeps_example =
    polling_handler-Keeps zero_os (returns (pos 1)) (returns minus_one) (some batch) server []
      (λ c t. refl) (λ c t. refl) (server-Table (λ k. k ≢ minus_one) (λ e. cc))

-- Accepted sockets are open, and the next connection is always 7.
abbrev seven : Os
seven t (accept listening) = record { value = pos 7; errno = other }
seven t (get_flags fd) = record { value = pos 2; errno = other }
seven t call = record { value = pos 0; errno = other }

seven-IsHealthy : IsHealthy seven
seven-IsHealthy = record {
  flags_read = λ t fd. refl;
  flags_open = λ t fd. refl;
  flags_set = λ t fd flags. refl;
  nodelay_set = λ t fd. refl;
  event_added = λ t poller fd filter. refl;
}

accepts_seven :
    (c : ClientSocket) (t : Trace)
    → (accept_client seven c t).0 ≢ minus_one
    → is_pos (accept_client seven c t).0 ≡ true
accepts_seven c t n =
    let same = (accept_client-connected seven c t n).0 in
    let seventh = default_acception-healthy seven seven-IsHealthy (pos 0) c.server_socket t refl in
    rw (← same, seventh) refl

polling_handler-stays_example :
    Keeps
      (λ k. is_pos k ≡ true)
      ⊥
      (polling_handler seven (returns (pos 1)) (returns minus_one) (some batch) server [])
polling_handler-stays_example =
    polling_handler-stays seven (returns (pos 1)) (returns minus_one) (some batch) server []
      (λ c t. refl) (λ c t. refl) accepts_seven (refl, (refl, (refl, tt)))
      (server-Table (λ k. is_pos k ≡ true) refl)

handle_events-stale_example :
    (t' : Trace) × (handle_events zero_os
        (returns minus_one)
        (returns (pos 1))
        (plain (pos 5) reading ∷ plain (pos 5) writing ∷ [])
        server
        []
      ≡ faulted t')
unfolding find
handle_events-stale_example =
    handle_events-stale zero_os (returns minus_one) (returns (pos 1)) (pos 5) five [] server [] refl
      refl refl refl (λ t. refl)

returns-OnlyAdds : (status : ℤ) → OnlyAdds (returns status)
returns-OnlyAdds status = record {
  to_client = λ k c t. omega arith;
  to_null = λ k t r h. elim (never r h) [ ];
}
  where
    never : (r : ℤ × Trace) → none ≡ some r → ⊥
    never r h = cc

polling_handler-Sourced_example :
    Holds
      (λ s' t'. Table (Source server [] batch t') s'.clients)
      (Unit {0})
      (polling_handler seven (returns (pos 1)) (returns minus_one) (some batch) server [])
polling_handler-Sourced_example =
    polling_handler-Sourced seven (returns (pos 1)) (returns minus_one) batch server []
      (λ t fd. inl refl) (λ c t. refl) (λ c t. refl) (returns-OnlyAdds (pos 1))
      (returns-OnlyAdds minus_one) (server-Table (λ k. Unit {0}) tt)

reduce_events-handle_event_example :
    reduce_events zero_os (returns minus_one) (returns minus_one) (pos 5) (some reading) 3 server []
    ≡ and_then
        (handle_event zero_os
          (returns minus_one)
          (returns minus_one)
          (plain (pos 5) reading)
          server
          [])
        (λ _ s t. running ended s t)
reduce_events-handle_event_example =
    reduce_events-handle_event zero_os (returns minus_one) (returns minus_one)
      (plain (pos 5) reading) reading server [] refl refl
