-- ===== src/Net/Poller/Epoll/Tests.antt =====
-- A run of the polling handlers for epoll and io_uring.
use mux.Prelude.{◌≡◌, refl, Option, List, none, some, [], ◌∷◌, nat_eq, bytes_eq}
use mux.Prelude.Int.{ℤ, pos, int_eq}
use mux.Prelude.Map.{find}
use mux.Net.System.{accept, get_flags, Trace, Os, other}
use mux.Net.Client.{ClientSocket}
use mux.Net.Poller.{Handler, Server}
use mux.Net.Poller.Kqueue.Table.{Table}
use mux.Net.Poller.Epoll.{epoll_handler, io_uring_handler}
use mux.Net.Poller.KqueueSocket.Registered.{AnyKey}
use mux.Net.Client.Balance.{accepts, IsHealthy}
use mux.Net.Client.Closing.{shutdowns}
use mux.Net.Poller.Epoll.{EpollEvent, Completion}
use mux.Net.Poller.Kqueue.Preserves.{Holds}
use mux.Net.Poller.Kqueue.Held.{IsBalanced, IsNeutral}
use mux.Net.Poller.Epoll.Balance.{polling_handlers-IsBalanced}
use mux.Net.Poller.Epoll.Clients.{Registers, polling_handlers-Keep}

abbrev steady : Handler
steady = record { on_client = λ c t. (pos 1, c, t); on_null = λ t. none }

abbrev quiet : Server
quiet = record { socket = pos 4; poller = pos 3; clients = [] }

quiet-Table : Table AnyKey quiet.clients
unfolding find
quiet-Table k p h = elim (no_value p h) [ ]
  where
    no_value : (p : Option ClientSocket) → none ≡ some p → ⊥
    no_value p h = cc

-- Accepted sockets are open, and the next connection is always 5.
abbrev open_sockets : Os
open_sockets t (accept server) = record { value = pos 5; errno = other }
open_sockets t (get_flags fd) = record { value = pos 2; errno = other }
open_sockets t call = record { value = pos 0; errno = other }

open_sockets-IsHealthy : IsHealthy open_sockets
open_sockets-IsHealthy = record {
  flags_read = λ t fd. refl;
  flags_open = λ t fd. refl;
  flags_set = λ t fd flags. refl;
  nodelay_set = λ t fd. refl;
  event_added = λ t poller fd filter. refl;
}

steady-IsNeutral : IsNeutral steady
steady-IsNeutral = record {
  same_client = λ c t. (refl, refl);
  same_counts = λ k c t. (refl, refl);
  null_counts = λ k t r h. elim (never r h) [ ];
}
  where
    never : (r : ℤ × Trace) → none ≡ some r → ⊥
    never r h = cc

quiet-IsBalanced : IsBalanced quiet []
unfolding find shutdowns accepts
quiet-IsBalanced = record { placed = λ k p h. (tt, (quiet-Table k p h).1); level = λ k z. refl }

-- A connection, something to read and room to write, and a hang-up.
abbrev visit : List EpollEvent
visit =
    record { fd = pos 4; events = 1 }
    ∷ (record { fd = pos 5; events = 5 } ∷ (record { fd = pos 5; events = 16 } ∷ []))

abbrev ring_visit : List Completion
ring_visit =
    record { user_data = pos 4; res = pos 1 } ∷ (record { user_data = pos 5; res = pos 5 } ∷ [])

polling_handlers-IsBalanced_example :
    Holds IsBalanced (Unit {0}) (epoll_handler open_sockets steady steady (some visit) quiet [])
    × Holds IsBalanced (Unit {0}) (io_uring_handler open_sockets steady steady ring_visit quiet [])
polling_handlers-IsBalanced_example =
    polling_handlers-IsBalanced open_sockets steady steady open_sockets-IsHealthy steady-IsNeutral
      steady-IsNeutral (some visit) ring_visit quiet [] quiet-IsBalanced

polling_handlers-Keep_example :
    Registers (epoll_handler open_sockets steady steady (some visit) quiet [])
    × Registers (io_uring_handler open_sockets steady steady ring_visit quiet [])
polling_handlers-Keep_example =
    polling_handlers-Keep open_sockets steady steady (some visit) ring_visit quiet [] (λ c t. refl)
      (λ c t. refl) quiet-Table
