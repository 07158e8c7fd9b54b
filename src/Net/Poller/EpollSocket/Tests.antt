-- ===== src/Net/Poller/EpollSocket/Tests.antt =====
-- Runs of the handlers of EpollSocket and IoUringSocket.
use mux.Prelude.{◌≡◌, refl, true, false, Option, List, none, some, [], ◌∷◌, nat_eq, bytes_eq}
use mux.Prelude.Int.{pos, int_eq}
use mux.Prelude.Map.{find, insert}
use mux.Net.System.{accept, get_flags, Os, other}
use mux.Net.Client.{ClientSocket}
use mux.Net.Poller.{Handler, Server}
use mux.Net.Poller.Kqueue.Table.{Table, Keeps, Fits, insert-Table}
use mux.Net.Poller.Epoll.{EpollEvent}
use mux.Net.Poller.KqueueSocket.Registered.{AnyKey}
use mux.Net.Poller.EpollSocket.{Cqe, epoll_socket_handler, io_uring_socket_handler}
use mux.Net.Poller.EpollSocket.Registered.{socket_handlers-Keep}

-- Accepted sockets are open, and the next connection is always 6.
abbrev open_sockets : Os
open_sockets t (accept listening) = record { value = pos 6; errno = other }
open_sockets t (get_flags fd) = record { value = pos 2; errno = other }
open_sockets t call = record { value = pos 0; errno = other }

abbrev steady : Handler
steady = record { on_client = λ c t. (pos 1, c, t); on_null = λ t. none }

abbrev guest : ClientSocket
guest = record {
  poller = pos 3;
  server_socket = pos 4;
  client_fd = pos 5;
  is_reader = true;
  is_writer = false;
  is_connected = true;
}

abbrev visited : Server
visited = record { socket = pos 4; poller = pos 3; clients = (pos 5, some guest) ∷ [] }

visited-Table : Table AnyKey visited.clients
unfolding insert find Fits
visited-Table =
    insert-Table AnyKey (pos 5) (some guest) [] tt refl (λ k p h. elim (no_value p h) [ ])
  where
    no_value : (p : Option ClientSocket) → none ≡ some p → ⊥
    no_value p h = cc

-- A connection, something to read and room to write, and a hang-up.
abbrev visit : List EpollEvent
visit =
    record { fd = pos 4; events = 1 }
    ∷ (record { fd = pos 5; events = 5 } ∷ (record { fd = pos 5; events = 16 } ∷ []))

abbrev ring_visit : List Cqe
ring_visit =
    record { fd = pos 4; res = pos 1; flags = 2 }
    ∷ (record { fd = pos 5; res = pos 5; flags = 2 } ∷ [])

socket_handlers-Keep_example :
    Keeps AnyKey ⊥ (epoll_socket_handler open_sockets steady steady (some visit) visited [])
    × Keeps AnyKey ⊥ (io_uring_socket_handler open_sockets steady steady 4 ring_visit visited [])
socket_handlers-Keep_example =
    socket_handlers-Keep open_sockets steady steady (some visit) 4 ring_visit visited []
      (λ c t. refl) (λ c t. refl) visited-Table
