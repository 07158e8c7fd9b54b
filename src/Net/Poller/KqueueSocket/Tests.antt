-- ===== src/Net/Poller/KqueueSocket/Tests.antt =====
-- A run of the handler of Socket/SocketBase/Kqueue.hpp on a small batch of events.
use mux.Prelude.{◌≡◌, refl, true, false, Option, none, some, List, [], ◌∷◌, nat_eq, bytes_eq}
use mux.Prelude.Int.{pos, int_eq}
use mux.Prelude.Map.{find, insert}
use mux.Net.System.{reading, writing, Os}
use mux.Net.Client.{ClientSocket}
use mux.Net.Poller.{Handler, Server}
use mux.Net.System.{other}
use mux.Net.Poller.Kqueue.{Event}
use mux.Net.Poller.Kqueue.Table.{Table, Keeps, Fits, insert-Table}
use mux.Net.Poller.KqueueSocket.{handler}
use mux.Net.Poller.KqueueSocket.Registered.{AnyKey, handler-Keeps}

abbrev zero_os : Os
zero_os t call = record { value = pos 0; errno = other }

abbrev echo : Handler
echo = record { on_client = λ c t. (pos 0, c, t); on_null = λ t. none }

abbrev seven : ClientSocket
seven = record {
  poller = pos 3;
  server_socket = pos 4;
  client_fd = pos 7;
  is_reader = true;
  is_writer = true;
  is_connected = true;
}

abbrev server : Server
server = record { socket = pos 4; poller = pos 3; clients = (pos 7, some seven) ∷ [] }

-- A connection, a client that can be written to, and the end of a client.
abbrev batch : List Event
batch =
    record { ident = pos 4; filter = some reading; is_eof = false; is_error = false }
    ∷ record { ident = pos 7; filter = some writing; is_eof = false; is_error = false }
    ∷ record { ident = pos 7; filter = some reading; is_eof = true; is_error = false }
    ∷ []

server-Table : Table AnyKey server.clients
unfolding insert find Fits
server-Table = insert-Table AnyKey (pos 7) (some seven) [] tt refl (λ k p h. elim (absent p h) [ ])
  where
    absent : (p : Option ClientSocket) → none ≡ some p → ⊥
    absent p h = cc

handler-Keeps_example : Keeps AnyKey ⊥ (handler zero_os echo echo (some batch) server [])
handler-Keeps_example =
    handler-Keeps zero_os echo echo (some batch) server [] (λ c t. refl) (λ c t. refl) server-Table
