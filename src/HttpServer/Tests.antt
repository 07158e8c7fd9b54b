-- ===== src/HttpServer/Tests.antt =====
-- Runs of the server of mux/HTTP.hpp.
use mux.Prelude.{◌+◌, ◌≡◌, refl, Bool, true, Option, none, some, List, [], ◌∷◌, nat_eq, bytes_eq}
use mux.Prelude.Int.{pos, int_eq}
use mux.Prelude.Bytes.{Bytes, codes}
use mux.Net.System.{accept, open_socket, create_poller, read_from, Trace, Os}
use mux.HttpServer.{
  Outcome, finished, thrown, undefined, HttpSocket, Event, client_event, resume_kqueue,
  resume_epoll,
}
use mux.Net.System.{other}
use mux.Net.Setup.Release.{closes}
use mux.HttpServer.Undefined.{IsBroken, reaches_client, resume-IsBroken}
use mux.HttpServer.Closing.{harmless, client_event-closes}

-- The socket is 4 and the poller 3; a client is 5 and has sent 6 bytes.
abbrev host : Os
host t open_socket = record { value = pos 4; errno = other }
host t create_poller = record { value = pos 3; errno = other }
host t (accept fd) = record { value = pos 5; errno = other }
host t (read_from fd size) = record { value = pos 6; errno = other }
host t call = record { value = pos 0; errno = other }

abbrev hello : Trace → Bytes
hello t = codes "hello\n"

abbrev server : HttpSocket
server = record { server_socket = pos 4; port = pos 3736 }

abbrev connects : Event
connects = record { ident = pos 4; is_readable = true }

abbrev sends : Event
sends = record { ident = pos 5; is_readable = true }

abbrev talk : List (Option (List Event))
talk = some (connects ∷ []) ∷ (some (sends ∷ []) ∷ [])

abbrev silence : List (Option (List Event))
silence = some (connects ∷ []) ∷ (none ∷ [])

resume-IsBroken_example :
    IsBroken (resume_kqueue host undefined hello server talk [])
    × IsBroken (resume_epoll host undefined hello server talk [])
unfolding reaches_client
resume-IsBroken_example = resume-IsBroken host hello server talk [] refl

client_event-closes_example :
    (after : Trace) × (client_event host harmless hello (pos 5) [] ≡ finished tt after)
    × (closes (pos 5) after ≡ closes (pos 5) [] + 2)
client_event-closes_example = client_event-closes host hello (pos 5) [] refl

-- What the loop has done when its wait fails.
abbrev traced : Outcome Bool → Trace
traced (finished b t) = t
traced (thrown t) = t
traced (undefined t) = t
