-- ===== src/Programs/Hello/Tests.antt =====
-- Runs of the handlers of src/kqueue.cc.
use mux.Prelude.{◌≡◌, refl, true, Option, List, none, some, [], ◌∷◌, ◌++◌, length, nat_eq, bytes_eq}
use mux.Prelude.Int.{pos, minus_one, int_eq}
use mux.Prelude.Map.{find, insert}
use mux.Prelude.Decimal.{print_nat, read_nat}
use mux.Http.Message.{read_message}
use mux.Prelude.Bytes.{Bytes, codes}
use mux.Net.System.{reading, Trace, Os, accept, get_flags, again, other, recv, send}
use mux.Net.Client.{ClientSocket, read}
use mux.Net.Poller.{Server, running}
use mux.Net.Poller.Kqueue.{Event, next, handle_event}
use mux.Net.Poller.Kqueue.Stale.{plain}
use mux.Programs.Hello.{may_retry, on_readable, on_writable, hello_response, hello_main}
use mux.Programs.Hello.Accounts.{hello_main-IsBalanced}
use mux.Net.Client.Closing.{shutdowns}
use mux.Net.Setup.Release.{closes}
use mux.Net.Client.Balance.{accepts, IsHealthy}
use mux.Net.Poller.Kqueue.Preserves.{Holds}
use mux.Net.Poller.Kqueue.Held.{IsBalanced}
use mux.Programs.Hello.Answers.{handle_event-waits, handle_event-answers, delivered}

-- Nothing can be transferred yet; all else returns 0.
abbrev idle : Os
idle t (recv fd size) = record { value = minus_one; errno = again }
idle t (send fd text) = record { value = minus_one; errno = again }
idle t call = record { value = pos 0; errno = other }

abbrev guest : ClientSocket
guest = record {
  poller = pos 3;
  server_socket = pos 4;
  client_fd = pos 5;
  is_reader = true;
  is_writer = true;
  is_connected = true;
}

abbrev host : Server
host = record { socket = pos 4; poller = pos 3; clients = (pos 5, some guest) ∷ [] }

handle_event-waits_example :
    ((read idle 4095 guest []).0 ≡ pos 0)
    × ((on_readable idle).on_client guest []
        ≡ (minus_one, guest, (recv (pos 5) 4095, idle [] (recv (pos 5) 4095)) ∷ []))
    × ((s' : Server) × (t' : Trace) × (handle_event idle
            (on_readable idle)
            on_writable
            (plain (pos 5) reading)
            host
            []
          ≡ running next s' t')
        × (find (pos 5) s'.clients ≡ none)
        × (shutdowns (pos 5) t' ≡ 1)
        × (closes (pos 5) t' ≡ 1))
unfolding find may_retry shutdowns closes
handle_event-waits_example =
    handle_event-waits idle (pos 5) guest host [] refl refl refl refl refl refl refl (λ u. refl)

twelve : length (codes "Hello World!") ≡ 12
twelve = refl

-- A client has sent 6 bytes, and takes all that it is sent.
abbrev talking : Os
talking t (recv fd size) = record { value = pos 6; errno = other }
talking t (send fd text) = record { value = pos (length text); errno = other }
talking t call = record { value = pos 0; errno = other }

abbrev asked : Trace
asked = (recv (pos 5) 4095, record { value = pos 6; errno = other }) ∷ []

handle_event-answers_example :
    let t' : Trace =
      (send (pos 5) hello_response, talking asked (send (pos 5) hello_response)) ∷ asked in
    (handle_event talking (on_readable talking) on_writable (plain (pos 5) reading) host []
      ≡ running next (record host { clients = insert (pos 5) (some guest) host.clients }) t')
    × ((answer : Bytes) × (delivered (pos 5) t' ≡ delivered (pos 5) [] ++ answer)
        × (read_message answer
            ≡ some (record {
              start = codes "HTTP/1.1 200 OK";
              fields =
                  (codes "Content-Type", codes "text/plain")
                  ∷ (codes "Content-Length", print_nat (length (codes "Hello World!")))
                  ∷ [];
              body = codes "Hello World!";
            })))
    × (read_nat (print_nat (length (codes "Hello World!"))) ≡ some (length (codes "Hello World!")))
unfolding find
handle_event-answers_example =
    handle_event-answers talking (pos 5) guest host [] refl refl refl refl refl refl refl

-- Accepted sockets are open, and the next connection is always 5.
abbrev ready : Os
ready t (accept server) = record { value = pos 5; errno = other }
ready t (get_flags fd) = record { value = pos 2; errno = other }
ready t (recv fd size) = record { value = pos 6; errno = other }
ready t call = record { value = pos 0; errno = other }

ready-IsHealthy : IsHealthy ready
ready-IsHealthy = record {
  flags_read = λ t fd. refl;
  flags_open = λ t fd. refl;
  flags_set = λ t fd flags. refl;
  nodelay_set = λ t fd. refl;
  event_added = λ t poller fd filter. refl;
}

-- A connection, something to read from it, and one more connection.
abbrev visits : List (Option (List Event))
visits =
    some (plain (pos 0) reading ∷ (plain (pos 5) reading ∷ []))
    ∷ (none ∷ (some (plain (pos 0) reading ∷ []) ∷ []))

hello_main-IsBalanced_example :
    Holds IsBalanced
      (Unit {0})
      (hello_main ready (record { is_stream = true; backlog = 64000 }) (pos 7) visits [])
unfolding shutdowns accepts
hello_main-IsBalanced_example =
    hello_main-IsBalanced ready ready-IsHealthy (record { is_stream = true; backlog = 64000 })
      (pos 7) visits [] (λ k. refl)
