-- ===== src/Net/Poller/Kqueue/Safety.antt =====
-- Socket/Poller/Helpers.hpp: one call of `pollingHandler` for kqueue and the table of clients.
use mux.Prelude.{◌≡◌, ◌≢◌, true, Option, none, some, List, [], ◌∷◌, All, nat_eq, bytes_eq}
use mux.Prelude.Int.{minus_one, int_eq, is_pos}
use mux.Net.System.{Trace, Os}
use mux.Net.Client.{ClientSocket, accept_client}
use mux.Net.Poller.{Handler, Server}
use mux.Net.Poller.Kqueue.{Event, polling_handler}
use mux.Net.Poller.Kqueue.Preserves.{Holds}
use mux.Net.Poller.Kqueue.Table.{Table, Keeps, KeepsFd, handle_events-Keeps}

-- Every client that is on record is under its own descriptor, and -1 is never a key. One call of
-- the polling handler keeps this on any batch of events, if the read and write handlers leave a
-- client its descriptor and the process goes on.
pub polling_handler-Keeps :
    (os : Os) (handle_read handle_write : Handler) (batch : Option (List Event)) (s : Server)
    (t : Trace)
    → KeepsFd handle_read
    → KeepsFd handle_write
    → Table (λ k. k ≢ minus_one) s.clients
    → Keeps (λ k. k ≢ minus_one) (Unit {0}) (polling_handler os handle_read handle_write batch s t)
unfolding polling_handler Holds
polling_handler-Keeps os hr hw none s t reads writes m = m
polling_handler-Keeps os hr hw (some events) s t reads writes m =
    handle_events-Keeps os (λ k. k ≢ minus_one) Unit (λ k q n. tt) hr hw reads writes (λ c t n. n)
      events s t (all events) m
  where
    all : (events : List Event) → All (λ e. e.ident ≢ minus_one → e.ident ≢ minus_one) events
    all [] = tt
    all (e ∷ rest) = (λ n. n, all rest)

abbrev pub IsPositive : Option (List Event) → Type 0
IsPositive none = Unit
IsPositive (some events) = All (λ e. is_pos e.ident ≡ true) events

-- If all keys of the table are positive and every client is under its own descriptor, the events
-- are about positive descriptors, what ClientSocket::accept returns is positive or -1, and the
-- handlers leave a client its descriptor, then one call of the polling handler does not call
-- `exit`, and if it does not follow a null pointer all keys are positive again, with every client
-- under its own descriptor.
pub polling_handler-stays :
    (os : Os) (handle_read handle_write : Handler) (batch : Option (List Event)) (s : Server)
    (t : Trace)
    → KeepsFd handle_read
    → KeepsFd handle_write
    → ((c : ClientSocket) (t : Trace)
        → (accept_client os c t).0 ≢ minus_one
        → is_pos (accept_client os c t).0 ≡ true)
    → IsPositive batch
    → Table (λ k. is_pos k ≡ true) s.clients
    → Keeps (λ k. is_pos k ≡ true) ⊥ (polling_handler os handle_read handle_write batch s t)
unfolding polling_handler Holds
polling_handler-stays os hr hw none s t reads writes accepts positive m = m
polling_handler-stays os hr hw (some events) s t reads writes accepts positive m =
    handle_events-Keeps os (λ k. is_pos k ≡ true) ⊥ (λ k q n. cc) hr hw reads writes accepts events
      s t (all events positive) m
  where
    all :
        (events : List Event)
        → All (λ e. is_pos e.ident ≡ true) events
        → All (λ e. e.ident ≢ minus_one → is_pos e.ident ≡ true) events
    all [] h = tt
    all (e ∷ rest) h = (λ n. h.0, all rest h.1)
