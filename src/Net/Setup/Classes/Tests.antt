-- ===== src/Net/Setup/Classes/Tests.antt =====
-- Runs of the constructors in Socket/SocketBase/.
use mux.Prelude.{◌≡◌, refl, ◌≢◌, true, false, none, some, [], ◌∷◌, nat_eq, bytes_eq}
use mux.Prelude.Int.{ℤ, pos, minus_one, int_eq}
use mux.Net.System.{next_entry, open_socket, create_poller, watch, epoll_add, Reply, Os}
use mux.Net.Setup.{Metadata, Base, create, bind, listen, set_nonblocking, set_reuse_address}
use mux.Net.Setup.Classes.{
  unwritable, complete, need, watch_event, add_epoll, kqueue_members, epoll_members, uring_members,
  kqueue_interests, epoll_interests, ring_readable, ring_writable, listen_first, bind_first,
  nonblocking_first, reuse_first, create_first, allocate, writable_last, readable_last,
  construct_polled, kqueue_socket, epoll_socket, uring_socket,
}
use mux.Net.System.{other}
use mux.Net.Setup.Release.{closes}
use mux.Net.Setup.Classes.Registration.{RefusesTwice, epoll_socket-IsUnfinished}
use mux.Net.Setup.Classes.Leak.{kqueue_class, constructed, polled_class, unmade, unmade-made}

abbrev answer : ℤ → Reply
answer v = record { value = v; errno = other }

-- A kernel that refuses to register twice in a row. The socket is 4 and the poller 3.
abbrev linux : Os
linux ((epoll_add p fd k, r) ∷ t) (epoll_add q g l) = answer minus_one
linux t open_socket = answer (pos 4)
linux t create_poller = answer (pos 3)
linux t call = answer (pos 0)

linux_refuses : RefusesTwice linux
linux_refuses p fd k l r t h = refl

abbrev stream : Metadata
stream = record { is_stream = true; backlog = 64000 }

epoll_socket-IsUnfinished_example :
    ((epoll_socket linux stream []).0.halt ≢ complete)
    × ((epoll_socket linux stream []).0.has_events ≡ false)
epoll_socket-IsUnfinished_example = epoll_socket-IsUnfinished linux linux_refuses stream []

-- All goes well until the second registration.
second_refused : (epoll_socket linux stream []).0.halt ≡ unwritable
unfolding epoll_socket construct_polled create_first reuse_first nonblocking_first bind_first
    listen_first need create bind listen set_nonblocking set_reuse_address epoll_members
    epoll_interests readable_last writable_last add_epoll
second_refused = refl

-- A kernel that reports an event for each registration.
abbrev darwin : Os
darwin t open_socket = answer (pos 4)
darwin t create_poller = answer (pos 3)
darwin t (watch p fd k) = answer (pos 1)
darwin t call = answer (pos 0)

unmade-made_example :
    let class = polled_class (kqueue_class (λ t. false)) in
    let (o, after) = constructed darwin (kqueue_class (λ t. false)) stream [] in
    closes o.base.socket (unmade darwin class o after) ≡ closes o.base.socket []
unfolding kqueue_socket construct_polled create_first reuse_first nonblocking_first bind_first
    listen_first need create bind listen set_nonblocking set_reuse_address kqueue_members
    kqueue_interests readable_last writable_last watch_event allocate
unmade-made_example =
    unmade-made darwin (polled_class (kqueue_class (λ t. false))) stream []
      (constructed darwin (kqueue_class (λ t. false)) stream []).0 refl refl (λ e. cc)

uring_complete :
    (elim (uring_socket darwin stream []).0 [ some o ↦ o.has_events | none ↦ false ]) ≡ true
unfolding uring_socket create_first reuse_first nonblocking_first bind_first listen_first need
    create bind listen set_nonblocking set_reuse_address uring_members allocate
uring_complete = refl

-- A ring without room.
abbrev full : Os
full t next_entry = answer minus_one
full t call = answer (pos 1)

abbrev opened : Base
opened = record { socket = pos 4; poller = none }

full_ring : ((ring_readable full opened []).0 ≡ false) × ((ring_writable full opened []).0 ≡ none)
unfolding ring_readable ring_writable
full_ring = (refl, refl)
