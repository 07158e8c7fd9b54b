-- ===== src/Net/Setup/Classes/Leak.antt =====
-- Socket/SocketBase/: the listening socket of an object that is made and destroyed.
use mathlib.Core.Path.{subst}
use mux.Prelude.{
  Option, none, sym, ◌∷◌, ℕ, ◌≡◌, refl, ◌∙◌, ◌≢◌, inl, inr, Bool, true, false, some, Bool-cases,
  ◌==◌, nat_eq, bytes_eq,
}
use mux.Prelude.Int.{ℤ, minus_one, int_eq, is_neg}
use mux.Net.System.{get_flags, create_poller, init_ring, Trace, Os}
use mux.Net.Setup.{
  Metadata, Base, create, bind, listen, set_nonblocking, set_reuse_address, destroy_base,
}
use mux.Net.Setup.Classes.{
  Members, unreadable, unwritable, Built, watch_event, add_epoll, kqueue_members, epoll_members,
  Interests, kqueue_interests, epoll_interests, create_first, allocate, writable_last,
  readable_last, construct_polled, kqueue_socket, epoll_socket, destroy_polled, uring_socket,
  uring_members, destroy_uring,
}
use mux.Net.Setup.Release.{closes, closes-minus_one, closes-close_poller}
use mux.Net.Setup.Classes.Ends.{need-Holds, if-Holds, create_first-Holds}

module _ (fd : ℤ) (n : ℕ) where
  -- `fd` was closed `n` times so far.
  abbrev Closed : Base → Trace → Type 0
  Closed b t = closes fd t ≡ n

  abbrev ClosedAt : Built × Trace → Type 0
  ClosedAt (o, t) = closes fd t ≡ n

  module _ (os : Os) where
    bind-Closed : (b : Base) (t : Trace) → Closed b t → Closed b (bind os b t).1
    unfolding bind closes
    bind-Closed b t q = elim (Bool-cases (is_neg b.socket)) [ inl e ↦ rw e q | inr e ↦ rw e q ]

    listen-Closed :
        (m : Metadata) (b : Base) (t : Trace) → Closed b t → Closed b (listen os m b t).1
    unfolding listen closes
    listen-Closed m b t q = elim (Bool-cases (is_neg b.socket)) [ inl e ↦ rw e q | inr e ↦ rw e q ]

    set_nonblocking-Closed :
        (b : Base) (t : Trace) → Closed b t → Closed b (set_nonblocking os true b t).1
    unfolding set_nonblocking closes
    set_nonblocking-Closed b t q =
        elim (Bool-cases ((os t (get_flags b.socket)).value == minus_one)) [
          | inl e ↦ rw e q
          | inr e ↦ rw e q
        ]

    -- The steps that the classes share, for members that have these five from SocketBase.
    setup-Closed :
        (x : Members) (m : Metadata) (rest : Base → Trace → Built × Trace)
        → x.create ≡ create os
        → x.set_reuse_address ≡ set_reuse_address os
        → x.set_nonblocking ≡ set_nonblocking os
        → x.bind ≡ bind os
        → x.listen ≡ listen os
        → ((b : Base) (t : Trace) → Closed b t → ClosedAt (rest b t))
        → (b : Base) (t : Trace) → Closed b t
        → ClosedAt (create_first x m rest b t)
    unfolding create set_reuse_address closes
    setup-Closed x m rest c r s i l goes =
        create_first-Holds Closed ClosedAt x m rest (λ h b t e q. q) goes (λ b t q. rw c q)
          (λ b t q. rw r q) (λ b t q. rw s (set_nonblocking-Closed b t q))
          (λ b t q. rw i (bind-Closed b t q)) (λ b t q. rw l (listen-Closed m b t q))

    polled-Closed :
        (x : Members) (i : Interests) (m : Metadata) (t : Trace)
        → ((b : Base) (t : Trace) → Closed b t → ClosedAt (create_first x m (readable_last i) b t))
        → closes fd t ≡ n
        → ClosedAt (construct_polled os x i m t)
    unfolding construct_polled closes
    polled-Closed x i m t created q =
        if-Holds ClosedAt ((os t create_poller).value == minus_one) _ _ q (created _ _ q)

    kqueue-Closed :
        (is_error : Trace → Bool) (m : Metadata) (t : Trace)
        → closes fd t ≡ n
        → ClosedAt (kqueue_socket os is_error m t)
    unfolding kqueue_socket kqueue_members kqueue_interests readable_last writable_last watch_event
        allocate closes
    kqueue-Closed is_error m t q =
        let x = kqueue_members os in
        let i = kqueue_interests os is_error in
        polled-Closed x i m t
          (setup-Closed x m (readable_last i) refl refl refl refl refl (λ b t q.
            need-Holds ClosedAt (i.set_readable b) unreadable (writable_last i) b t q
              (need-Holds ClosedAt (i.set_writable b) unwritable allocate b _ q q)))
          q

    epoll-Closed : (m : Metadata) (t : Trace) → closes fd t ≡ n → ClosedAt (epoll_socket os m t)
    unfolding epoll_socket epoll_members epoll_interests readable_last writable_last add_epoll
        allocate closes
    epoll-Closed m t q =
        let x = epoll_members os in
        let i = epoll_interests os in
        polled-Closed x i m t
          (setup-Closed x m (readable_last i) refl refl refl refl refl (λ b t q.
            need-Holds ClosedAt (i.set_readable b) unreadable (writable_last i) b t q
              (need-Holds ClosedAt (i.set_writable b) unwritable allocate b _ q q)))
          q

    uring-Closed :
        (m : Metadata) (t : Trace) (o : Built)
        → (uring_socket os m t).0 ≡ some o
        → closes fd t ≡ n
        → closes fd (uring_socket os m t).1 ≡ n
    unfolding uring_socket uring_members allocate closes
    uring-Closed m t o h q =
        let x = uring_members os in
        let b : Base = record { socket = minus_one; poller = none } in
        elim (Bool-cases (is_neg (os t (init_ring 32)).value)) [
          | inl e ↦ rw e q
          | inr e ↦ rw e (
              setup-Closed x m allocate refl refl refl refl refl (λ b t q. q) b
                ((init_ring 32, os t (init_ring 32)) ∷ t) q)
        ]

-- What of the sockets is closed by the destructor, behind a constructor that closed none.
destroy_polled-closes :
    (os : Os) (o : Built) (t : Trace)
    → is_neg o.base.socket ≡ false
    → o.base.poller ≢ some o.base.socket
    → closes o.base.socket (destroy_polled os o t) ≡ closes o.base.socket t
unfolding destroy_polled destroy_base
destroy_polled-closes os o t n d =
    closes-close_poller os o.base.socket o.base.poller _ d ∙ closes-minus_one os o.base.socket t n

-- The class of a polled socket.
pub data Polled : Type 0 where
  kqueue_class : (Trace → Bool) → Polled
  epoll_class : Polled

abbrev pub constructed : Os → Polled → Metadata → Trace → Built × Trace
constructed os (kqueue_class is_error) m t = kqueue_socket os is_error m t
constructed os epoll_class m t = epoll_socket os m t

-- A KqueueSocket or an EpollSocket whose constructor opened a socket, wherever it returned, never
-- closes it: constructor and destructor together call `close` on it not once, if the poller is
-- another descriptor. The destructor closes -1 in its place.
pub destroy_polled-constructed :
    (os : Os) (class : Polled) (m : Metadata) (t : Trace)
    → let (o, after) = constructed os class m t in
      is_neg o.base.socket ≡ false
      → o.base.poller ≢ some o.base.socket
      → closes o.base.socket (destroy_polled os o after) ≡ closes o.base.socket t
destroy_polled-constructed os (kqueue_class is_error) m t n d =
    destroy_polled-closes os _ _ n d ∙ kqueue-Closed _ _ os is_error m t refl
destroy_polled-constructed os epoll_class m t n d =
    destroy_polled-closes os _ _ n d ∙ epoll-Closed _ _ os m t refl

destroy_uring-closes :
    (os : Os) (o : Built) (fd : ℤ) (t : Trace)
    → is_neg fd ≡ false
    → closes fd (destroy_uring os o t) ≡ closes fd t
unfolding destroy_uring closes
destroy_uring-closes os o fd t n = closes-minus_one os fd t n

-- The three classes.
pub data SocketClass : Type 0 where
  polled_class : Polled → SocketClass
  uring_class : SocketClass

-- The object that a constructor leaves, or none if it throws.
abbrev pub made : Os → SocketClass → Metadata → Trace → Option Built × Trace
made os (polled_class class) m t = let (o, t₁) = constructed os class m t in (some o, t₁)
made os uring_class m t = uring_socket os m t

abbrev pub unmade : Os → SocketClass → Built → Trace → Trace
unmade os (polled_class class) o t = destroy_polled os o t
unmade os uring_class o t = destroy_uring os o t

-- A KqueueSocket, an EpollSocket or an IoUringSocket whose constructor opened a socket and did not
-- throw, wherever it returned, never closes it: constructor and destructor together call `close` on
-- it not once, if the poller is another descriptor. The destructors close -1 in its place.
pub unmade-made :
    (os : Os) (class : SocketClass) (m : Metadata) (t : Trace) (o : Built)
    → (made os class m t).0 ≡ some o
    → is_neg o.base.socket ≡ false
    → o.base.poller ≢ some o.base.socket
    → closes o.base.socket (unmade os class o (made os class m t).1) ≡ closes o.base.socket t
unmade-made os (polled_class class) m t o h n d =
    let same : (constructed os class m t).0 ≡ o = some_inj h in
    let n' = subst (λ (x : Built). is_neg x.base.socket ≡ false) (sym same) n in
    let d' = subst (λ (x : Built). x.base.poller ≢ some x.base.socket) (sym same) d in
    subst
      (λ x.
        closes x.base.socket (destroy_polled os x (constructed os class m t).1)
        ≡ closes x.base.socket t)
      same (destroy_polled-constructed os class m t n' d')
  where
    some_inj : {a b : Built} → some a ≡ some b → a ≡ b
    some_inj e = cc
unmade-made os uring_class m t o h n d =
    destroy_uring-closes os o o.base.socket _ n ∙ uring-Closed o.base.socket _ os m t o h refl
