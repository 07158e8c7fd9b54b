-- ===== src/Net/Setup/Classes/Registration.antt =====
-- Socket/SocketBase/epoll.hpp: the constructor registers the listening socket twice.
use mux.Prelude.{◌≡◌, refl, ◌≢◌, inl, inr, false, ◌∷◌, Bool-cases, ◌==◌, nat_eq, bytes_eq}
use mux.Prelude.Int.{ℤ, pos, minus_one, int_beq_iff, int_eq}
use mux.Net.System.{Filter, reading, writing, create_poller, epoll_add, Reply, Trace, Os}
use mux.Net.Setup.{Metadata, Base}
use mux.Net.Setup.Classes.{
  complete, Built, need, polled_by, add_epoll, epoll_members, epoll_interests, writable_last,
  readable_last, unset, construct_polled, epoll_socket,
}
use mux.Net.Setup.Classes.Ends.{if-Holds, create_first-Holds}

-- The constructor returned before it had made `events_`.
abbrev IsUnfinished : Built × Trace → Type 0
IsUnfinished (o, t) = (o.halt ≢ complete) × (o.has_events ≡ false)

-- What the kernel answers to a registration of a descriptor that is registered already: EEXIST.
abbrev pub RefusesTwice : Os → Type 0
RefusesTwice os =
    (p fd : ℤ) (k l : Filter) (r : Reply) (t : Trace)
    → r.value ≡ pos 0
    → (os ((epoll_add p fd k, r) ∷ t) (epoll_add p fd l)).value ≡ minus_one

module _ (os : Os) (twice : RefusesTwice os) where
  writable_last-IsUnfinished :
      (b : Base) (r : Reply) (t : Trace)
      → r.value ≡ pos 0
      → IsUnfinished
          (writable_last (epoll_interests os) b ((epoll_add (polled_by b) b.socket reading, r) ∷ t))
  unfolding writable_last epoll_interests add_epoll need
  writable_last-IsUnfinished b r t z =
      rw (twice (polled_by b) b.socket reading writing r t z) ((λ c. cc), refl)

  readable_last-IsUnfinished :
      (b : Base) (t : Trace) → IsUnfinished (readable_last (epoll_interests os) b t)
  unfolding readable_last epoll_interests add_epoll need
  readable_last-IsUnfinished b t =
      let r = os t (epoll_add (polled_by b) b.socket reading) in
      elim (Bool-cases (r.value == pos 0)) [
        | inr e ↦ rw e ((λ c. cc), refl)
        | inl e ↦ rw e (writable_last-IsUnfinished b r t ((int_beq_iff _ _).0 e))
      ]

  -- On a kernel that refuses to add a descriptor to an epoll directly behind having added it, the
  -- constructor of EpollSocket never reaches its end, on any metadata and however the other calls
  -- are answered, and it leaves `events_` null.
  pub epoll_socket-IsUnfinished :
      (m : Metadata) (t : Trace)
      → ((epoll_socket os m t).0.halt ≢ complete) × ((epoll_socket os m t).0.has_events ≡ false)
  unfolding epoll_socket construct_polled
  epoll_socket-IsUnfinished m t =
      if-Holds IsUnfinished ((os t create_poller).value == minus_one) _ _ ((λ c. cc), refl)
        (create_first-Holds (λ b t. Unit {0}) IsUnfinished (epoll_members os) m
          (readable_last (epoll_interests os)) (λ h b t n q. (n, refl))
          (λ b t q. readable_last-IsUnfinished b t) (λ b t q. tt) (λ b t q. tt) (λ b t q. tt)
          (λ b t q. tt) (λ b t q. tt) (unset (os t create_poller).value) _ tt)
