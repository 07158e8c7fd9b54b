-- ===== src/Net/Poller/Kqueue/Sources.antt =====
-- Socket/Poller/Helpers.hpp, where kqueue is: where the keys of the table of clients come from.
use mux.Prelude.{
  ℕ, ◌≤◌, ◌<◌, ◌≡◌, ◌≢◌, refl, sym, ap, suc, Bool, ◌∙◌, ◌⊎◌, inl, inr, true, Option, none, some,
  List, [], ◌∷◌, arith, All, Bool-cases, Option-cases, ◌==◌, nat_eq, bytes_eq, ne_of_beq,
}
use mux.Prelude.Int.{ℤ, pos, minus_one, int_beq_iff, int_eq, is_pos}
use mux.Prelude.Map.{find, insert}
use mux.Net.System.{accept, Trace, Os}
use mux.Net.Client.{ClientSocket, new_client, accept_client}
use mux.Net.Client.Accepting.{accept_client-connected}
use mux.Net.Client.Balance.{accepts, plus_if, accepts-destroy, accepts-destroy-close}
use mux.Net.Client.Reported.{ClosesPlainly, accept_client-reports}
use mux.Net.Poller.{
  Handler, Server, Run, running, exited, faulted, close_entry, close_found, close_socket, release,
  admit, accept_connection, look_up, call_handler,
}
use mux.Net.Poller.Kqueue.{Event, handle_events, polling_handler}
use mux.Net.Poller.Kqueue.Preserves.{Holds, handle_events-Holds}
use mux.Net.Poller.Kqueue.Table.{Table, Fits, KeepsFd, insert-Table, erase-Table, look_up-Table}

plus_if-grows : (b : Bool) (n : ℕ) → n ≤ plus_if b n
plus_if-grows b n = ground arith

abbrev pub Named : ℤ → List Event → Type 0
Named k [] = ⊥
Named k (e ∷ rest) = (e.ident ≡ k) ⊎ Named k rest

-- A handler that takes back no `accept` that was made.
pub record OnlyAdds (h : Handler) : Type 0 where
  pub to_client :
      (k : ℤ) (c : ClientSocket) (t : Trace) → accepts k t ≤ accepts k (h.on_client c t).2
  pub to_null :
      (k : ℤ) (t : Trace) (r : ℤ × Trace) → h.on_null t ≡ some r → accepts k t ≤ accepts k r.1

-- A call of the polling handler, with this table, calls made before, and events.
module _ (before : Server) (t₀ : Trace) (events : List Event) where
  -- Where a key of the table can come from, once the calls `t` have been made: it was there, an
  -- event names it, `accept` has returned it since, or it is 0.
  abbrev pub Source : Trace → ℤ → Type 0
  Source t k =
      ((p : Option ClientSocket) × (find k before.clients ≡ some p))
      ⊎ (Named k events ⊎ ((accepts k t₀ < accepts k t) ⊎ (k ≡ pos 0)))

  pub record IsSourced (s : Server) (t : Trace) : Type 0 where
    pub grown : (k : ℤ) → accepts k t₀ ≤ accepts k t
    pub sourced : Table (Source t) s.clients

  later : (t t' : Trace) (k : ℤ) → accepts k t ≤ accepts k t' → Source t k → Source t' k
  later t t' k h (inl p) = inl p
  later t t' k h (inr (inl n)) = inr (inl n)
  later t t' k h (inr (inr (inl a))) = inr (inr (inl (omega (arith, h, a))))
  later t t' k h (inr (inr (inr z))) = inr (inr (inr z))

  -- The same table behind more calls.
  IsSourced-later :
      (s : Server) (t t' : Trace)
      → ((k : ℤ) → accepts k t ≤ accepts k t')
      → IsSourced s t
      → IsSourced s t'
  IsSourced-later s t t' h m = record {
    grown = λ k. omega (arith, h k, m.grown k);
    sourced = λ k p e. (later t t' k (h k) (m.sourced k p e).0, (m.sourced k p e).1);
  }

  insert-IsSourced :
      (fd : ℤ) (p : Option ClientSocket) (s : Server) (t : Trace)
      → Source t fd
      → Fits fd p
      → IsSourced s t
      → IsSourced (record s { clients = insert fd p s.clients }) t
  insert-IsSourced fd p s t q f m = record {
    grown = m.grown;
    sourced = insert-Table (Source t) fd p s.clients q f m.sourced;
  }

  look_up-IsSourced :
      (fd : ℤ) (s : Server) (t : Trace)
      → Named fd events
      → IsSourced s t
      → IsSourced (look_up fd s).1 t
  look_up-IsSourced fd s t n m = record {
    grown = m.grown;
    sourced = (look_up-Table (Source t) fd s (inr (inl n)) m.sourced).0;
  }

  call_handler-IsSourced :
      (h : Handler) (fd : ℤ) (p : Option ClientSocket) (s : Server) (t : Trace)
      → KeepsFd h
      → OnlyAdds h
      → find fd s.clients ≡ some p
      → IsSourced s t
      → Holds IsSourced (Unit {0}) (call_handler h fd p s t)
  unfolding call_handler Holds Fits
  call_handler-IsSourced h fd none s t k a f m = elim (Option-cases (h.on_null t)) [
    | inl e ↦ rw (e, Holds) tt
    | inr e ↦ rw (e.1, Holds) (IsSourced-later s t e.0.1 (λ k. a.to_null k t e.0 e.1) m)
  ]
  call_handler-IsSourced h fd (some c) s t k a f m =
      let (_, c', t') = h.on_client c t in
      let m' = IsSourced-later s t t' (λ k. a.to_client k c t) m in
      let here = m'.sourced fd (some c) f in
      insert-IsSourced fd (some c') s t' here.0 (k c t ∙ here.1) m'

  module _ (os : Os) where
    close_socket-IsSourced :
        (fd : ℤ) (s : Server) (t : Trace)
        → IsSourced s t
        → Holds IsSourced (Unit {0}) (close_socket os fd s t)
    unfolding close_socket close_found close_entry Holds
    close_socket-IsSourced fd s t m = found (find fd s.clients)
      where
        entry : (p : Option ClientSocket) → Holds IsSourced (Unit {0}) (close_entry os fd p s t)
        entry none = tt
        entry (some c) =
            let m' = IsSourced-later s t _ (λ k. omega (arith, accepts-destroy-close os k c t)) m in
            record { grown = m'.grown; sourced = erase-Table (Source _) fd s.clients m'.sourced }

        found :
            (o : Option (Option ClientSocket))
            → Holds IsSourced (Unit {0}) (close_found os fd o s t)
        found none = m
        found (some p) = elim (Bool-cases (is_pos fd)) [ inr n ↦ rw n tt | inl y ↦ rw y (entry p) ]

    release-accepts :
        (k : ℤ) (o : Option (Option ClientSocket)) (t : Trace)
        → accepts k (release os o t) ≡ accepts k t
    unfolding release
    release-accepts k none t = refl
    release-accepts k (some none) t = refl
    release-accepts k (some (some c)) t = accepts-destroy os k c t

    accept_connection-IsSourced :
        ClosesPlainly os
        → (s : Server) (t : Trace) → IsSourced s t
        → Holds IsSourced (Unit {0}) (accept_connection os s t)
    unfolding accept_connection admit Holds Fits
    accept_connection-IsSourced plain s t m =
        let c = new_client s.poller s.socket in
        let (fd, c', t') = accept_client os c t in
        let a = (os t (accept c.server_socket)).value in
        let reports = λ (k : ℤ). accept_client-reports os k plain c t in
        let more = λ (k : ℤ). plus_if-grows (a == k) (accepts k t) in
        elim (Bool-cases (fd == minus_one)) [
          | inl e ↦ rw e (
              IsSourced-later s t _
                (λ k. omega (arith, (reports k).0, more k, accepts-destroy os k c' t')) m)
          | inr e ↦
              let n : fd ≢ minus_one = ne_of_beq e in
              let o = find fd s.clients in
              let m' =
                IsSourced-later s t (release os o t')
                  (λ k. omega (arith, (reports k).0, more k, release-accepts k o t')) m in
              let source : Source (release os o t') fd = elim ((reports fd).1 n) [
                | inr z ↦ inr (inr (inr z))
                | inl same ↦
                    let once : (a == fd) ≡ true = (int_beq_iff a fd).1 (sym same) in
                    let counted : accepts fd t' ≡ suc (accepts fd t) =
                      (reports fd).0 ∙ ap (λ b. plus_if b (accepts fd t)) once in
                    inr (inr (inl (omega (arith, counted, m.grown fd, release-accepts fd o t'))))
              ] in
              rw e
                (insert-IsSourced fd (some c') s _ source (accept_client-connected os c t n).1 m')
        ]

forget :
    (s : Server) (t : Trace) (events : List Event) (r : Run Unit)
    → Holds (IsSourced s t events) (Unit {0}) r
    → Holds (λ s' t'. Table (Source s t events t') s'.clients) (Unit {0}) r
unfolding Holds
forget s t events (running a s' t') h = h.sourced
forget s t events (exited t') h = tt
forget s t events (faulted t') h = tt

-- A descriptor that is in the table behind a call of the polling handler, on any batch of events,
-- was in it before, or an event of the batch names it, or the kernel's `accept` has returned it
-- during the call, or it is 0. Before the call every client must be under its own descriptor; the
-- read and write handlers must leave a client its descriptor, and not lower the number of times
-- that `accept` has returned a descriptor; `close` must return 0 or -1; and the process must go on.
pub polling_handler-Sourced :
    (os : Os) (handle_read handle_write : Handler) (events : List Event) (s : Server) (t : Trace)
    → ClosesPlainly os
    → KeepsFd handle_read
    → KeepsFd handle_write
    → OnlyAdds handle_read
    → OnlyAdds handle_write
    → Table (λ k. Unit {0}) s.clients
    → Holds
        (λ s' t'. Table (Source s t events t') s'.clients)
        (Unit {0})
        (polling_handler os handle_read handle_write (some events) s t)
unfolding polling_handler
polling_handler-Sourced os hr hw events s t plain reads writes radds wadds m =
    forget s t events (handle_events os hr hw events s t) (
      handle_events-Holds os hr hw (IsSourced s t events) Unit (λ k. Named k events)
        (look_up-IsSourced s t events)
        (λ fd p s' t' f q. call_handler-IsSourced s t events hr fd p s' t' reads radds f q)
        (λ fd p s' t' f q. call_handler-IsSourced s t events hw fd p s' t' writes wadds f q)
        (close_socket-IsSourced s t events os) (accept_connection-IsSourced s t events os plain)
        events s t (named events (λ k h. h))
        (record { grown = λ k. omega arith; sourced = λ k p e. (inl (p, e), (m k p e).1) }))
  where
    named :
        (rest : List Event)
        → ((k : ℤ) → Named k rest → Named k events)
        → All (λ e. e.ident ≢ minus_one → Named e.ident events) rest
    named [] h = tt
    named (e ∷ rest) h = (λ n. h e.ident (inl refl), named rest (λ k x. h k (inr x)))
