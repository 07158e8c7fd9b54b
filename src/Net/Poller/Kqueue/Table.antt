-- ===== src/Net/Poller/Kqueue/Table.antt =====
-- Socket/Poller/Helpers.hpp: the steps of `pollingHandler` for kqueue and the table of clients.
use mux.Prelude.{
  ◌≡◌, refl, ap, ◌∙◌, ◌≢◌, inl, inr, false, Option, none, some, List, if◌then◌else◌, Bool-cases,
  Option-cases, All, ◌==◌, nat_eq, bytes_eq, eq_self, ne_of_beq,
}
use mux.Prelude.Int.{ℤ, minus_one, int_beq_iff, int_eq, is_pos}
use mux.Prelude.Map.{find, insert, erase, subscript, find-insert, find-erase}
use mux.Net.System.{Trace, Os}
use mux.Net.Client.{ClientSocket, new_client, accept_client}
use mux.Net.Poller.{
  Handler, Clients, Server, Run, exited, and_then, destroy_all, close_entry, close_found,
  close_socket, admit, accept_connection, look_up, call_handler,
}
use mux.Net.Poller.Kqueue.{Event, handle_events}
use mux.Net.Poller.Kqueue.Preserves.{Holds, and_then-Holds, handle_events-Holds}
use mux.Net.Client.Accepting.{accept_client-connected}

-- A pointer under the key `k` is null, or its client has the descriptor `k`.
unfoldable pub Fits : ℤ → Option ClientSocket → Type 0
Fits k none = Unit {0}
Fits k (some c) = c.client_fd ≡ k

-- The keys are as `Q` says, and the clients have their keys' descriptors.
abbrev pub Table : (ℤ → Type 0) → Clients → Type 0
Table Q m = (k : ℤ) (p : Option ClientSocket) → find k m ≡ some p → Q k × Fits k p

-- A computation that goes on keeps the table; if it exits, `E` holds.
abbrev pub Keeps : {A : Type 0} → (ℤ → Type 0) → Type 0 → Run A → Type 0
Keeps Q E r = Holds (λ s t. Table Q s.clients) E r

some-inj : {A : Type 0} {a b : A} → some a ≡ some b → a ≡ b
some-inj {a = a} e = ap (λ o. elim o [ some x ↦ x | none ↦ a ]) e

pub insert-Table :
    (Q : ℤ → Type 0) (k : ℤ) (v : Option ClientSocket) (m : Clients)
    → Q k
    → Fits k v
    → Table Q m
    → Table Q (insert k v m)
insert-Table Q k v m q f h j p e =
    let e' = rw (find-insert k j v m) at e in
    elim (Bool-cases (k == j)) [
      | inl s ↦
          let same = (int_beq_iff k j).0 s in
          let here = some-inj (rw s at e') in rw (← same, ← here) (q, f)
      | inr s ↦ h j p (rw s at e')
    ]

pub erase-Table : (Q : ℤ → Type 0) (k : ℤ) (m : Clients) → Table Q m → Table Q (erase k m)
erase-Table Q k m h j p e =
    let e' = rw (find-erase k j m) at e in
    elim (Bool-cases (k == j)) [
      | inl s ↦ elim (none_some (rw s at e')) [ ]
      | inr s ↦ h j p (rw s at e')
    ]
  where
    none_some : none ≡ some p → ⊥
    none_some c = cc

pub look_up-Table :
    (Q : ℤ → Type 0) (k : ℤ) (s : Server)
    → Q k
    → Table Q s.clients
    → let (p, s') = look_up k s in Table Q s'.clients × (find k s'.clients ≡ some p)
unfolding look_up subscript Fits
look_up-Table Q k s q h = elim (Option-cases (find k s.clients)) [
  | inl e ↦
      rw (e, look_up, subscript)
        (
          insert-Table Q k none s.clients q tt h,
          rw (find-insert k k none s.clients, eq_self k) refl,
        )
  | inr e ↦ rw (e.1, look_up, subscript) (h, e.1)
]

pub and_then-Keeps :
    {A B : Type 0} (Q : ℤ → Type 0) (E : Type 0) (r : Run A) (f : A → Server → Trace → Run B)
    → Keeps Q E r
    → ((a : A) (s : Server) (t : Trace) → Table Q s.clients → Keeps Q E (f a s t))
    → Keeps Q E (and_then r f)
and_then-Keeps Q E = and_then-Holds (λ s t. Table Q s.clients) E

-- A handler that leaves the client its descriptor.
abbrev pub KeepsFd : Handler → Type 0
KeepsFd h = (c : ClientSocket) (t : Trace) → (h.on_client c t).1.client_fd ≡ c.client_fd

pub call_handler-Keeps :
    (Q : ℤ → Type 0) (E : Type 0) (h : Handler) (fd : ℤ) (p : Option ClientSocket) (s : Server)
    (t : Trace)
    → KeepsFd h
    → Q fd × Fits fd p
    → Table Q s.clients
    → Keeps Q E (call_handler h fd p s t)
unfolding call_handler Holds Fits
call_handler-Keeps Q E h fd none s t k f m = elim (Option-cases (h.on_null t)) [
  | inl e ↦ rw (e, Holds) tt
  | inr e ↦ rw (e.1, Holds) m
]
call_handler-Keeps Q E h fd (some c) s t k f m =
    insert-Table Q fd (some (h.on_client c t).1) s.clients f.0 (k c t ∙ f.1) m

pub accept_connection-Keeps :
    (os : Os) (Q : ℤ → Type 0) (E : Type 0) (s : Server) (t : Trace)
    → let (fd, _, _) = accept_client os (new_client s.poller s.socket) t in
      (fd ≢ minus_one → Q fd) → Table Q s.clients → Keeps Q E (accept_connection os s t)
unfolding accept_connection admit Holds Fits
accept_connection-Keeps os Q E s t q m =
    let c = new_client s.poller s.socket in
    elim (Bool-cases ((accept_client os c t).0 == minus_one)) [
      | inl e ↦ rw e m
      | inr e ↦
          let n = ne_of_beq e in
          rw e (insert-Table Q _ _ _ (q n) (accept_client-connected os c t n).1 m)
    ]

module _ (os : Os) (Q : ℤ → Type 0) (E : Type 0)
    (stops : (k : ℤ) → Q k → is_pos k ≡ false → E) where
  close_found-Keeps :
      (fd : ℤ) (o : Option (Option ClientSocket)) (s : Server) (t : Trace)
      → find fd s.clients ≡ o
      → Table Q s.clients
      → Keeps Q E (close_found os fd o s t)
  unfolding close_found close_entry Holds
  close_found-Keeps fd none s t e m = m
  close_found-Keeps fd (some p) s t e m = elim (Bool-cases (is_pos fd)) [
    | inr n ↦ rw n (stops fd (m fd p e).0 n)
    | inl y ↦
        elim p
          as (λ p.
            Keeps Q E (
              if is_pos fd then close_entry os fd p s t else exited (destroy_all os s.clients t))) [
                | none ↦ rw y tt
                | some c ↦ rw y (erase-Table Q fd s.clients m)
              ]
  ]

  pub close_socket-Keeps :
      (fd : ℤ) (s : Server) (t : Trace) → Table Q s.clients → Keeps Q E (close_socket os fd s t)
  unfolding close_socket
  close_socket-Keeps fd s t m = close_found-Keeps fd _ s t refl m

  pub handle_events-Keeps :
      (handle_read handle_write : Handler)
      → KeepsFd handle_read
      → KeepsFd handle_write
      → ((c : ClientSocket) (t : Trace)
          → (accept_client os c t).0 ≢ minus_one
          → Q (accept_client os c t).0)
      → (events : List Event) (s : Server) (t : Trace)
      → All (λ e. e.ident ≢ minus_one → Q e.ident) events
      → Table Q s.clients
      → Keeps Q E (handle_events os handle_read handle_write events s t)
  handle_events-Keeps handle_read handle_write reads writes accepts =
      handle_events-Holds os handle_read handle_write (λ s t. Table Q s.clients) E Q
        (λ fd s t q m. (look_up-Table Q fd s q m).0)
        (λ fd p s t f m. call_handler-Keeps Q E handle_read fd p s t reads (m fd p f) m)
        (λ fd p s t f m. call_handler-Keeps Q E handle_write fd p s t writes (m fd p f) m)
        close_socket-Keeps (λ s t m. accept_connection-Keeps os Q E s t (accepts _ t) m)
