-- ===== src/Net/Client/Interest.antt =====
-- Socket/ClientSocket.hpp: the interests of a client and what its poller was told.
use mux.Prelude.{
  ℕ, ◌≡◌, refl, ◌∙◌, inl, inr, Bool, true, false, not, ◌&&◌, ◌||◌, Option, none, some, List, [],
  ◌∷◌, arith, if◌then◌else◌, Bool-cases, ◌==◌, nat_eq, bytes_eq, eq_self,
}
use mux.Prelude.Int.{ℤ, minus_one, int_eq}
use mux.Prelude.Bytes.{Bytes}
use mux.Net.System.{Filter, reading, writing, Call, add_event, delete_event, Reply, Trace, Os}
use mux.Net.Client.{ClientSocket, set_reader, remove_reader, set_writer, remove_writer, read, write}

same_filter : Filter → Filter → Bool
same_filter reading reading = true
same_filter writing writing = true
same_filter _ _ = false

same_interest : ℤ → ℤ → Filter → ℤ → ℤ → Filter → Bool
unfolding same_filter
same_interest p fd k q other_fd l = same_filter k l && p == q && fd == other_fd

-- What a call tells the poller `p` of the descriptor `fd`, if it succeeds.
change : ℤ → ℤ → Filter → Call × Reply → Option Bool
unfolding same_interest
change p fd k (add_event q other_fd l, r) =
    if same_interest p fd k q other_fd l
    then if r.value == minus_one then none else some true
    else none
change p fd k (delete_event q other_fd l, r) =
    if same_interest p fd k q other_fd l
    then if r.value == minus_one then none else some false
    else none
change p fd k _ = none

same_interest_self : (p fd : ℤ) (k : Filter) → same_interest p fd k p fd k ≡ true
unfolding same_interest same_filter
same_interest_self p fd reading = rw (eq_self p, eq_self fd) refl
same_interest_self p fd writing = rw (eq_self p, eq_self fd) refl

-- What the poller `p` last learnt of the filter `k` of `fd`.
unfoldable pub interest : ℤ → ℤ → Filter → Trace → Bool
unfolding change
interest p fd k [] = false
interest p fd k (e ∷ t) = elim (change p fd k e) [ none ↦ interest p fd k t | some b ↦ b ]

abbrev pub Agrees : ClientSocket → Trace → Type 0
Agrees c t =
    (interest c.poller c.client_fd reading t ≡ c.is_reader)
    × (interest c.poller c.client_fd writing t ≡ c.is_writer)

-- What can be done with a client between `accept` and `close`.
pub data Action : Type 0 where
  setting_reader removing_reader setting_writer removing_writer : Action
  receiving : (size : ℕ) → Action
  sending : (text : Bytes) → Action

interest-added :
    (p fd : ℤ) (k : Filter) (r : Reply) (t : Trace)
    → (r.value == minus_one) ≡ false
    → interest p fd k ((add_event p fd k, r) ∷ t) ≡ true
unfolding interest change
interest-added p fd k r t h = rw (same_interest_self p fd k, h, change, interest) refl

interest-deleted :
    (p fd : ℤ) (k : Filter) (r : Reply) (t : Trace)
    → (r.value == minus_one) ≡ false
    → interest p fd k ((delete_event p fd k, r) ∷ t) ≡ false
unfolding interest change
interest-deleted p fd k r t h = rw (same_interest_self p fd k, h, change, interest) refl

change-failed :
    (p fd : ℤ) (k : Filter) (call : Call) (r : Reply)
    → (r.value == minus_one) ≡ true
    → change p fd k (call, r) ≡ none
unfolding change
change-failed p fd k (add_event q g l) r h = rw h (ground arith)
change-failed p fd k (delete_event q g l) r h = rw h (ground arith)
change-failed p fd k _ r h = refl

interest-failed :
    (p fd : ℤ) (k : Filter) (call : Call) (r : Reply) (t : Trace)
    → (r.value == minus_one) ≡ true
    → interest p fd k ((call, r) ∷ t) ≡ interest p fd k t
unfolding interest
interest-failed p fd k call r t h = rw (change-failed p fd k call r h, interest) refl

Agrees-failed :
    (c : ClientSocket) (call : Call) (r : Reply) (t : Trace)
    → (r.value == minus_one) ≡ true
    → Agrees c t
    → Agrees c ((call, r) ∷ t)
Agrees-failed c call r t f h = (
  interest-failed c.poller c.client_fd reading call r t f ∙ h.0,
  interest-failed c.poller c.client_fd writing call r t f ∙ h.1,
)

module _ (os : Os) where
  -- What stays of a method's effect, its result aside.
  act : Action → ClientSocket → Trace → ClientSocket × Trace
  act setting_reader c t = let (_, c', t') = set_reader os c t in (c', t')
  act removing_reader c t = let (_, c', t') = remove_reader os c t in (c', t')
  act setting_writer c t = let (_, c', t') = set_writer os c t in (c', t')
  act removing_writer c t = let (_, c', t') = remove_writer os c t in (c', t')
  act (receiving size) c t = let (_, c', t') = read os size c t in (c', t')
  act (sending text) c t = let (_, c', t') = write os text c t in (c', t')

  pub run_actions : List Action → ClientSocket → Trace → ClientSocket × Trace
  unfolding act
  run_actions [] c t = (c, t)
  run_actions (a ∷ rest) c t = let (c₁, t₁) = act a c t in run_actions rest c₁ t₁

  set_reader-Agrees :
      (c : ClientSocket) (t : Trace)
      → Agrees c t
      → let (_, c', t') = set_reader os c t in Agrees c' t'
  unfolding set_reader interest
  set_reader-Agrees c t h = elim (Bool-cases c.is_reader) [
    | inl e ↦ rw e (h.0 ∙ e, h.1)
    | inr e ↦
        elim (Bool-cases ((os t (add_event c.poller c.client_fd reading)).value == minus_one)) [
          | inl f ↦
              let k =
                Agrees-failed c (add_event c.poller c.client_fd reading)
                  (os t (add_event c.poller c.client_fd reading)) t f h in
              rw (e, f) (k.0 ∙ e, k.1)
          | inr f ↦
              rw (e, f)
                (
                  interest-added c.poller c.client_fd reading
                      (os t (add_event c.poller c.client_fd reading)) t f,
                  h.1,
                )
        ]
  ]

  remove_reader-Agrees :
      (c : ClientSocket) (t : Trace)
      → Agrees c t
      → let (_, c', t') = remove_reader os c t in Agrees c' t'
  unfolding remove_reader interest
  remove_reader-Agrees c t h = elim (Bool-cases c.is_reader) [
    | inr e ↦ rw e (h.0 ∙ e, h.1)
    | inl e ↦
        elim (Bool-cases ((os t (delete_event c.poller c.client_fd reading)).value == minus_one)) [
          | inl f ↦
              let k =
                Agrees-failed c (delete_event c.poller c.client_fd reading)
                  (os t (delete_event c.poller c.client_fd reading)) t f h in
              rw (e, f) (k.0 ∙ e, k.1)
          | inr f ↦
              rw (e, f)
                (
                  interest-deleted c.poller c.client_fd reading
                      (os t (delete_event c.poller c.client_fd reading)) t f,
                  h.1,
                )
        ]
  ]

  set_writer-Agrees :
      (c : ClientSocket) (t : Trace)
      → Agrees c t
      → let (_, c', t') = set_writer os c t in Agrees c' t'
  unfolding set_writer interest
  set_writer-Agrees c t h = elim (Bool-cases c.is_writer) [
    | inl e ↦ rw e (h.0, h.1 ∙ e)
    | inr e ↦
        elim (Bool-cases ((os t (add_event c.poller c.client_fd writing)).value == minus_one)) [
          | inl f ↦
              let k =
                Agrees-failed c (add_event c.poller c.client_fd writing)
                  (os t (add_event c.poller c.client_fd writing)) t f h in
              rw (e, f) (k.0, k.1 ∙ e)
          | inr f ↦
              rw (e, f)
                (
                  h.0,
                  interest-added c.poller c.client_fd writing
                      (os t (add_event c.poller c.client_fd writing)) t f,
                )
        ]
  ]

  remove_writer-Agrees :
      (c : ClientSocket) (t : Trace)
      → Agrees c t
      → let (_, c', t') = remove_writer os c t in Agrees c' t'
  unfolding remove_writer interest
  remove_writer-Agrees c t h = elim (Bool-cases c.is_writer) [
    | inr e ↦ rw e (h.0, h.1 ∙ e)
    | inl e ↦
        elim (Bool-cases ((os t (delete_event c.poller c.client_fd writing)).value == minus_one)) [
          | inl f ↦
              let k =
                Agrees-failed c (delete_event c.poller c.client_fd writing)
                  (os t (delete_event c.poller c.client_fd writing)) t f h in
              rw (e, f) (k.0, k.1 ∙ e)
          | inr f ↦
              rw (e, f)
                (
                  h.0,
                  interest-deleted c.poller c.client_fd writing
                      (os t (delete_event c.poller c.client_fd writing)) t f,
                )
        ]
  ]

  read-Agrees :
      (size : ℕ) (c : ClientSocket) (t : Trace)
      → Agrees c t
      → let (_, c', t') = read os size c t in Agrees c' t'
  unfolding read interest change
  read-Agrees size c t h = elim (Bool-cases (not c.is_connected || not c.is_reader)) [
    | inl e ↦ rw e h
    | inr e ↦ elim (Bool-cases ((set_reader os c t).0 == minus_one)) [
      | inl f ↦ rw (e, f) (set_reader-Agrees c t h)
      | inr f ↦ rw (e, f) (set_reader-Agrees c t h)
    ]
  ]

  write-Agrees :
      (text : Bytes) (c : ClientSocket) (t : Trace)
      → Agrees c t
      → let (_, c', t') = write os text c t in Agrees c' t'
  unfolding write interest change
  write-Agrees text c t h = elim (Bool-cases (not c.is_connected || not c.is_writer)) [
    | inl e ↦ rw e h
    | inr e ↦ elim (Bool-cases ((set_writer os c t).0 == minus_one)) [
      | inl f ↦ rw (e, f) (set_writer-Agrees c t h)
      | inr f ↦ rw (e, f) (set_writer-Agrees c t h)
    ]
  ]

  act-Agrees :
      (a : Action) (c : ClientSocket) (t : Trace)
      → Agrees c t
      → let (c', t') = act a c t in Agrees c' t'
  unfolding act
  act-Agrees setting_reader c t h = set_reader-Agrees c t h
  act-Agrees removing_reader c t h = remove_reader-Agrees c t h
  act-Agrees setting_writer c t h = set_writer-Agrees c t h
  act-Agrees removing_writer c t h = remove_writer-Agrees c t h
  act-Agrees (receiving size) c t h = read-Agrees size c t h
  act-Agrees (sending text) c t h = write-Agrees text c t h

  -- If the two flags of a client agree with what its poller was told of its descriptor, they still
  -- agree after any sequence of the methods that change interests or transfer data, whichever of
  -- their calls fail.
  pub run_actions-Agrees :
      (actions : List Action) (c : ClientSocket) (t : Trace)
      → Agrees c t
      → let (c', t') = run_actions actions c t in Agrees c' t'
  unfolding run_actions
  run_actions-Agrees [] c t h = h
  run_actions-Agrees (a ∷ rest) c t h = run_actions-Agrees rest _ _ (act-Agrees a c t h)
