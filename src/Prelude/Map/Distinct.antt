-- ===== src/Prelude/Map/Distinct.antt =====
-- `std::unordered_map` as the list of its entries: no key occurs twice, and two maps that agree on
-- every key hold the same entries, in some order.
use mux.Prelude.Tests.{if◌then◌else◌, Bool-cases}
use mux.Prelude.Equality.{HasEq, ◌==◌, eq_self}
use mux.Prelude.Map.{Map, find, insert, erase, find-insert, find-erase}
use mathlib.Core.Path.{◌≡◌, refl, subst}
use mathlib.Core.Logic.{inl, inr}
use mathlib.Core.Bool.{true}
use mathlib.Core.Option.{none, some}
use mathlib.Core.List.{[], ◌∷◌, Perm}
use mathlib.Core.List.Perm
use native.Mathlib.Omega.{arith}

module _ {ℓ κ} {K : Type ℓ} {V : Type κ} ⦃e : HasEq K⦄ where
  abbrev pub Distinct : Map K V → Type κ
  Distinct [] = Unit
  Distinct ((k, v) ∷ m) = (find k m ≡ none) × Distinct m

  pub insert-Distinct : (k : K) (v : V) (m : Map K V) → Distinct m → Distinct (insert k v m)
  unfolding insert find
  insert-Distinct k v [] h = (refl, tt)
  insert-Distinct k v ((j, w) ∷ m) (absent, h) = elim (Bool-cases (j == k)) [
    | inl same ↦ rw same (absent, h)
    | inr other ↦ rw other (
      ground (arith, e.same_iff k j, e.same_iff j k, find-insert k j v m),
      insert-Distinct k v m h,
    )
  ]

  pub erase-Distinct : (k : K) (m : Map K V) → Distinct m → Distinct (erase k m)
  unfolding erase find
  erase-Distinct k [] h = tt
  erase-Distinct k ((j, w) ∷ m) (absent, h) = elim (Bool-cases (j == k)) [
    | inl same ↦ rw same (erase-Distinct k m h)
    | inr other ↦
        rw other
          (ground (arith, e.same_iff k j, e.same_iff j k, find-erase k j m), erase-Distinct k m h)
  ]

  erase-absent : (k : K) (m : Map K V) → find k m ≡ none → erase k m ≡ m
  unfolding erase find
  erase-absent k [] h = refl
  erase-absent k ((j, w) ∷ m) h = ground (arith, erase-absent k m)

  erase-perm :
      (k : K) (v : V) (m : Map K V) → Distinct m → find k m ≡ some v → Perm m ((k, v) ∷ erase k m)
  unfolding erase find
  erase-perm k v [] h f = elim (none_some f) [ ]
    where
      none_some : none ≡ some v → ⊥
      none_some c = cc
  erase-perm k v ((j, w) ∷ m) (absent, h) f = elim (Bool-cases (j == k)) [
    | inl same ↦ subst (λ m'. Perm ((j, w) ∷ m) m') (met same) (Perm.refl ((j, w) ∷ m))
    | inr other ↦ rw other (
        Perm.trans (Perm.cons (j, w) (erase-perm k v m h (rw other at f)))
          (Perm.swap (k, v) (j, w) (erase k m)))
  ]
    where
      met : (j == k) ≡ true → ((j, w) ∷ m) ≡ ((k, v) ∷ erase k ((j, w) ∷ m))
      met same = ground (arith, e.same_iff j k, erase-absent k m)

  -- Two maps with distinct keys that agree on every key hold the same entries.
  pub same-perm :
      (m m' : Map K V) → Distinct m → Distinct m' → ((j : K) → find j m ≡ find j m') → Perm m m'
  unfolding find
  same-perm [] [] h h' same = Perm.nil
  same-perm [] ((j, w) ∷ m') h h' same = elim (clash (same j) (eq_self j)) [ ]
    where
      clash : none ≡ (if j == j then some w else find j m') → (j == j) ≡ true → ⊥
      clash c d = ground arith
  same-perm ((k, v) ∷ m) m' (absent, h) h' same =
      let here : find k m' ≡ some v = rw (← same k, find, eq_self k) refl in
      Perm.trans
        (Perm.cons (k, v)
          (same-perm m (erase k m') h (erase-Distinct k m' h')
            (λ j. ground (arith, e.same_iff k j, find-erase k j m', same j))))
        (Perm.symm (erase-perm k v m' h' here))
