-- ===== src/Prelude/Map.antt =====
-- `std::unordered_map`, as the list of its entries, oldest first. Its iteration order is
-- unspecified; a function that iterates takes the order as an argument.
pub mod Distinct
use mux.Prelude.Tests.{if◌then◌else◌}
use mux.Prelude.Equality.{HasEq, ◌==◌, eq_self}
use mathlib.Core.Path.{◌≡◌, refl}
use mathlib.Core.Bool.{Bool, true, false}
use mathlib.Core.Option.{Option, none, some}
use mathlib.Core.List.{List, [], ◌∷◌}
use native.Mathlib.Omega.{arith}

abbrev pub Map {ℓ κ} : Type ℓ → Type κ → Type (ℓ ⊔ κ)
Map K V = List (K × V)

module _ {ℓ κ} {K : Type ℓ} {V : Type κ} ⦃e : HasEq K⦄ where
  unfoldable pub find : K → Map K V → Option V
  find k [] = none
  find k ((j, v) ∷ m) = if j == k then some v else find k m

  -- `m.contains(k)`
  pub contains : K → Map K V → Bool
  contains k [] = false
  contains k ((j, v) ∷ m) = if j == k then true else contains k m

  -- `m[k] = v`
  unfoldable pub insert : K → V → Map K V → Map K V
  insert k v [] = (k, v) ∷ []
  insert k v ((j, w) ∷ m) = let rest = insert k v m in if j == k then (j, v) ∷ m else (j, w) ∷ rest

  -- `m.erase(k)`
  pub erase : K → Map K V → Map K V
  erase k [] = []
  erase k ((j, v) ∷ m) = let rest = erase k m in if j == k then rest else (j, v) ∷ rest

  -- `m[k]` read: a missing key is inserted with the default value.
  unfoldable pub subscript : K → V → Map K V → V × Map K V
  subscript k d m = elim (find k m) [ some v ↦ (v, m) | none ↦ (d, insert k d m) ]

  pub find-insert :
      (k j : K) (v : V) (m : Map K V)
      → find j (insert k v m) ≡ (if k == j then some v else find j m)
  unfolding find insert
  find-insert k j v [] = refl
  find-insert k j v ((i, w) ∷ m) =
      ground (arith, e.same_iff k j, e.same_iff i k, e.same_iff i j, find-insert k j v m)

  pub find-erase :
      (k j : K) (m : Map K V) → find j (erase k m) ≡ (if k == j then none else find j m)
  unfolding find erase
  find-erase k j [] = ground arith
  find-erase k j ((i, w) ∷ m) =
      ground (arith, e.same_iff k j, e.same_iff i k, e.same_iff i j, find-erase k j m)

  pub contains-find :
      (k : K) (m : Map K V) → contains k m ≡ elim (find k m) [ some v ↦ true | none ↦ false ]
  unfolding contains find
  contains-find k [] = refl
  contains-find k ((i, w) ∷ m) = ground (arith, contains-find k m)

pub ruleset map_laws = (find-insert, find-erase, eq_self)
