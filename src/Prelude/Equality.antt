-- ===== src/Prelude/Equality.antt =====
-- Equality as an interface: one operator `==` for numbers and byte strings.
use Prim.Native.Nat.{ℕ}
use mathlib.Core.Path.{◌≡◌, refl}
use mathlib.Core.Logic.{◌↔◌, ◌≢◌}
use mathlib.Core.Bool.{Bool, true, false, ◌&&◌}
use mathlib.Core.List.{List, [], ◌∷◌}
use native.Mathlib.Omega.{arith}
use mux.Prelude.Tests.{nat_beq, nat_beq_iff}

pub record HasEq {ℓ} (A : Type ℓ) : Type ℓ where
  pub same : A → A → Bool
  pub same_iff : (x y : A) → (same x y ≡ true) ↔ (x ≡ y)

infix 50 ◌==◌
abbrev pub ◌==◌ {ℓ} : {A : Type ℓ} ⦃e : HasEq A⦄ → A → A → Bool
◌==◌ ⦃e⦄ = e.same

instance abbrev pub nat_eq : HasEq ℕ
nat_eq = record { same = nat_beq; same_iff = nat_beq_iff }

abbrev pub bytes_beq : List ℕ → List ℕ → Bool
bytes_beq [] [] = true
bytes_beq (c ∷ s) (d ∷ t) = nat_beq c d && bytes_beq s t
bytes_beq _ _ = false

pub bytes_beq_iff : (s t : List ℕ) → (bytes_beq s t ≡ true) ↔ (s ≡ t)
bytes_beq_iff [] [] = (λ h. refl, λ h. refl)
bytes_beq_iff [] (d ∷ t) = (λ h. cc, λ h. cc)
bytes_beq_iff (c ∷ s) [] = (λ h. cc, λ h. cc)
bytes_beq_iff (c ∷ s) (d ∷ t) =
    (λ h. ground (arith, bytes_beq_iff s t), λ h. ground (arith, bytes_beq_iff s t))

instance abbrev pub bytes_eq : HasEq (List ℕ)
bytes_eq = record { same = bytes_beq; same_iff = bytes_beq_iff }

pub eq_self {ℓ} : {A : Type ℓ} ⦃e : HasEq A⦄ (a : A) → (a == a) ≡ true
eq_self ⦃e⦄ a = (e.same_iff a a).1 refl

pub ne_of_beq {ℓ} : {A : Type ℓ} ⦃e : HasEq A⦄ {a b : A} → (a == b) ≡ false → a ≢ b
ne_of_beq ⦃e⦄ {a} {b} h p = let q = (e.same_iff a b).1 p in cc
