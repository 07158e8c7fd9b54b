-- ===== src/Prelude/Int.antt =====
-- Signed integers over the native numbers: `int` results of system calls, descriptors, statuses.
use mux.Prelude.Tests.{nat_beq}
use mux.Prelude.Equality.{HasEq}
use Prim.Native.Nat.{ℕ}
use mathlib.Core.Path.{◌≡◌}
use mathlib.Core.Logic.{◌↔◌}
use mathlib.Core.Bool.{Bool, true, false, not}
use native.Mathlib.Omega.{arith}

-- `negsuc n` is -(n + 1).
pub data ℤ : Type 0 where
  pos : ℕ → ℤ
  negsuc : ℕ → ℤ

abbrev pub minus_one : ℤ
minus_one = negsuc 0

abbrev pub int_beq : ℤ → ℤ → Bool
int_beq (pos a) (pos b) = nat_beq a b
int_beq (negsuc a) (negsuc b) = nat_beq a b
int_beq _ _ = false

pub int_beq_iff : (a b : ℤ) → (int_beq a b ≡ true) ↔ (a ≡ b)
int_beq_iff (pos a) (pos b) = (λ h. ground arith, λ h. ground arith)
int_beq_iff (negsuc a) (negsuc b) = (λ h. ground arith, λ h. ground arith)
int_beq_iff (pos a) (negsuc b) = (λ h. cc, λ h. cc)
int_beq_iff (negsuc a) (pos b) = (λ h. cc, λ h. cc)

instance abbrev pub int_eq : HasEq ℤ
int_eq = record { same = int_beq; same_iff = int_beq_iff }

-- `x < 0`
abbrev pub is_neg : ℤ → Bool
is_neg (pos n) = false
is_neg (negsuc n) = true

-- `x > 0`
abbrev pub is_pos : ℤ → Bool
is_pos (pos n) = not (nat_beq n 0)
is_pos (negsuc n) = false
