-- ===== src/Prelude/Decimal.antt =====
-- Decimal text of an `int`, as `std::to_string` and `operator<<` write it, and its reader.
use Prim.Native.Nat.{ℕ, zero, suc, ◌+◌, ◌-◌, ◌*◌, ◌/◌, ◌%◌, ◌≤◌, ◌<◌}
use mathlib.Core.Path.{◌≡◌, refl}
use mathlib.Core.Logic.{◌≢◌, ◌⊎◌}
use mathlib.Core.Bool.{◌&&◌}
use mathlib.Core.Option.{Option, none, some}
use mathlib.Core.List.{[], ◌∷◌, ◌++◌}
use native.Mathlib.Omega.{arith}
use mux.Prelude.Tests.{ltb, leb, if◌then◌else◌}
use mux.Prelude.Lists.{All, All-append}
use mux.Prelude.Int.{ℤ, pos, negsuc}
use mux.Prelude.Bytes.{Bytes, Lacks}

-- The digits of `n`, with fuel for the divisions by ten.
digits : ℕ → ℕ → Bytes
digits zero n = []
digits (suc f) n =
    let front = digits f (n / 10) in
    if ltb n 10 then (b'0' + n) ∷ [] else front ++ (b'0' + n % 10) ∷ []

unfoldable pub print_nat : ℕ → Bytes
unfolding digits
print_nat n = digits (suc n) n

unfoldable pub print_int : ℤ → Bytes
unfolding print_nat
print_int (pos n) = print_nat n
print_int (negsuc n) = b'-' ∷ print_nat (suc n)

abbrev pub IsDigit : ℕ → Type 0
IsDigit c = (b'0' ≤ c) × (c ≤ b'9')

read_from : ℕ → Bytes → Option ℕ
read_from n [] = some n
read_from n (c ∷ s) =
    let rest = read_from (n * 10 + (c - b'0')) s in if leb b'0' c && leb c b'9' then rest else none

-- The number that a text of one or more digits spells.
pub read_nat : Bytes → Option ℕ
unfolding read_from
read_nat [] = none
read_nat (c ∷ s) = read_from 0 (c ∷ s)

read_from-concat :
    (n m c : ℕ) (s : Bytes)
    → read_from n s ≡ some m
    → IsDigit c
    → read_from n (s ++ c ∷ []) ≡ some (m * 10 + (c - b'0'))
unfolding read_from
read_from-concat n m c [] h d = ground arith
read_from-concat n m c (x ∷ s) h d = ground (arith, read_from-concat (n * 10 + (x - b'0')) m c s)

read_from-digits : (f n : ℕ) → n < f → read_from 0 (digits f n) ≡ some n
unfolding read_from digits
read_from-digits zero n h = elim h [ ]
read_from-digits (suc f) n h = ground (
  arith,
  read_from-digits f (n / 10),
  read_from-concat 0 (n / 10) (b'0' + n % 10) (digits f (n / 10)),
)

read_nat-eq_read_from : (s : Bytes) → s ≢ [] → read_nat s ≡ read_from 0 s
unfolding read_nat
read_nat-eq_read_from [] h = absurd (h refl)
read_nat-eq_read_from (c ∷ s) h = refl

concat-ne-nil : (s : Bytes) (c : ℕ) → s ++ c ∷ [] ≢ []
concat-ne-nil [] c = cc
concat-ne-nil (x ∷ s) c = cc

digits-ne-nil : (f n : ℕ) → digits (suc f) n ≢ []
unfolding digits
digits-ne-nil f n = ground (arith, concat-ne-nil (digits f (n / 10)) (b'0' + n % 10))

-- What is printed is read back.
pub read_nat-print_nat : (n : ℕ) → read_nat (print_nat n) ≡ some n
unfolding print_nat
read_nat-print_nat n =
    rw (read_nat-eq_read_from _ (digits-ne-nil n n)) (read_from-digits (suc n) n (omega arith))

digits-All : (f n : ℕ) → All IsDigit (digits f n)
unfolding digits
digits-All zero n = tt
digits-All (suc f) n =
    ground
      (arith, All-append IsDigit (digits f (n / 10)) ((b'0' + n % 10) ∷ []) (digits-All f (n / 10)))

Lacks-digits : (c : ℕ) (s : Bytes) → (c < b'0') ⊎ (b'9' < c) → All IsDigit s → Lacks c s
Lacks-digits c [] h d = tt
Lacks-digits c (x ∷ s) h (p, d) = (omega arith, Lacks-digits c s h d)

-- A byte that is no digit does not occur in the print of a number.
pub print_nat-Lacks : (c n : ℕ) → (c < b'0') ⊎ (b'9' < c) → Lacks c (print_nat n)
unfolding print_nat
print_nat-Lacks c n h = Lacks-digits c _ h (digits-All (suc n) n)

pub print_int-Lacks : (c : ℕ) (n : ℤ) → (c < b'-') ⊎ (b'9' < c) → Lacks c (print_int n)
unfolding print_int
print_int-Lacks c (pos n) h = print_nat-Lacks c n (omega arith)
print_int-Lacks c (negsuc n) h = (omega arith, print_nat-Lacks c (suc n) (omega arith))
