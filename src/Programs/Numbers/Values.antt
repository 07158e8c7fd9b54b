-- ===== src/Programs/Numbers/Values.antt =====
-- tests/factorial.cc: `fibonacci` next to the generator of Socket/Generator.hpp, and `factorial`
-- next to the factorials.
use native.Mathlib.Nat
use mux.Prelude.{
  ℕ, zero, suc, ◌+◌, ◌-◌, ◌*◌, ◌/◌, ◌%◌, ◌^◌, ◌≤◌, ◌<◌, ◌≡◌, refl, sym, ap, ◌∙◌, inl, inr, false,
  List, [], ◌∷◌, arith, ltb, leb, if◌then◌else◌, Bool-cases, ◌==◌, nat_eq, bytes_eq,
}
use mux.Prelude.Int.{int_eq}
use mux.Programs.Numbers.{fibonacci, factorial}
use mux.Generators.{fibonacci_sequence}
use mux.Generators.Loop.{of_list}
use mux.Generators.Fibonacci.{fib, fibs, fib-suc-suc, fib_mono, fib_93, fibonacci_sequence-fibs}

fibonacci-fib : (n : ℕ) → fibonacci n ≡ fib n % 2 ^ 64
unfolding fibonacci fib
fibonacci-fib zero = refl
fibonacci-fib (suc zero) = refl
fibonacci-fib (suc (suc n)) = omega (arith, fibonacci-fib n, fibonacci-fib (suc n), fib-suc-suc n)

fibonacci-fib_small : (n : ℕ) → n ≤ 93 → fibonacci n ≡ fib n
fibonacci-fib_small n h =
    omega (arith, fibonacci-fib n, fib_mono (93 - n) n 93 (omega arith), fib_93)

ltb-false : (m n : ℕ) → n ≤ m → ltb m n ≡ false
ltb-false m n h = ground (arith, h)

-- `fibonacci n`, `fibonacci (n + 1)` and so on, `count` values.
pub values : ℕ → ℕ → List ℕ
values n zero = []
values n (suc count) = fibonacci n ∷ values (suc n) count

values-fibs : (count n : ℕ) → n + count ≤ 94 → values n count ≡ fibs n count
unfolding values fibs
values-fibs zero n h = refl
values-fibs (suc count) n h =
    rw (fibonacci-fib_small n (omega (arith, h)))
      (ap (fib n ∷◌) (values-fibs count (suc n) (omega (arith, h))))

-- For every `n` up to 94, the generator yields the values of the recursive function at the first
-- `n` numbers, in their order, and ends.
pub fibonacci_sequence-fibonacci : (n : ℕ) → n ≤ 94 → fibonacci_sequence n ≡ of_list (values 0 n)
unfolding values fibs
fibonacci_sequence-fibonacci n h =
    rw (fibonacci_sequence-fibs n, ltb-false 94 n h, values-fibs n 0 (omega (arith, h))) refl

pub fact : ℕ → ℕ
fact zero = 1
fact (suc n) = fact n * suc n

fact-≤-suc : (n : ℕ) → fact n ≤ fact (suc n)
unfolding fact
fact-≤-suc n = Nat.le-mul_of_pos_right (fact n) (omega arith)

fact_mono : (k n m : ℕ) → k + n ≡ m → fact (suc n) ≤ fact (suc m)
fact_mono zero n m e = let same : n ≡ m = omega (arith, e) in rw same (omega arith)
fact_mono (suc k) n m e =
    omega (arith, fact-≤-suc (suc n), fact_mono k (suc n) m (omega (arith, e)))

fact_12 : fact 12 < 2 ^ 32
unfolding fact
fact_12 = omega arith

mod-mul : (m a b : ℕ) → (a % m * b) % m ≡ a * b % m
mod-mul m a b = sym (ap (λ x. x % m) split ∙ Nat.mul-add-mod_self_left m (a / m * b) (a % m * b))
  where
    split : a * b ≡ m * (a / m * b) + a % m * b
    split = rw (← Nat.mul_assoc m (a / m) b, ← Nat.add-mul, Nat.div-add-mod)

factorial-fact : (n : ℕ) → factorial (suc n) ≡ fact (suc n) % 2 ^ 32
unfolding factorial fact
factorial-fact zero = refl
factorial-fact (suc n) = rw (factorial-fact n) (mod-mul (2 ^ 32) (fact (suc n)) (suc (suc n)))

factorial-zero : (k n m : ℕ) → k + n ≡ m → factorial (suc n) ≡ 0 → factorial (suc m) ≡ 0
unfolding factorial
factorial-zero zero n m e h = let same : n ≡ m = omega (arith, e) in rw⁻¹ same h
factorial-zero (suc k) n m e h = factorial-zero k (suc n) m (omega (arith, e)) (rw h (omega arith))

factorial_34 : factorial 34 ≡ 0
unfolding factorial
factorial_34 = refl

-- The function gives 0 for 0, whose factorial is 1, the factorial from 1 to 12, the factorial
-- modulo 2 ^ 32 above, and 0 for every number from 34 on.
pub factorial_lem :
    (n : ℕ)
    → factorial n
      ≡ (if n == 0 then 0 else if leb 34 n then 0 else if ltb n 13 then fact n else fact n % 2 ^ 32)
unfolding factorial
factorial_lem zero = refl
factorial_lem (suc n) = rw (suc_beq n) (elim (Bool-cases (leb 34 (suc n))) [
  | inl e ↦ rw e (factorial-zero (n - 33) 33 n (ground (arith, e)) factorial_34)
  | inr e ↦ rw e (elim (Bool-cases (ltb (suc n) 13)) [
    | inl l ↦
        let small : n ≤ 11 = ground (arith, l) in
        rw l
          (omega (arith, factorial-fact n, fact_mono (11 - n) n 11 (omega (arith, small)), fact_12))
    | inr l ↦ rw l (factorial-fact n)
  ])
])
  where
    suc_beq : (n : ℕ) → (suc n == 0) ≡ false
    suc_beq n = ground arith
