-- ===== src/Generators/Fibonacci.antt =====
-- Socket/Generator.hpp: fibonacci_sequence and the Fibonacci numbers.
use mux.Prelude.{
  ℕ, zero, suc, ◌+◌, ◌-◌, ◌%◌, ◌^◌, ◌≤◌, ◌<◌, ◌≡◌, refl, ap, inl, inr, false, List, [], ◌∷◌, arith,
  ltb, if◌then◌else◌, Bool-cases, ◌==◌, nat_eq, bytes_eq,
}
use mux.Prelude.Int.{int_eq}
use mux.Generators.{yields, throws, fibonacci_loop, fibonacci_sequence}
use mux.Generators.Loop.{of_list}

-- Two neighbours of the Fibonacci sequence.
unfoldable pub fib_pair : ℕ → ℕ × ℕ
fib_pair zero = (0, 1)
fib_pair (suc n) = let (a, b) = fib_pair n in (b, a + b)

unfoldable pub fib : ℕ → ℕ
unfolding fib_pair
fib n = (fib_pair n).0

-- `count` Fibonacci numbers from the `n`-th on.
unfoldable pub fibs : ℕ → ℕ → List ℕ
fibs n zero = []
fibs n (suc count) = fib n ∷ fibs (suc n) count

pub fib-suc-suc : (n : ℕ) → fib (suc (suc n)) ≡ fib n + fib (suc n)
unfolding fib fib_pair
fib-suc-suc n = refl

fib-≤-suc : (n : ℕ) → fib n ≤ fib (suc n)
unfolding fib fib_pair
fib-≤-suc zero = omega arith
fib-≤-suc (suc n) = omega arith

pub fib_mono : (k n m : ℕ) → k + n ≡ m → fib n ≤ fib m
fib_mono zero n m e = let same : n ≡ m = omega arith in rw same (omega arith)
fib_mono (suc k) n m e = omega (arith, fib-≤-suc n, fib_mono k (suc n) m (omega arith))

pub fib_93 : fib 93 < 2 ^ 64
unfolding fib fib_pair
fib_93 = omega arith

fibonacci_loop-fibs :
    (count n : ℕ)
    → n + 1 + count ≤ 93
    → fibonacci_loop count (fib n) (fib (suc n)) ≡ of_list (fibs (suc (suc n)) count)
unfolding fibonacci_loop fibs of_list
fibonacci_loop-fibs zero n h = refl
fibonacci_loop-fibs (suc count) n h =
    let small = fib_mono (93 - suc (suc n)) (suc (suc n)) 93 (omega arith) in
    let e : (fib n + fib (suc n)) % 2 ^ 64 ≡ fib (suc (suc n)) =
      omega (arith, fib-suc-suc n, small, fib_93) in
    rw e (ap (yields (fib (suc (suc n)))) (fibonacci_loop-fibs count (suc n) (omega arith)))

larger : (n m : ℕ) → m < n → (n == m) ≡ false
larger n m h = ground arith

-- The generator yields the first `n` Fibonacci numbers, exactly and not modulo 2 ^ 64, for every
-- `n` up to 94; for a larger `n` it throws at the first resumption.
pub fibonacci_sequence-fibs :
    (n : ℕ) → fibonacci_sequence n ≡ (if ltb 94 n then throws else of_list (fibs 0 n))
unfolding fibonacci_sequence of_list fibs fib fib_pair
fibonacci_sequence-fibs zero = refl
fibonacci_sequence-fibs (suc zero) = refl
fibonacci_sequence-fibs (suc (suc zero)) = refl
fibonacci_sequence-fibs (suc (suc (suc k))) =
    let n = suc (suc (suc k)) in
    let not_0 = larger n 0 (omega arith) in
    let not_1 = larger n 1 (omega arith) in
    let not_2 = larger n 2 (omega arith) in
    elim (Bool-cases (ltb 94 n)) [
      | inl e ↦ rw (e, not_0) refl
      | inr e ↦
          rw (e, not_0, not_1, not_2)
            (ap (λ rest. yields 0 (yields 1 rest))
              (rw (minus_two k) (fibonacci_loop-fibs (suc k) 0 (ground (arith, e)))))
    ]
  where
    minus_two : (k : ℕ) → suc (suc (suc k)) - 2 ≡ suc k
    minus_two k = omega arith
