-- ===== src/Programs/Numbers/Tests.antt =====
-- Runs of the functions of tests/factorial.cc.
use mux.Prelude.{◌≡◌, refl}
use mux.Programs.Numbers.{fibonacci, factorial}

factorial_10 : factorial 10 ≡ 3628800
unfolding factorial
factorial_10 = refl

fibonacci_20 : fibonacci 20 ≡ 6765
unfolding fibonacci
fibonacci_20 = refl
