-- ===== src/Programs/Numbers.antt =====
-- tests/factorial.cc and tests/coroutines.cc: the two functions whose values they check.
pub mod Values
mod Tests
use mux.Prelude.{ℕ, zero, suc, ◌+◌, ◌*◌, ◌%◌, ◌^◌}

-- `number - 1` and `number - 2` are not below 0, where they are computed.
unfoldable pub fibonacci : ℕ → ℕ
fibonacci zero = 0
fibonacci (suc zero) = 1
fibonacci (suc (suc n)) = (fibonacci (suc n) + fibonacci n) % 2 ^ 64

unfoldable pub factorial : ℕ → ℕ
factorial zero = 0
factorial (suc zero) = 1
factorial (suc (suc n)) = (factorial (suc n) * suc (suc n)) % 2 ^ 32
