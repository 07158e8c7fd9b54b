-- ===== src/Generators/Tests.antt =====
-- Runs of the generators of Socket/Generator.hpp.
use mux.Prelude.{◌≡◌, nat_eq, bytes_eq}
use mux.Prelude.Int.{int_eq}
use mux.Generators.{fibonacci_sequence}
use mux.Generators.Loop.{of_list}
use mux.Generators.Fibonacci.{fibs, fibonacci_sequence-fibs}

fibonacci_sequence-fibs_example : fibonacci_sequence 94 ≡ of_list (fibs 0 94)
fibonacci_sequence-fibs_example = fibonacci_sequence-fibs 94
