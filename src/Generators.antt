-- ===== src/Generators.antt =====
-- Socket/Generator.hpp: the class Generator over a coroutine body, and fibonacci_sequence.
pub mod Loop
pub mod Fibonacci
mod Thrown
mod Tests
use mux.Prelude.{
  ℕ, zero, suc, ◌+◌, ◌-◌, ◌*◌, ◌/◌, ◌%◌, ◌^◌, ◌≤◌, ◌<◌, ◌≡◌, refl, sym, ap, ◌∙◌, ◌≡⟨◌⟩◌, ◌∎, ◌≢◌,
  ◌↔◌, ◌⊎◌, inl, inr, Bool, true, false, not, ◌&&◌, ◌||◌, Option, none, some, List, [], ◌∷◌, ◌++◌,
  map, append_assoc, append-nil, arith, ltb, leb, nat_beq, nat_beq_iff, if◌then◌else◌, Bool-cases,
  Option-cases, eq-false_of_ne_true, length, take, drop, length-append, take-length,
  drop-length-append, All, All-append, HasEq, ◌==◌, nat_eq, bytes_eq, bytes_beq, bytes_beq_iff,
  eq_self, ne_of_beq,
}
use mux.Prelude.Int.{ℤ, pos, negsuc, minus_one, int_beq, int_beq_iff, int_eq, is_neg, is_pos}
use mux.Prelude.Map.{
  Map, find, contains, insert, erase, subscript, find-insert, find-erase, contains-find, map_laws,
}
use mux.Prelude.Bytes.{Bytes, codes, cr, lf, crlf, Lacks}
use mux.Prelude.Decimal.{
  print_nat, print_int, read_nat, IsDigit, read_nat-print_nat, print_nat-Lacks, print_int-Lacks,
}

-- What a coroutine does from where it stands, up to the next suspension: it yields, ends, or
-- throws.
pub data Body (T : Type 0) : Type 0 where
  yields : T → Body T → Body T
  returns throws : Body T

pub record Generator (T : Type 0) : Type 0 where
  pub body : Body T
  pub is_done : Bool
  -- promise_type::value_, without a value at first
  pub value : Option T
  pub full : Bool

-- A call returns, throws what the coroutine threw, which leaves a generator too, or resumes a
-- coroutine that is at its end, which is undefined.
pub data Result (T A : Type 0) : Type 0 where
  ok : A → Result T A
  thrown : Generator T → Result T A
  undefined : Result T A

module _ {T : Type 0} where
  -- get_return_object; the body does not start before the first resumption.
  pub start : Body T → Generator T
  start body = record { body = body; is_done = false; value = none; full = false }

  -- An exception ends the coroutine: `unhandled_exception` keeps it, and `fill` throws it again.
  resume : Body T → Generator T → Result T (Generator T)
  resume (yields v rest) g = ok (record g { body = rest; value = some v; full = true })
  resume returns g = ok (record g { is_done = true; full = true })
  resume throws g = thrown (record g { body = returns; is_done = true })

  -- Generator::fill
  pub fill : Generator T → Result T (Generator T)
  unfolding resume
  fill g = if g.full then ok g else if g.is_done then undefined else resume g.body g

  with_test : Result T (Generator T) → Result T (Bool × Generator T)
  with_test (ok g) = ok (not g.is_done, g)
  with_test (thrown g) = thrown g
  with_test undefined = undefined

  -- Generator::operator bool
  pub has_next : Generator T → Result T (Bool × Generator T)
  unfolding fill with_test
  has_next g = with_test (fill g)

  with_value : Result T (Generator T) → Result T (Option T × Generator T)
  with_value (ok g) = ok (g.value, record g { full = false })
  with_value (thrown g) = thrown g
  with_value undefined = undefined

  -- Generator::operator()
  pub next : Generator T → Result T (Option T × Generator T)
  unfolding fill with_value
  next g = with_value (fill g)

-- `s = a + b; co_yield s; a = b; b = s;`, `count` times, on 64 bits
fibonacci_loop : ℕ → ℕ → ℕ → Body ℕ
fibonacci_loop zero a b = returns
fibonacci_loop (suc count) a b = let s = (a + b) % 2 ^ 64 in yields s (fibonacci_loop count b s)

pub fibonacci_sequence : ℕ → Body ℕ
unfolding fibonacci_loop
fibonacci_sequence n =
    if n == 0
    then returns
    else if ltb 94 n
    then throws
    else yields 0 (
        if n == 1
        then returns
        else yields 1 (if n == 2 then returns else fibonacci_loop (n - 2) 0 1))
