-- ===== src/Dates.antt =====
-- src/day.cc: class Day. The calendar of the C library, `localtime` and `mktime`, is an argument; a
-- time point counts the microseconds of libc++'s system clock.
pub mod Bounds
pub mod Fields
pub mod Shift
pub mod Main
mod Tests
use mux.Prelude.{
  ℕ, zero, suc, ◌+◌, ◌-◌, ◌*◌, ◌/◌, ◌%◌, ◌^◌, ◌≤◌, ◌<◌, ◌≡◌, refl, sym, ap, ◌∙◌, ◌≡⟨◌⟩◌, ◌∎, ◌≢◌,
  ◌↔◌, ◌⊎◌, inl, inr, Bool, true, false, not, ◌&&◌, ◌||◌, Option, none, some, List, [], ◌∷◌, ◌++◌,
  map, append_assoc, append-nil, arith, ltb, leb, nat_beq, nat_beq_iff, if◌then◌else◌, Bool-cases,
  Option-cases, eq-false_of_ne_true, length, take, drop, length-append, take-length,
  drop-length-append, All, All-append, HasEq, ◌==◌, nat_eq, bytes_eq, bytes_beq, bytes_beq_iff,
  eq_self, ne_of_beq,
}
use mux.Prelude.Int.{ℤ, pos, negsuc, minus_one, int_beq, int_beq_iff, int_eq, is_neg, is_pos}
use mux.Prelude.Map.{
  Map, find, contains, insert, erase, subscript, find-insert, find-erase, contains-find, map_laws,
}
use mux.Prelude.Bytes.{Bytes, codes, cr, lf, crlf, Lacks}
use mux.Prelude.Decimal.{
  print_nat, print_int, read_nat, IsDigit, read_nat-print_nat, print_nat-Lacks, print_int-Lacks,
}

pub data TimeUnits : Type 0 where
  kyy kmo kdd khh kmm kss kms kns : TimeUnits

-- The fields of `std::tm` that the class reads or writes.
pub record Tm : Type 0 where
  pub year : ℤ
  pub mon : ℤ
  pub mday : ℤ
  pub hour : ℤ
  pub min : ℤ
  pub sec : ℤ
  pub wday : ℤ

pub record Day : Type 0 where
  pub time_point : ℤ

abbrev pub times_million : ℤ → ℤ
times_million (pos n) = pos (n * 1000000)
times_million (negsuc n) = negsuc (n * 1000000 + 999999)

-- A `duration_cast` to seconds rounds towards zero.
abbrev pub seconds_of : ℤ → ℤ
seconds_of (pos n) = pos (n / 1000000)
seconds_of (negsuc n) = let q = (n + 1) / 1000000 in if q == 0 then pos 0 else negsuc (q - 1)

-- `a < b`
abbrev int_ltb : ℤ → ℤ → Bool
int_ltb (pos a) (pos b) = ltb a b
int_ltb (negsuc a) (negsuc b) = ltb b a
int_ltb (negsuc a) (pos b) = true
int_ltb (pos a) (negsuc b) = false

-- The switch of startOf, each case falling through to those below it.
at_kss : Tm → Tm
at_kss tm = record tm { sec = pos 0 }

at_kmm : Tm → Tm
unfolding at_kss
at_kmm tm = at_kss (record tm { sec = pos 0 })

at_khh : Tm → Tm
unfolding at_kmm
at_khh tm = at_kmm (record tm { min = pos 0 })

at_kdd : Tm → Tm
unfolding at_khh
at_kdd tm = at_khh (record tm { hour = pos 0 })

at_kmo : Tm → Tm
unfolding at_kdd
at_kmo tm = at_kdd (record tm { mday = pos 1 })

pub first_of : TimeUnits → Tm → Tm
unfolding at_kmo at_kdd at_khh at_kmm at_kss
first_of kyy tm = at_kmo (record tm { mon = pos 0 })
first_of kmo tm = at_kmo tm
first_of kdd tm = at_kdd tm
first_of khh tm = at_khh tm
first_of kmm tm = at_kmm tm
first_of kss tm = at_kss tm
first_of _ tm = tm

-- The switch of endOf.
to_kss : Tm → Tm
to_kss tm = record tm { sec = pos 59 }

to_kmm : Tm → Tm
unfolding to_kss
to_kmm tm = to_kss (record tm { sec = pos 59 })

to_khh : Tm → Tm
unfolding to_kmm
to_khh tm = to_kmm (record tm { min = pos 59 })

to_kdd : Tm → Tm
unfolding to_khh
to_kdd tm = to_khh (record tm { hour = pos 23 })

to_kmo : Tm → Tm
unfolding to_kdd
to_kmo tm = to_kdd (record tm { mday = pos 31 })

last_of : TimeUnits → Tm → Tm
unfolding to_kmo to_kdd to_khh to_kmm to_kss
last_of kyy tm = to_kmo (record tm { mon = pos 11 })
last_of kmo tm = to_kmo tm
last_of kdd tm = to_kdd tm
last_of khh tm = to_khh tm
last_of kmm tm = to_kmm tm
last_of kss tm = to_kss tm
last_of _ tm = tm

module _ (localtime : ℤ → Tm) (mktime : Tm → ℤ) where
  pub local : Day → Tm
  local d = localtime (seconds_of d.time_point)

  -- Day::Day(const std::tm&)
  pub of_tm : Tm → Day
  of_tm tm = record { time_point = times_million (mktime tm) }

  pub start_of : Day → TimeUnits → Day
  unfolding local of_tm first_of
  start_of d unit = of_tm (first_of unit (local d))

  pub end_of : Day → TimeUnits → Day
  unfolding local of_tm last_of
  end_of d unit = of_tm (last_of unit (local d))

pub is_before : Day → Day → Bool
is_before d other = int_ltb d.time_point other.time_point

pub is_same : Day → Day → Bool
is_same d other = d.time_point == other.time_point

pub is_after : Day → Day → Bool
is_after d other = int_ltb other.time_point d.time_point

pub unix : Day → ℤ
unix d = seconds_of d.time_point
