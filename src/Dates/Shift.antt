-- ===== src/Dates/Shift.antt =====
-- src/day.cc: Day::add and Day::subtract. A duration counts seconds, a time point microseconds;
-- both have 64 bits, and what goes beyond is undefined.
mod Tests
use mux.Prelude.{
  ℕ, zero, suc, ◌+◌, ◌-◌, ◌*◌, ◌/◌, ◌%◌, ◌^◌, ◌≤◌, ◌<◌, ◌≡◌, refl, sym, ap, ◌∙◌, ◌≡⟨◌⟩◌, ◌∎, ◌≢◌,
  ◌↔◌, ◌⊎◌, inl, inr, Bool, true, false, not, ◌&&◌, ◌||◌, Option, none, some, List, [], ◌∷◌, ◌++◌,
  map, append_assoc, append-nil, arith, ltb, leb, nat_beq, nat_beq_iff, if◌then◌else◌, Bool-cases,
  Option-cases, eq-false_of_ne_true, length, take, drop, length-append, take-length,
  drop-length-append, All, All-append, HasEq, ◌==◌, nat_eq, bytes_eq, bytes_beq, bytes_beq_iff,
  eq_self, ne_of_beq,
}
use mux.Prelude.Int.{ℤ, pos, negsuc, minus_one, int_beq, int_beq_iff, int_eq, is_neg, is_pos}
use mux.Prelude.Map.{
  Map, find, contains, insert, erase, subscript, find-insert, find-erase, contains-find, map_laws,
}
use mux.Prelude.Bytes.{Bytes, codes, cr, lf, crlf, Lacks}
use mux.Prelude.Decimal.{
  print_nat, print_int, read_nat, IsDigit, read_nat-print_nat, print_nat-Lacks, print_int-Lacks,
}
use mux.Dates.{Day, times_million, seconds_of, unix}

unfoldable pub int_add : ℤ → ℤ → ℤ
int_add (pos a) (pos b) = pos (a + b)
int_add (pos a) (negsuc b) = if ltb b a then pos (a - b - 1) else negsuc (b - a)
int_add (negsuc a) (pos b) = if ltb a b then pos (b - a - 1) else negsuc (a - b)
int_add (negsuc a) (negsuc b) = negsuc (a + b + 1)

unfoldable pub int_sub : ℤ → ℤ → ℤ
unfolding int_add
int_sub a (pos zero) = a
int_sub a (pos (suc b)) = int_add a (negsuc b)
int_sub a (negsuc b) = int_add a (pos (suc b))

-- A number of 64 bits, or none
pub checked : ℤ → Option ℤ
checked (pos n) = if ltb n (2 ^ 63) then some (pos n) else none
checked (negsuc n) = if ltb n (2 ^ 63) then some (negsuc n) else none

day_at : Option ℤ → Option Day
day_at none = none
day_at (some t) = some (record { time_point = t })

shifted : Option ℤ → (ℤ → ℤ) → Option Day
unfolding checked day_at
shifted none move = none
shifted (some micros) move = day_at (checked (move micros))

-- Day::add and Day::subtract, or none where a number leaves its 64 bits
pub add : Day → ℤ → Option Day
unfolding shifted checked int_add
add d duration = shifted (checked (times_million duration)) (int_add d.time_point)

pub subtract : Day → ℤ → Option Day
unfolding shifted checked int_sub
subtract d duration = shifted (checked (times_million duration)) (int_sub d.time_point)

checked-some : (x y : ℤ) → checked x ≡ some y → x ≡ y
unfolding checked
checked-some (pos n) y h = elim (Bool-cases (ltb n (2 ^ 63))) [
  | inl e ↦ let k = rw e at h in cc
  | inr e ↦ let k = rw e at h in cc
]
checked-some (negsuc n) y h = elim (Bool-cases (ltb n (2 ^ 63))) [
  | inl e ↦ let k = rw e at h in cc
  | inr e ↦ let k = rw e at h in cc
]

int_sub-int_add : (a b : ℤ) → int_sub (int_add a b) b ≡ a
unfolding int_add int_sub
int_sub-int_add (pos a) (pos zero) = ap pos (omega arith)
int_sub-int_add (pos a) (pos (suc b)) = ground arith
int_sub-int_add (pos a) (negsuc b) = ground arith
int_sub-int_add (negsuc a) (pos zero) = ground arith
int_sub-int_add (negsuc a) (pos (suc b)) = ground arith
int_sub-int_add (negsuc a) (negsuc b) = ground arith

-- A time point of 64 bits
abbrev pub IsTime : Day → Type 0
IsTime d = checked d.time_point ≡ some d.time_point

day_at-some : (o : Option ℤ) (e : Day) → day_at o ≡ some e → o ≡ some e.time_point
unfolding day_at
day_at-some none e h = cc
day_at-some (some t) e h = ap (λ o. elim o [ some x ↦ some x.time_point | none ↦ some (pos 0) ]) h

shifted-back :
    (o : Option ℤ) (d e : Day)
    → IsTime d
    → shifted o (int_add d.time_point) ≡ some e
    → shifted o (int_sub e.time_point) ≡ some d
unfolding shifted
shifted-back none d e h a = cc
shifted-back (some micros) d e h a =
    let moved = checked-some _ e.time_point (day_at-some _ e a) in
    let back = ap (λ x. int_sub x micros) (sym moved) ∙ int_sub-int_add d.time_point micros in
    ap (λ x. day_at (checked x)) back ∙ unfold day_at in ap day_at h

-- A duration that could be added to a day can be subtracted again, which gives the day back
-- exactly.
pub subtract-add :
    (d e : Day) (duration : ℤ) → IsTime d → add d duration ≡ some e → subtract e duration ≡ some d
unfolding add subtract
subtract-add d e duration h a = shifted-back (checked (times_million duration)) d e h a
