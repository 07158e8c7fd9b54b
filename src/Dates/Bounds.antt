-- ===== src/Dates/Bounds.antt =====
-- src/day.cc: the bounds of a unit, and the order of days.
use mux.Prelude.{
  suc, ◌+◌, ◌*◌, ◌/◌, ◌≡◌, refl, ap, ◌∙◌, ◌⊎◌, inl, inr, true, false, arith, ltb, nat_beq,
  Bool-cases, ◌==◌, nat_eq, bytes_eq,
}
use mux.Prelude.Int.{ℤ, pos, negsuc, int_eq}
use mux.Dates.{
  TimeUnits, kyy, kmo, kdd, khh, kmm, kss, kms, kns, Tm, Day, times_million, seconds_of, int_ltb,
  at_kss, at_kmm, at_khh, at_kdd, at_kmo, first_of, local, of_tm, start_of, is_before, is_same,
  is_after, unix,
}

seconds_of-times_million : (n : ℤ) → seconds_of (times_million n) ≡ n
seconds_of-times_million (pos n) = ap pos (omega arith)
seconds_of-times_million (negsuc n) =
    let e : (n * 1000000 + 999999 + 1) / 1000000 ≡ suc n = omega arith in
    let z : nat_beq (suc n) 0 ≡ false = ground arith in rw (e, z) (ap negsuc (omega arith))

first_of-first_of : (u : TimeUnits) (tm : Tm) → first_of u (first_of u tm) ≡ first_of u tm
unfolding first_of at_kmo at_kdd at_khh at_kmm at_kss
first_of-first_of kyy tm = refl
first_of-first_of kmo tm = refl
first_of-first_of kdd tm = refl
first_of-first_of khh tm = refl
first_of-first_of kmm tm = refl
first_of-first_of kss tm = refl
first_of-first_of kms tm = refl
first_of-first_of kns tm = refl

-- The start of the start of a unit is the start of the unit, if the calendar reads back the time
-- that the start was made from.
pub start_of-start_of :
    (localtime : ℤ → Tm) (mktime : Tm → ℤ) (d : Day) (u : TimeUnits)
    → (let tm = first_of u (localtime (unix d)) in localtime (mktime tm) ≡ tm)
    → start_of localtime mktime (start_of localtime mktime d u) u ≡ start_of localtime mktime d u
unfolding start_of of_tm local unix
start_of-start_of localtime mktime d u h =
    let tm = first_of u (localtime (seconds_of d.time_point)) in
    ap (λ t. of_tm localtime mktime (first_of u (localtime t)))
      (seconds_of-times_million (mktime tm))
    ∙ ap (λ t. of_tm localtime mktime (first_of u t)) h
    ∙ ap (of_tm localtime mktime) (first_of-first_of u _)

-- Of two days exactly one is before, the same as, or after the other, and each comparison is the
-- other's turned round.
pub is_before-is_after :
    (d other : Day)
    → (is_after other d ≡ is_before d other)
      × (((is_before d other ≡ true) × (is_same d other ≡ false) × (is_after d other ≡ false))
          ⊎ (((is_before d other ≡ false) × (is_same d other ≡ true) × (is_after d other ≡ false))
              ⊎ ((is_before d other ≡ false)
                  × (is_same d other ≡ false)
                  × (is_after d other ≡ true))))
unfolding is_before is_same is_after
is_before-is_after d other = (refl, one_of d.time_point other.time_point)
  where
    one_of :
        (a b : ℤ)
        → ((int_ltb a b ≡ true) × ((a == b) ≡ false) × (int_ltb b a ≡ false))
          ⊎ (((int_ltb a b ≡ false) × ((a == b) ≡ true) × (int_ltb b a ≡ false))
              ⊎ ((int_ltb a b ≡ false) × ((a == b) ≡ false) × (int_ltb b a ≡ true)))
    one_of (pos a) (pos b) = elim (Bool-cases (ltb a b)) [
      | inl e ↦ inl (e, ground arith, ground arith)
      | inr e ↦ elim (Bool-cases (nat_beq a b)) [
        | inl f ↦ inr (inl (e, f, ground arith))
        | inr f ↦ inr (inr (e, f, ground arith))
      ]
    ]
    one_of (negsuc a) (negsuc b) = elim (Bool-cases (ltb b a)) [
      | inl e ↦ inl (e, ground arith, ground arith)
      | inr e ↦ elim (Bool-cases (nat_beq a b)) [
        | inl f ↦ inr (inl (e, f, ground arith))
        | inr f ↦ inr (inr (e, f, ground arith))
      ]
    ]
    one_of (pos a) (negsuc b) = inr (inr (refl, refl, refl))
    one_of (negsuc a) (pos b) = inl (refl, refl, refl)
