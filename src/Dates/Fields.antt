-- ===== src/Dates/Fields.antt =====
-- src/day.cc: the getters of class Day, its text, and the constructor that reads one. Each getter
-- goes through an unsigned number of 64 bits and back to an `int`.
use mux.Prelude.{
  ℕ, ◌+◌, ◌-◌, ◌%◌, ◌^◌, ◌<◌, ◌≡◌, Option, none, some, arith, ltb, if◌then◌else◌, length, nat_eq,
  bytes_eq,
}
use mux.Prelude.Int.{ℤ, pos, negsuc, int_eq}
use mux.Prelude.Bytes.{Bytes}
use mux.Dates.{Tm, Day, local, of_tm}

-- A conversion to `uint_fast64_t`, and one of such a number to `int`.
abbrev to_unsigned : ℤ → ℕ
to_unsigned (pos n) = n % 2 ^ 64
to_unsigned (negsuc n) = 2 ^ 64 - 1 - n % 2 ^ 64

abbrev to_int : ℕ → ℤ
to_int n = let w = n % 2 ^ 32 in if ltb w (2 ^ 31) then pos w else negsuc (2 ^ 32 - 1 - w)

-- `x + n` for a number `n` that is not negative
unfoldable pub plus : ℤ → ℕ → ℤ
plus (pos m) n = pos (m + n)
plus (negsuc m) n = if ltb m n then pos (n - m - 1) else negsuc (m - n)

module _ (localtime : ℤ → Tm) (mktime : Tm → ℤ) where
  -- getYear and the others
  get_year : Day → ℕ
  unfolding local plus
  get_year d = to_unsigned (plus (local localtime mktime d).year 1900)

  get_month : Day → ℕ
  unfolding local plus
  get_month d = to_unsigned (plus (local localtime mktime d).mon 1)

  get_day : Day → ℕ
  unfolding local
  get_day d = to_unsigned (local localtime mktime d).mday

  get_hour : Day → ℕ
  unfolding local
  get_hour d = to_unsigned (local localtime mktime d).hour

  get_minute : Day → ℕ
  unfolding local
  get_minute d = to_unsigned (local localtime mktime d).min

  get_second : Day → ℕ
  unfolding local
  get_second d = to_unsigned (local localtime mktime d).sec

  get_day_of_week : Day → ℕ
  unfolding local
  get_day_of_week d = to_unsigned (local localtime mktime d).wday

  pub year : Day → ℤ
  unfolding get_year
  year d = to_int (get_year d)

  pub month : Day → ℤ
  unfolding get_month
  month d = to_int (get_month d)

  pub date : Day → ℤ
  unfolding get_day
  date d = to_int (get_day d)

  pub hours : Day → ℤ
  unfolding get_hour
  hours d = to_int (get_hour d)

  pub minutes : Day → ℤ
  unfolding get_minute
  minutes d = to_int (get_minute d)

  pub seconds : Day → ℤ
  unfolding get_second
  seconds d = to_int (get_second d)

  pub day : Day → ℤ
  unfolding get_day_of_week
  day d = to_int (get_day_of_week d)

  -- Day::format. `strftime` gives the whole text, and what the buffer holds if that does not fit
  -- into its 100 bytes is not defined.
  pub format : (Bytes → Tm → Bytes) → Day → Bytes → Option Bytes
  unfolding local
  format strftime d format_string =
      let text = strftime format_string (local localtime mktime d) in
      if ltb (length text) 100 then some text else none

  -- The constructor from a text; `std::get_time` is an argument, and none is its exception.
  pub of_text : (Bytes → Bytes → Option Tm) → Bytes → Bytes → Option Day
  unfolding of_tm
  of_text get_time date_string format_string = elim (get_time date_string format_string) [
    | none ↦ none
    | some tm ↦ some (of_tm localtime mktime tm)
  ]

-- A value of type `int`
abbrev pub IsInt : ℤ → Type 0
IsInt (pos n) = n < 2 ^ 31
IsInt (negsuc n) = n < 2 ^ 31

to_int-to_unsigned : (x : ℤ) → IsInt x → to_int (to_unsigned x) ≡ x
to_int-to_unsigned (pos n) h = ground arith
to_int-to_unsigned (negsuc n) h = ground arith

-- The getters give the fields that `localtime` has for the time, negative ones too, although they
-- go through an unsigned number: the year counts from 0 and the month from 1, as long as these fit
-- into an `int`, and the others are as they are.
pub getters_lem :
    (localtime : ℤ → Tm) (mktime : Tm → ℤ) (d : Day)
    → let tm = local localtime mktime d in
      IsInt (plus tm.year 1900)
      → IsInt (plus tm.mon 1)
      → IsInt tm.mday
      → IsInt tm.hour
      → IsInt tm.min
      → IsInt tm.sec
      → IsInt tm.wday
      → (year localtime mktime d ≡ plus tm.year 1900)
        × (month localtime mktime d ≡ plus tm.mon 1)
        × (date localtime mktime d ≡ tm.mday)
        × (hours localtime mktime d ≡ tm.hour)
        × (minutes localtime mktime d ≡ tm.min)
        × (seconds localtime mktime d ≡ tm.sec)
        × (day localtime mktime d ≡ tm.wday)
unfolding year get_year month get_month date get_day hours get_hour minutes get_minute seconds
    get_second day get_day_of_week
getters_lem localtime mktime d y o a h m s w = (
  to_int-to_unsigned _ y,
  to_int-to_unsigned _ o,
  to_int-to_unsigned _ a,
  to_int-to_unsigned _ h,
  to_int-to_unsigned _ m,
  to_int-to_unsigned _ s,
  to_int-to_unsigned _ w,
)
