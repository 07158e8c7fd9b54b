-- ===== src/Dates/Main.antt =====
-- src/day.cc: what `main` prints. The clock, the calendar, `strftime` and `get_time` are arguments.
use mux.Prelude.{◌≡◌, refl, Option, none, some, List, [], ◌∷◌, ◌++◌, nat_eq, bytes_eq}
use mux.Prelude.Int.{ℤ, pos, int_eq}
use mux.Prelude.Bytes.{Bytes, codes}
use mux.Prelude.Decimal.{print_int}
use mux.Dates.{Tm, Day, unix}
use mux.Dates.Fields.{format, of_text}
use mux.Dates.Shift.{IsTime, add, subtract, subtract-add}

-- time_format::kIsO8601 and kLongDateTime
abbrev kiso8601 : Bytes
kiso8601 = codes "%Y-%m-%dT%H:%M:%S"

abbrev klong_date_time : Bytes
klong_date_time = codes "%B %d, %Y %H:%M:%S %Z"

-- A line on the console, none where the text is not defined, or one of the error output.
pub data Output : Type 0 where
  out : Option Bytes → Output
  err : Bytes → Output

-- The lines that are printed, or none where a duration leaves its 64 bits.
abbrev printed : List Output → Option (List Output) → Option (List Output)
printed lines none = none
printed lines (some more) = some (lines ++ more)

module _ (localtime : ℤ → Tm) (mktime : Tm → ℤ) (strftime : Bytes → Tm → Bytes)
    (get_time : Bytes → Bytes → Option Tm) where
  -- Day::toString
  to_text : Day → Option Bytes
  to_text d = format localtime mktime strftime d kiso8601

  -- The four statements that `main` has for each of its days.
  report : Day → List Output
  unfolding to_text
  report d =
      out (format localtime mktime strftime d kiso8601)
      ∷ (out (format localtime mktime strftime d klong_date_time)
          ∷ (out (to_text d) ∷ (out (some (print_int (unix d))) ∷ [])))

  -- From `Day day4(…)` on
  back_again : Option Day → Option (List Output)
  unfolding report
  back_again none = none
  back_again (some day4) = some (report day4)

  -- From `Day day3(…)` on
  hour_later : Option Day → Option (List Output)
  unfolding report back_again
  hour_later none = none
  hour_later (some day3) = printed (report day3) (back_again (subtract day3 (pos 3600)))

  -- From `Day day2(…)` on; the constructor may throw.
  from_text : Option Day → Option (List Output)
  unfolding report hour_later
  from_text none = some (err (codes "Invalid date string or format") ∷ [])
  from_text (some day2) = printed (report day2) (hour_later (add day2 (pos 3600)))

  -- `main`; the argument is what the clock says.
  pub day_main : Day → Option (List Output)
  unfolding report from_text
  day_main now =
      printed (report now)
        (from_text (of_text localtime mktime get_time (codes "2021-10-10T12:00:00") kiso8601))

  -- If the text is read, and an hour can be added to it, `main` prints its four lines for the time
  -- of the clock, for the time of the text, for an hour later, and once more for the time of the
  -- text.
  day_main_lem :
      (now day2 day3 : Day)
      → of_text localtime mktime get_time (codes "2021-10-10T12:00:00") kiso8601 ≡ some day2
      → IsTime day2
      → add day2 (pos 3600) ≡ some day3
      → day_main now ≡ some (report now ++ (report day2 ++ (report day3 ++ report day2)))
  unfolding day_main from_text hour_later back_again
  day_main_lem now day2 day3 read time later =
      rw (read, later, subtract-add day2 day3 (pos 3600) time later) refl
