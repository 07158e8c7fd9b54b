-- ===== src/Dates/Shift/Tests.antt =====
-- src/day.cc: an hour later, and back.
use mux.Prelude.{◌≡◌, refl, some, nat_eq, bytes_eq}
use mux.Prelude.Int.{pos, int_eq}
use mux.Dates.{Day}
use mux.Dates.Shift.{checked, shifted, day_at, int_add, add, subtract, subtract-add}

abbrev noon : Day
noon = record { time_point = pos 1633867200000000 }

abbrev an_hour_later : Day
an_hour_later = record { time_point = pos 1633870800000000 }

subtract-add_example : subtract an_hour_later (pos 3600) ≡ some noon
unfolding checked add shifted day_at int_add
subtract-add_example = subtract-add noon an_hour_later (pos 3600) refl refl
