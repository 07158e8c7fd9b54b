-- ===== src/Dates/Tests.antt =====
-- src/day.cc: a calendar of one moment.
use mux.Prelude.{if◌then◌else◌, ◌==◌, nat_eq, bytes_eq}
use mux.Prelude.Int.{ℤ, pos, int_eq}
use mux.Dates.{Tm, Day}

abbrev midnight : Tm
midnight = record {
  year = pos 121;
  mon = pos 9;
  mday = pos 10;
  hour = pos 0;
  min = pos 0;
  sec = pos 0;
  wday = pos 0;
}

-- Midnight is at 1633824000, and every other moment is noon of that day.
abbrev calendar : ℤ → Tm
calendar t = if t == pos 1633824000 then midnight else record midnight { hour = pos 12 }

abbrev moment : Tm → ℤ
moment tm = if tm.hour == pos 0 then pos 1633824000 else pos 1633867200

abbrev noon : Day
noon = record { time_point = pos 1633867200000000 }
