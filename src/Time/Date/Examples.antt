-- ===== src/Time/Date/Examples.antt =====
-- The theorems about dates at concrete dates.
use odin_analytics.Prelude.{◌≡◌, ◌≢◌, ◌↔◌, refl, arith, ok}
use odin_analytics.Prelude.Int.{pos, negsuc, ◌+ℤ◌, ◌-ℤ◌, ◌*ℤ◌, ◌≤ℤ◌, quot, rem}
use odin_analytics.Time.Date.{
  Date, YearMonthDay, year_month_day, from_julian, convert_to_julian, ymd, days_in_month,
  is_leap_year, shift_month, add_tenor, add_months, add_years, gregorian, from_ymd,
}
use odin_analytics.Time.Date.RoundTrip.{IsValid, julian_of, ymd-convert_to_julian}
use odin_analytics.Time.Date.Successor.{next_day, convert_to_julian-next_day, convert_to_julian-ymd}
use odin_analytics.Time.Date.Validity.{last_day, IsDate}
use odin_analytics.Time.Date.Constructor.{from_ymd-eq-ok}
use odin_analytics.Time.Date.Landing.{
  IsMonthsLater, add_months-IsMonthsLater, add_years-IsMonthsLater,
}
use odin_analytics.Time.Date.Parse.{from_string, print_date}
use odin_analytics.Time.Date.Parse.Printing.{from_string-print_date}
use odin_analytics.Time.Date.Offset.{position, step, add_tenor-position}
use odin_analytics.Time.Enums.{years}
use odin_analytics.Time.Tenor.{tenor}

abbrev leap_day : YearMonthDay
leap_day = year_month_day (pos 2024) (pos 2) (pos 29)

leap_day-IsValid : IsValid leap_day
unfolding days_in_month is_leap_year rem
leap_day-IsValid = record {
  year_in = omega arith;
  month_in = omega arith;
  day_in = (pos 29, refl, omega arith, omega arith);
}

-- 2024-02-29 has Julian day number 2460370.
leap_day_number : convert_to_julian (pos 2024) (pos 2) (pos 29) ≡ pos 2460370
unfolding convert_to_julian ◌+ℤ◌ ◌-ℤ◌ ◌*ℤ◌ quot
leap_day_number = refl

ymd-convert_to_julian_example : ymd (convert_to_julian (pos 2024) (pos 2) (pos 29)) ≡ leap_day
ymd-convert_to_julian_example = ymd-convert_to_julian leap_day leap_day-IsValid

convert_to_julian-ymd_example :
    IsValid (ymd (pos 2460370))
    × (convert_to_julian (ymd (pos 2460370)).year (ymd (pos 2460370)).month (ymd (pos 2460370)).day
        ≡ pos 2460370)
convert_to_julian-ymd_example = convert_to_julian-ymd 2460370 (omega arith)

convert_to_julian-next_day_example :
    IsValid (next_day leap_day) × (julian_of (next_day leap_day) ≡ julian_of leap_day +ℤ pos 1)
convert_to_julian-next_day_example = convert_to_julian-next_day leap_day leap_day-IsValid

-- 2024-02-29.
abbrev leap_date : Date
leap_date = from_julian (pos 2460370)

add_months_example :
    (u : Date) × (add_months leap_date (pos 12) ≡ ok u)
    × IsDate u
    × IsMonthsLater (gregorian leap_date) (pos 12) (gregorian u)
unfolding gregorian ymd ◌+ℤ◌ ◌-ℤ◌ ◌*ℤ◌ quot rem
add_months_example = add_months-IsMonthsLater leap_date (pos 12) (omega arith) (omega arith)

add_months_run : add_months leap_date (pos 12) ≡ from_ymd (pos 2025) (pos 2) (pos 28)
unfolding add_months from_ymd shift_month days_in_month is_leap_year ymd ◌+ℤ◌ ◌-ℤ◌ ◌*ℤ◌ quot rem
    convert_to_julian
add_months_run = refl

add_years_example :
    (u : Date) × (add_years leap_date (negsuc 0) ≡ ok u)
    × IsDate u
    × IsMonthsLater (gregorian leap_date) (pos 12 *ℤ negsuc 0) (gregorian u)
unfolding gregorian ymd ◌+ℤ◌ ◌-ℤ◌ ◌*ℤ◌ quot rem
add_years_example = add_years-IsMonthsLater leap_date (negsuc 0) (omega arith) (omega arith)

from_ymd-eq-ok_example : (from_ymd (pos 2024) (pos 2) (pos 29) ≡ ok leap_date) ↔ (
    (pos 1 ≤ℤ pos 2)
    × (pos 2 ≤ℤ pos 12)
    × (pos 29 ≢ pos 0)
    × (pos 29 ≤ℤ last_day (pos 2024) (pos 2))
    × (leap_date ≡ from_julian (convert_to_julian (pos 2024) (pos 2) (pos 29))))
from_ymd-eq-ok_example = from_ymd-eq-ok (pos 2024) (pos 2) (pos 29) leap_date

from_string-print_date_example : from_string (print_date leap_date) ≡ ok leap_date
unfolding gregorian ymd ◌+ℤ◌ ◌-ℤ◌ ◌*ℤ◌ quot rem
from_string-print_date_example =
    from_string-print_date leap_date (omega arith) (omega arith) (omega arith)

add_tenor-position_example :
    (v : Date) × (add_tenor leap_date (tenor (pos 2) years) ≡ ok v)
    × IsDate v
    × (position years v ≡ position years leap_date +ℤ step years *ℤ pos 2)
add_tenor-position_example = add_tenor-position leap_date 2 years (omega arith)
