-- ===== src/Time/Date/Validity.antt =====
-- The constructor from a year, a month and a day, and `DaysInMonth` (src/time/date.cpp), on valid
-- dates.
use odin_analytics.Prelude.{◌≡◌, arith, if◌then◌else◌, ◌||◌, ok}
use odin_analytics.Prelude.Int.{ℤ, pos, negsuc, ◌≤ℤ◌, ltb_ℤ, eqb_ℤ}
use odin_analytics.Time.Date.{
  YearMonthDay, year_month_day, days_in_month, convert_to_julian, ymd, from_ymd, Date, from_julian,
  gregorian, is_leap_year,
}
use odin_analytics.Time.Date.RoundTrip.{IsValid, IsValid-bound, ymd-convert_to_julian}
use odin_analytics.Time.Date.Successor.{convert_to_julian-ymd}

-- The last day of a month.
abbrev pub last_day : ℤ → ℤ → ℤ
last_day y m =
    if eqb_ℤ m (pos 2)
    then (if is_leap_year y then pos 29 else pos 28)
    else if eqb_ℤ m (pos 4) || (eqb_ℤ m (pos 6) || (eqb_ℤ m (pos 9) || eqb_ℤ m (pos 11)))
    then pos 30
    else pos 31

pub last_day_bound : (y m : ℤ) → pos 28 ≤ℤ last_day y m
last_day_bound y m = ground arith

pub last_day-≤ : (y m : ℤ) → last_day y m ≤ℤ pos 31
last_day-≤ y m = ground arith

pub days_in_month-last_day :
    (y m : ℤ) → pos 1 ≤ℤ m → m ≤ℤ pos 12 → days_in_month y m ≡ ok (last_day y m)
unfolding days_in_month
days_in_month-last_day y m h h' = ground arith

pub IsValid-last_day :
    (g : YearMonthDay) → IsValid g → (pos 1 ≤ℤ g.day) × (g.day ≤ℤ last_day g.year g.month)
IsValid-last_day g v =
    ground (arith, v.day_in, days_in_month-last_day g.year g.month v.month_in.0 v.month_in.1)

-- The constructor accepts every valid date.
pub from_ymd-IsValid :
    (g : YearMonthDay)
    → IsValid g
    → from_ymd g.year g.month g.day ≡ ok (from_julian (convert_to_julian g.year g.month g.day))
unfolding from_ymd
from_ymd-IsValid g v = ground (arith, v.day_in)

abbrev pub min_ℤ : ℤ → ℤ → ℤ
min_ℤ a b = if ltb_ℤ a b then a else b

-- A date that `Date` can hold and convert: day 38, which is -4712-01-01, or later.
abbrev pub IsDate : Date → Type 0
IsDate t = pos 38 ≤ℤ t.julian

pub gregorian-IsValid :
    (t : Date)
    → IsDate t
    → IsValid (gregorian t)
      × (convert_to_julian (gregorian t).year (gregorian t).month (gregorian t).day ≡ t.julian)
unfolding gregorian
gregorian-IsValid t h = go t.julian h
  where
    go :
        (j : ℤ)
        → pos 38 ≤ℤ j
        → IsValid (ymd j) × (convert_to_julian (ymd j).year (ymd j).month (ymd j).day ≡ j)
    go (pos j) h = convert_to_julian-ymd j (omega arith)
    go (negsuc j) h = absurd (omega arith)

-- Making a date of valid parts, and reading it back.
pub gregorian-from_ymd :
    (g : YearMonthDay)
    → IsValid g
    → (u : Date) × (from_ymd g.year g.month g.day ≡ ok u) × IsDate u × (gregorian u ≡ g)
unfolding gregorian
gregorian-from_ymd g v = (
  from_julian (convert_to_julian g.year g.month g.day),
  from_ymd-IsValid g v,
  IsValid-bound g v,
  ymd-convert_to_julian g v,
)

pub clamp-IsValid :
    (y m d : ℤ)
    → negsuc 4711 ≤ℤ y
    → pos 1 ≤ℤ m
    → m ≤ℤ pos 12
    → pos 1 ≤ℤ d
    → IsValid (year_month_day y m (min_ℤ (last_day y m) d))
clamp-IsValid y m d h h1 h2 h3 = record {
  year_in = h;
  month_in = (h1, h2);
  day_in = (
    last_day y m,
    days_in_month-last_day y m h1 h2,
    clamp_low (last_day y m) (last_day_bound y m),
    clamp_high (last_day y m),
  );
}
  where
    clamp_low : (l : ℤ) → pos 28 ≤ℤ l → pos 1 ≤ℤ min_ℤ l d
    clamp_low l b = ground arith

    clamp_high : (l : ℤ) → min_ℤ l d ≤ℤ l
    clamp_high l = ground arith
