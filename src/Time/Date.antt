-- ===== src/Time/Date.antt =====
-- src/time/date.cpp and include/oa/time/date.h: a date is one Julian day number.
pub mod Numbers
pub mod Gregorian
pub mod RoundTrip
pub mod Successor
pub mod Months
pub mod Validity
pub mod Landing
pub mod MonthOrder
pub mod Constructor
pub mod Parse
pub mod Offset
mod Examples
use odin_analytics.Prelude.{
  Bool, not, ◌&&◌, ◌||◌, if◌then◌else◌, Result, ok, err, ◌>>=◌, invalid_day, month_range,
}
use odin_analytics.Prelude.Int.{ℤ, pos, negsuc, ◌+ℤ◌, ◌-ℤ◌, ◌*ℤ◌, quot, rem, ltb_ℤ, leb_ℤ, eqb_ℤ}
use odin_analytics.Time.Enums.{Tenors, days, weeks, months, years}
use odin_analytics.Time.Tenor.{Tenor, negate}

pub record Date : Type 0 where
  pub julian : ℤ

-- The constructor from a Julian day number.
abbrev pub from_julian : ℤ → Date
from_julian j = record { julian = j }

-- The default constructor.
abbrev pub default_date : Date
default_date = from_julian (pos 0)

-- The tuple `year_month_day`.
pub record YearMonthDay : Type 0 where
  pub year : ℤ
  pub month : ℤ
  pub day : ℤ

abbrev pub year_month_day : ℤ → ℤ → ℤ → YearMonthDay
year_month_day y m d = record { year = y; month = m; day = d }

unfoldable pub is_leap_year : ℤ → Bool
is_leap_year year =
    (eqb_ℤ (rem year 4) (pos 0) && not (eqb_ℤ (rem year 100) (pos 0)))
    || eqb_ℤ (rem year 400) (pos 0)

unfoldable pub days_in_month : ℤ → ℤ → Result ℤ
days_in_month year month =
    if ltb_ℤ month (pos 1) || ltb_ℤ (pos 12) month
    then err month_range
    else if eqb_ℤ month (pos 2)
    then ok (if is_leap_year year then pos 29 else pos 28)
    else if eqb_ℤ month (pos 4)
        || (eqb_ℤ month (pos 6) || (eqb_ℤ month (pos 9) || eqb_ℤ month (pos 11)))
    then ok (pos 30)
    else ok (pos 31)

unfoldable pub convert_to_julian : ℤ → ℤ → ℤ → ℤ
convert_to_julian year month day =
    quot (pos 1461 *ℤ (year +ℤ pos 4800 +ℤ quot (month -ℤ pos 14) 12)) 4
    +ℤ quot (pos 367 *ℤ (month -ℤ pos 2 -ℤ pos 12 *ℤ quot (month -ℤ pos 14) 12)) 12
    -ℤ quot (pos 3 *ℤ quot (year +ℤ pos 4900 +ℤ quot (month -ℤ pos 14) 12) 100) 4
    +ℤ day
    -ℤ pos 32075

-- The algorithm of Richards, with the constants y, j, m, n, r, p, v, u, s, w, B and C put in.
unfoldable pub ymd : ℤ → YearMonthDay
ymd julian_day =
    let f =
      julian_day
      +ℤ pos 1401
      +ℤ quot (quot (pos 4 *ℤ julian_day +ℤ pos 274277) 146097 *ℤ pos 3) 4
      +ℤ negsuc 37 in
    let e = pos 4 *ℤ f +ℤ pos 3 in
    let g = quot (rem e 1461) 4 in
    let h = pos 5 *ℤ g +ℤ pos 2 in
    let computed_days = quot (rem h 153) 5 +ℤ pos 1 in
    let computed_months = rem (quot h 153 +ℤ pos 2) 12 +ℤ pos 1 in
    let computed_years = quot e 1461 -ℤ pos 4716 +ℤ quot (pos 12 +ℤ pos 2 -ℤ computed_months) 12 in
    year_month_day computed_years computed_months computed_days

unfoldable pub gregorian : Date → YearMonthDay
gregorian date = ymd date.julian

-- The constructor from a year, month and day. A negative day passes its test.
unfoldable pub from_ymd : ℤ → ℤ → ℤ → Result Date
from_ymd year month day =
    if eqb_ℤ day (pos 0)
    then err invalid_day
    else (days_in_month year month >>= λ last.
        if ltb_ℤ last day
        then err invalid_day
        else ok (from_julian (convert_to_julian year month day)))

-- `date + days` and `date - days` of an `int`.
unfoldable pub plus_int : Date → ℤ → Date
plus_int date n = from_julian (date.julian +ℤ n)

unfoldable pub minus_int : Date → ℤ → Date
minus_int date n = from_julian (date.julian -ℤ n)

unfoldable pub add_days : Date → ℤ → Date
add_days date n = from_julian (date.julian +ℤ n)

unfoldable pub add_weeks : Date → ℤ → Date
add_weeks date n = from_julian (date.julian +ℤ pos 7 *ℤ n)

-- The year and month that `AddMonths` moves to, and the clamped day.
unfoldable pub shift_month : ℤ → ℤ → ℤ → ℤ × ℤ
shift_month year month n =
    if ltb_ℤ (pos 0) n
    then (let new_year = year +ℤ quot (month +ℤ n) 12 in
        let new_month = rem (month +ℤ n) 12 in
        if leb_ℤ new_month (pos 0)
        then (new_year -ℤ pos 1, new_month +ℤ pos 12)
        else (new_year, new_month))
    else (let new_year = year +ℤ quot (month +ℤ n) 12 in
        let new_month = rem (month +ℤ n) 12 in
        (
          if ltb_ℤ new_month (pos 1) then new_year +ℤ negsuc 0 else new_year,
          if leb_ℤ new_month (pos 0) then new_month +ℤ pos 12 else new_month,
        ))

unfoldable pub add_months : Date → ℤ → Result Date
add_months date n =
    let g = ymd date.julian in
    let moved = shift_month g.year g.month n in
    days_in_month moved.0 moved.1 >>= λ last.
    from_ymd moved.0 moved.1 (if ltb_ℤ last g.day then last else g.day)

unfoldable pub add_years : Date → ℤ → Result Date
add_years date n =
    let g = ymd date.julian in
    let year = g.year +ℤ n in
    if not (is_leap_year year) && eqb_ℤ g.month (pos 2)
    then (days_in_month year g.month >>= λ month_days.
        from_ymd year g.month (if ltb_ℤ month_days g.day then month_days else g.day))
    else from_ymd year g.month g.day

-- `date + tenor`. The default of its `switch` is not met, as all enumerators are covered.
add_unit : Date → Tenors → ℤ → Result Date
add_unit date days n = ok (add_days date n)
add_unit date weeks n = ok (add_weeks date n)
add_unit date months n = add_months date n
add_unit date years n = add_years date n

unfoldable pub add_tenor : Date → Tenor → Result Date
unfolding add_unit
add_tenor date tenor = add_unit date tenor.unit tenor.count

unfoldable pub sub_tenor : Date → Tenor → Result Date
sub_tenor date tenor = add_tenor date (negate tenor)

unfoldable pub is_leap : Date → Bool
is_leap date = is_leap_year (ymd date.julian).year

unfoldable pub dow_int : ℤ → ℤ
dow_int julian_date = rem julian_date 7

-- The explicit conversion to `bool`.
unfoldable pub is_set : Date → Bool
is_set date = not (eqb_ℤ date.julian (pos 0))

unfoldable pub value_or : Date → Date → Date
value_or date other = if is_set date then date else other

-- The defaulted comparison.
abbrev pub date_lt : Date → Date → Bool
date_lt a b = ltb_ℤ a.julian b.julian
