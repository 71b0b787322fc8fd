-- ===== src/Time/DayCount.antt =====
-- src/time/day_count: the day count conventions and their factory.
pub mod Thirty360
pub mod ActAct
mod Examples
use odin_analytics.Prelude.{
  ℕ, zero, suc, Bool, true, false, ◌&&◌, ◌||◌, if◌then◌else◌, Option, none, some, Result, ok, err,
  ◌>>=◌,
}
use odin_analytics.Prelude.Int.{ℤ, pos, negsuc, ◌+ℤ◌, ◌-ℤ◌, ◌*ℤ◌, neg_ℤ, ltb_ℤ, eqb_ℤ, pos_part}
use odin_analytics.Prelude.Double.{Double}
use odin_analytics.Time.Enums.{
  DayCountRule, act_act, actb_actb, thirty_360_bond_basis, thirty_e_360_isda, thirty_360_e_eurobond,
  act_360, act_365_fixed,
}
use odin_analytics.Time.Date.{
  Date, from_julian, YearMonthDay, gregorian, days_in_month, is_leap_year, from_ymd, date_lt,
}

-- The day number that all actual conventions count by.
unfoldable pub actual_days : Date → Date → ℤ
actual_days date1 date2 = date2.julian -ℤ date1.julian

-- 360 days a year and 30 a month.
unfoldable pub thirty_sum : YearMonthDay → YearMonthDay → ℤ → ℤ → ℤ
thirty_sum g1 g2 d1 d2 =
    (g2.year -ℤ g1.year) *ℤ pos 360 +ℤ (g2.month -ℤ g1.month) *ℤ pos 30 +ℤ (d2 -ℤ d1)

unfoldable pub clip_31 : ℤ → ℤ
clip_31 d = if eqb_ℤ d (pos 31) then pos 30 else d

-- `ComputeDayCount30360` once the dates are in order.
unfoldable pub bond_basis_ordered : Date → Date → ℤ
unfolding clip_31
bond_basis_ordered date1 date2 =
    let g1 = gregorian date1 in
    let g2 = gregorian date2 in
    let d1 = clip_31 g1.day in
    let d2 = if eqb_ℤ g2.day (pos 31) && ltb_ℤ (pos 29) d1 then pos 30 else g2.day in
    thirty_sum g1 g2 d1 d2

-- The recursive call is made on swapped dates, which are in order.
unfoldable pub bond_basis_days : Date → Date → ℤ
bond_basis_days date1 date2 =
    if date_lt date2 date1
    then neg_ℤ (bond_basis_ordered date2 date1)
    else bond_basis_ordered date1 date2

unfoldable pub eurobond_days : Date → Date → ℤ
unfolding clip_31
eurobond_days date1 date2 =
    let g1 = gregorian date1 in
    let g2 = gregorian date2 in thirty_sum g1 g2 (clip_31 g1.day) (clip_31 g2.day)

-- The test of `ComputeDayCount30360EISDA`: the 31st, or the last day of February.
unfoldable pub counts_as_30 : YearMonthDay → Result Bool
counts_as_30 g =
    if eqb_ℤ g.day (pos 31)
    then ok true
    else if eqb_ℤ g.month (pos 2)
    then (days_in_month g.year g.month >>= λ last. ok (eqb_ℤ g.day last))
    else ok false

unfoldable pub isda_days : Date → Date → Result ℤ
isda_days date1 date2 =
    let g1 = gregorian date1 in
    let g2 = gregorian date2 in
    counts_as_30 g1 >>= λ full1. counts_as_30 g2 >>= λ full2.
    ok (thirty_sum g1 g2 (if full1 then pos 30 else g1.day) (if full2 then pos 30 else g2.day))

-- The subclasses of `DayCounterBase`.
pub data DayCounter : Type 0 where
  counts_act_360 counts_act_365_fixed counts_act_act counts_eurobond counts_isda : DayCounter
  counts_bond_basis : DayCounter

unfoldable pub day_count : DayCounter → Date → Date → Result ℤ
day_count counts_act_360 date1 date2 = ok (actual_days date1 date2)
day_count counts_act_365_fixed date1 date2 = ok (actual_days date1 date2)
day_count counts_act_act date1 date2 = ok (actual_days date1 date2)
day_count counts_eurobond date1 date2 = ok (eurobond_days date1 date2)
day_count counts_isda date1 date2 = isda_days date1 date2
day_count counts_bond_basis date1 date2 = ok (bond_basis_days date1 date2)

-- `GenerateDayCounter`; `none` is the null pointer.
unfoldable pub generate_day_counter : DayCountRule → Option DayCounter
generate_day_counter act_360 = some counts_act_360
generate_day_counter act_365_fixed = some counts_act_365_fixed
generate_day_counter act_act = some counts_act_act
generate_day_counter thirty_360_e_eurobond = some counts_eurobond
generate_day_counter thirty_e_360_isda = some counts_isda
generate_day_counter thirty_360_bond_basis = some counts_bond_basis
generate_day_counter actb_actb = none

module _ (double : Double) where
  open double use {Number, of_int, add, div, neg}

  unfoldable pub days_in_year : ℤ → Number
  days_in_year year = if is_leap_year year then of_int (pos 366) else of_int (pos 365)

  -- The loop of `ComputeDayCountFractionActAct`, with the years left up to `end_year`, and the
  -- addition behind it.
  unfoldable pub act_act_years : ℕ → ℤ → Date → Date → Number → Result Number
  act_act_years zero curr_year prior_date end_date year_fraction =
      from_ymd (gregorian end_date).year (pos 1) (pos 1) >>= λ first. ok (
        add year_fraction
          (div (of_int (actual_days first end_date)) (days_in_year (gregorian end_date).year)))
  act_act_years (suc left) curr_year prior_date end_date year_fraction =
      from_ymd curr_year (pos 12) (pos 31) >>= λ curr_date.
      let before = date_lt curr_date end_date in
      act_act_years left (curr_year +ℤ pos 1) (if before then curr_date else prior_date) end_date (
        if before
        then add year_fraction
            (div (of_int (actual_days prior_date curr_date)) (days_in_year curr_year))
        else year_fraction)

  -- `ComputeDayCountFractionActAct` once the dates are in order.
  unfoldable pub act_act_ordered : Date → Date → Result Number
  act_act_ordered start_date end_date =
      let start_year = (gregorian start_date).year in
      let end_year = (gregorian end_date).year in
      if eqb_ℤ end_year start_year
      then ok (
          add (of_int (pos 0))
            (div (of_int (actual_days start_date end_date)) (days_in_year start_year)))
      else act_act_years (pos_part (end_year -ℤ start_year)) start_year
          (from_julian (start_date.julian -ℤ pos 1)) end_date (of_int (pos 0))

  unfoldable pub act_act_fraction : Date → Date → Result Number
  act_act_fraction start_date end_date =
      if date_lt end_date start_date
      then (act_act_ordered end_date start_date >>= λ f. ok (neg f))
      else act_act_ordered start_date end_date

  over : ℕ → ℤ → Number
  over n count = div (of_int count) (of_int (pos n))

  unfoldable pub year_fraction : DayCounter → Date → Date → Result Number
  unfolding over
  year_fraction counts_act_360 date1 date2 = ok (over 360 (actual_days date1 date2))
  year_fraction counts_act_365_fixed date1 date2 = ok (over 365 (actual_days date1 date2))
  year_fraction counts_act_act date1 date2 = act_act_fraction date1 date2
  year_fraction counts_eurobond date1 date2 = ok (over 360 (eurobond_days date1 date2))
  year_fraction counts_isda date1 date2 = isda_days date1 date2 >>= λ n. ok (over 360 n)
  year_fraction counts_bond_basis date1 date2 = ok (over 360 (bond_basis_days date1 date2))
