-- ===== src/DerivedTime/CashflowGen/Dates/Examples.antt =====
-- The monthly periods from January 31st, 2024 on.
use odin_analytics.Prelude.{◌≡◌, refl, arith, [], ◌∷◌, ok}
use odin_analytics.Prelude.Int.{pos, ◌+ℤ◌, ◌-ℤ◌, ◌*ℤ◌, quot, rem}
use odin_analytics.Time.Enums.{months}
use odin_analytics.Time.Tenor.{tenor}
use odin_analytics.Time.Date.{
  Date, from_julian, add_tenor, add_months, shift_month, from_ymd, days_in_month, is_leap_year, ymd,
  convert_to_julian,
}
use odin_analytics.DerivedTime.Enums.{forward}
use odin_analytics.DerivedTime.CashflowGen.{Schedule, schedule, unadjusted_dates, forward_dates}
use odin_analytics.DerivedTime.CashflowGen.Dates.{IsForward, unadjusted_dates-IsForward}

abbrev january_31 : Date
january_31 = from_julian (pos 2460341)

abbrev april_15 : Date
april_15 = from_julian (pos 2460416)

unadjusted_dates-IsForward_example :
    (dates : Schedule) × (unadjusted_dates forward january_31 april_15 (tenor (pos 1) months)
      ≡ ok dates)
    × IsForward january_31 april_15 1 months dates
unadjusted_dates-IsForward_example =
    unadjusted_dates-IsForward january_31 april_15 1 months (omega arith) (omega arith)

-- The second period ends on March 29th, two days before the third begins.
monthly_run :
    unadjusted_dates forward january_31 april_15 (tenor (pos 1) months)
    ≡ ok (
        schedule
          (from_julian (pos 2460341) ∷ from_julian (pos 2460370) ∷ from_julian (pos 2460401) ∷ [])
          (from_julian (pos 2460370) ∷ from_julian (pos 2460399) ∷ from_julian (pos 2460431) ∷ []))
unfolding unadjusted_dates forward_dates add_tenor add_months shift_month from_ymd days_in_month
    is_leap_year ymd convert_to_julian ◌+ℤ◌ ◌-ℤ◌ ◌*ℤ◌ quot rem
monthly_run = refl
