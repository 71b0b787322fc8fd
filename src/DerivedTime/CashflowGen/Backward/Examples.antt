-- ===== src/DerivedTime/CashflowGen/Backward/Examples.antt =====
-- The backward schedule of a bond of a year, by quarters.
use odin_analytics.Prelude.{◌≡◌, arith, List, ok, reverse}
use odin_analytics.Prelude.Int.{pos, ◌+ℤ◌, ◌-ℤ◌, ◌*ℤ◌, quot, rem}
use odin_analytics.Time.Enums.{months}
use odin_analytics.Time.Tenor.{tenor}
use odin_analytics.Time.Date.{Date, from_julian, gregorian, ymd}
use odin_analytics.Time.Date.Offset.{position, step, first_position}
use odin_analytics.DerivedTime.Enums.{backward}
use odin_analytics.DerivedTime.CashflowGen.{schedule, unadjusted_dates}
use odin_analytics.DerivedTime.CashflowGen.Backward.{IsBackward, unadjusted_dates-IsBackward}

-- 2022-07-01 and 2023-07-01.
abbrev start_date : Date
start_date = from_julian (pos 2459762)

abbrev mat_date : Date
mat_date = from_julian (pos 2460127)

unadjusted_dates-IsBackward_example :
    (begins ends : List Date) × (unadjusted_dates backward start_date mat_date
        (tenor (pos 3) months)
      ≡ ok (schedule (reverse begins) (reverse ends)))
    × IsBackward start_date mat_date 3 months 0 mat_date begins ends
unfolding position step first_position gregorian ymd ◌+ℤ◌ ◌-ℤ◌ ◌*ℤ◌ quot rem
unadjusted_dates-IsBackward_example =
    unadjusted_dates-IsBackward start_date mat_date 3 months (omega arith) (omega arith)
      (omega arith) (omega arith)
