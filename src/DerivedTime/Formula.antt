-- ===== src/DerivedTime/Formula.antt =====
-- src/derived_time/date_formula: the formulas that are added to dates. A shared pointer to a
-- calendar is an `Option`, as nothing changes the calendar behind it.
use odin_analytics.Prelude.{Bool, not, Option, none, some, Result, ok, err, undefined, ◌>>=◌}
use odin_analytics.Prelude.Int.{ℤ, pos, eqb_ℤ}
use odin_analytics.Time.Enums.{AdjRule, days, plain_adjustment}
use odin_analytics.Time.Tenor.{Tenor, tenor}
use odin_analytics.Time.Date.{Date, plus_int, add_tenor}
use odin_analytics.Time.Calendar.{Calendar, add_business_days}
use odin_analytics.Time.DateAdjust.{DateAdjust, adjust_date, create_plain, create_date_adjust}

pub record BusinessDateFormula : Type 0 where
  pub num_of_business_days : ℤ
  pub calendar : Option Calendar

-- The default constructor: zero days and no calendar.
abbrev pub no_adjustment : BusinessDateFormula
no_adjustment = record { num_of_business_days = pos 0; calendar = none }

unfoldable pub adjust_business : BusinessDateFormula → Date → Result Date
adjust_business f base_date = elim f.calendar [
  | none ↦ ok (plus_int base_date f.num_of_business_days)
  | some c ↦ add_business_days c f.num_of_business_days base_date
]

-- The conversion to `bool`.
unfoldable pub is_nonzero : BusinessDateFormula → Bool
is_nonzero f = not (eqb_ℤ f.num_of_business_days (pos 0))

-- `none` is a null pointer to the adjuster.
pub record DateFormula : Type 0 where
  pub tenor : Tenor
  pub holiday_adjuster : Option DateAdjust

abbrev pub default_formula : DateFormula
default_formula = record {
  tenor = tenor (pos 0) days;
  holiday_adjuster = create_plain plain_adjustment;
}

abbrev pub date_formula : Tenor → AdjRule → Calendar → DateFormula
date_formula t adjustment_rule c = record {
  tenor = t;
  holiday_adjuster = create_date_adjust adjustment_rule c;
}

unfoldable pub adjust_formula : DateFormula → Date → Result Date
adjust_formula f date = add_tenor date f.tenor >>= λ moved. elim f.holiday_adjuster [
  | none ↦ err undefined
  | some adjuster ↦ adjust_date adjuster moved
]
