-- ===== src/DerivedTime/CachedFormula.antt =====
-- src/derived_time/date_formula: the constructors of formulas from texts, which ask the cache for
-- their calendars. Each returns the formula and the cache afterwards.
use odin_analytics.Prelude.{some, Result, ok, ◌>>=◌}
use odin_analytics.Prelude.Int.{ℤ}
use odin_analytics.Prelude.Text.{Text}
use odin_analytics.Time.Enums.{AdjRule}
use odin_analytics.Time.Calendar.{Calendar}
use odin_analytics.Time.Tenor.Parse.{tenor_from_string}
use odin_analytics.Time.Mappers.{map_input_to_day_adjust_enum}
use odin_analytics.DerivedTime.Formula.{BusinessDateFormula, DateFormula, date_formula}
use odin_analytics.StaticDataCache.CalendarCache.{Cache}
use odin_analytics.StaticDataCache.Services.{Services, request}

unfoldable pub business_date_formula :
    Services → ℤ → Text → Cache → Result (BusinessDateFormula × Cache)
business_date_formula services business_days calendar_str cache =
    request services calendar_str cache >>= λ got.
    ok (record { num_of_business_days = business_days; calendar = some got.0 }, got.1)

unfoldable pub date_formula_of_calendar : Services → Text → AdjRule → Calendar → Result DateFormula
date_formula_of_calendar services tenor_str adjustment_rule c =
    tenor_from_string services.unit_cast tenor_str >>= λ t. ok (date_formula t adjustment_rule c)

unfoldable pub date_formula_of_region :
    Services → Text → AdjRule → Text → Cache → Result (DateFormula × Cache)
date_formula_of_region services tenor_str adjustment_rule calendar_str cache =
    tenor_from_string services.unit_cast tenor_str >>= λ t.
    request services calendar_str cache >>= λ got. ok (date_formula t adjustment_rule got.0, got.1)

-- The rule's name is looked up before the calendar is asked for, an order that C++ leaves open.
unfoldable pub date_formula_of_names :
    Services → Text → Text → Text → Cache → Result (DateFormula × Cache)
date_formula_of_names services tenor_str adjustment_rule calendar_str cache =
    tenor_from_string services.unit_cast tenor_str >>= λ t.
    map_input_to_day_adjust_enum adjustment_rule >>= λ rule.
    request services calendar_str cache >>= λ got. ok (date_formula t rule got.0, got.1)
