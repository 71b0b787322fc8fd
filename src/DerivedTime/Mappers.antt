-- ===== src/DerivedTime/Mappers.antt =====
-- src/derived_time/derived_time_enum_mappers.cpp: the names that stand for the enumerators of the
-- cash flow generator.
use odin_analytics.Prelude.{List, [], ◌∷◌, Result, ok, ◌≡◌, refl}
use odin_analytics.Prelude.Text.{Text, codes}
use odin_analytics.Strings.{to_upper}
use odin_analytics.Time.Mappers.{find, upper_text, map_input}
use odin_analytics.DerivedTime.Enums.{
  DateDirection, forward, backward, Frequency, once, annual, semi_annual, quarterly, monthly,
  weekly, daily, StubType, no_stub, short_first, long_first, short_last, long_last, CalcType, flat,
  bbg_calc_type_1, bbg_calc_type_2, ust_street_conv,
}

unfoldable pub date_direction_map : List (Text × DateDirection)
date_direction_map =
    (codes "FWD", forward)
    ∷ (codes "FORWARD", forward)
    ∷ (codes "BCKWD", backward)
    ∷ (codes "BACKWARD", backward)
    ∷ (codes "BACKWARDS", backward)
    ∷ []

unfoldable pub map_input_to_date_dir : Text → Result DateDirection
map_input_to_date_dir s = map_input date_direction_map s

unfoldable pub freq_map : List (Text × Frequency)
freq_map =
    (codes "ONCE", once)
    ∷ (codes "O", once)
    ∷ (codes "A", annual)
    ∷ (codes "ANNUAL", annual)
    ∷ (codes "SA", semi_annual)
    ∷ (codes "SEMIANNUAL", semi_annual)
    ∷ (codes "Q", quarterly)
    ∷ (codes "QUARTERLY", quarterly)
    ∷ (codes "M", monthly)
    ∷ (codes "MONTHLY", monthly)
    ∷ (codes "W", weekly)
    ∷ (codes "WEEKLY", weekly)
    ∷ (codes "D", daily)
    ∷ (codes "DAILY", daily)
    ∷ []

unfoldable pub map_input_to_freq : Text → Result Frequency
map_input_to_freq s = map_input freq_map s

unfoldable pub cf_stub_map : List (Text × StubType)
cf_stub_map =
    (codes "NONE", no_stub)
    ∷ (codes "N", no_stub)
    ∷ (codes "SF", short_first)
    ∷ (codes "SHORTFIRST", short_first)
    ∷ (codes "LF", long_first)
    ∷ (codes "LONGFIRST", long_first)
    ∷ (codes "SL", short_last)
    ∷ (codes "SHORTLAST", short_last)
    ∷ (codes "LL", long_last)
    ∷ (codes "LONGLAST", long_last)
    ∷ []

unfoldable pub map_input_to_stub : Text → Result StubType
map_input_to_stub s = map_input cf_stub_map s

unfoldable pub calc_type_map : List (Text × CalcType)
calc_type_map =
    (codes "FLAT", flat)
    ∷ (codes "BBG1", bbg_calc_type_1)
    ∷ (codes "BBG2", bbg_calc_type_2)
    ∷ (codes "USTSTREETCONV", ust_street_conv)
    ∷ []

unfoldable pub map_input_to_calc_type : Text → Result CalcType
map_input_to_calc_type s = map_input calc_type_map s

semi_annual_found : map_input_to_freq (codes "SemiAnnual") ≡ ok semi_annual
unfolding map_input_to_freq map_input freq_map find upper_text to_upper
semi_annual_found = refl
