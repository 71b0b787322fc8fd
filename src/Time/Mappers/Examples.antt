-- ===== src/Time/Mappers/Examples.antt =====
-- The names of rules looked up.
use odin_analytics.Prelude.{◌≡◌, refl, ok}
use odin_analytics.Prelude.Text.{codes}
use odin_analytics.Strings.{to_upper}
use odin_analytics.Time.Enums.{act_365_fixed}
use odin_analytics.Time.Mappers.{
  find, upper_text, map_input, day_count_map, map_input_to_day_count_enum,
}

act_365_found : map_input_to_day_count_enum (codes "act/365") ≡ ok act_365_fixed
unfolding map_input_to_day_count_enum map_input day_count_map find upper_text to_upper
act_365_found = refl
