-- ===== src/Dao/Termination/Examples.antt =====
-- The end of the reading (src/dao/calendar_dao.cpp) for a concrete file.
use odin_analytics.Prelude.{ℕ, Option, none, IsEnded}
use odin_analytics.Prelude.Text.{Text, codes}
use odin_analytics.Time.Enums.{Weekdays}
use odin_analytics.Dao.{File, regular_file, get_calendar_data}
use odin_analytics.Dao.Termination.{get_calendar_data-IsEnded}

abbrev no_cast : ℕ → Option Weekdays
no_cast n = none

abbrev one_file : Text → File
one_file path = regular_file (codes "# Holidays\n2022-07-04\n")

get_calendar_data-IsEnded_example : IsEnded (get_calendar_data no_cast one_file (codes "TGT"))
get_calendar_data-IsEnded_example = get_calendar_data-IsEnded no_cast one_file (codes "TGT")
