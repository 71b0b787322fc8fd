-- ===== src/StaticDataCache/Services.antt =====
-- What the calendars' cache is asked with (src/static_data_cache/calendar_cache.cpp): code that is
-- not in the repository, and the files, as one record of parameters.
use odin_analytics.Prelude.{ℕ, List, Option, Result}
use odin_analytics.Prelude.Text.{Text}
use odin_analytics.Time.Enums.{Weekdays, Tenors}
use odin_analytics.Time.Calendar.{Calendar}
use odin_analytics.Dao.{File}
use odin_analytics.StaticDataCache.CalendarCache.{Cache, get_calendar}

-- The `enum_cast` of magic_enum for weekdays and for the units of tenors, Boost's `split` and `join`,
-- and what is at the path of a file.
pub record Services : Type 0 where
  pub weekday_cast : ℕ → Option Weekdays
  pub unit_cast : ℕ → Option Tenors
  pub split : Text → List Text
  pub join : List Text → Text
  pub files : Text → File

-- `RetrieveCache().GetCalendar`.
abbrev pub request : Services → Text → Cache → Result (Calendar × Cache)
request services calendars_str cache =
    get_calendar services.weekday_cast services.split services.join services.files calendars_str
      cache
