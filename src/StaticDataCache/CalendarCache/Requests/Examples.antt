-- ===== src/StaticDataCache/CalendarCache/Requests/Examples.antt =====
-- Two requests for the calendars of two regions.
use mathlib.Core.List.Perm
use odin_analytics.Prelude.{
  get_elem?, Option, ℕ, ◌≡◌, refl, true, false, ◌||◌, ◌==◌, if◌then◌else◌, List, [], ◌∷◌, ◌++◌, ok,
  some,
}
use odin_analytics.Prelude.Int.{pos, quot, rem, ◌*ℤ◌, ◌+ℤ◌, ◌-ℤ◌}
use odin_analytics.Prelude.Text.{Text, codes}
use odin_analytics.Strings.{
  str_to_digits, all_digits, is_digit, span_digits, to_int, chomp_zeros, build_value,
}
use odin_analytics.Time.Date.{convert_to_julian, days_in_month, is_leap_year}
use odin_analytics.Time.Date.Parse.{
  from_string, parse_ymd, parse_month, parse_day, check_day, is_delim,
}
use odin_analytics.Utils.{value_to_enum}
use odin_analytics.Time.Enums.{
  Weekdays, monday, tuesday, wednesday, thursday, friday, saturday, sunday,
}
use odin_analytics.Time.Calendar
use odin_analytics.Time.Calendar.{
  Calendar, make_calendar, populate_holidays, populate_one, add_region, insert_holidays,
  set_weekends, weekday_index, contains,
}
use odin_analytics.Dao.{
  get_calendar_data, read_calendar, getline, read_line, push_weekends, read_holidays, push_holiday,
  File, regular_file, no_file,
}
use odin_analytics.StaticDataCache.CalendarCache.{
  make_and_store, read_regions, is_cached, is_some, store_calendar, Cache, key_of, get_calendar,
  lookup, sort, insert,
}
use odin_analytics.StaticDataCache.CalendarCache.Requests.{get_calendar-again}

abbrev add_char : ℕ → List Text → List Text
add_char c [] = (c ∷ []) ∷ []
add_char c (piece ∷ rest) = (c ∷ piece) ∷ rest

-- The pieces of a text between the characters ",:;.".
abbrev split_regions : Text → List Text
split_regions [] = [] ∷ []
split_regions (c ∷ cs) =
    let rest = split_regions cs in
    if c == b',' || (c == b':' || (c == b';' || c == b'.')) then [] ∷ rest else add_char c rest

abbrev join_regions : List Text → Text
join_regions [] = []
join_regions (s ∷ []) = s
join_regions (s ∷ t ∷ rest) = s ++ b',' ∷ join_regions (t ∷ rest)

-- The weekday with a value.
abbrev weekday_cast : ℕ → Option Weekdays
weekday_cast n =
    get_elem? (monday ∷ tuesday ∷ wednesday ∷ thursday ∷ friday ∷ saturday ∷ sunday ∷ []) n

-- Files in which Saturday and Sunday are the weekend, and the New Year of 2024 is a holiday.
abbrev holiday_files : Text → File
holiday_files path =
    regular_file (
      codes "#Weekend" ++ 10 ∷ (codes "56" ++ 10 ∷ (codes "# Holidays" ++ 10 ∷ codes "2024-01-01")))

-- The calendar of both regions, and the cache that has it.
abbrev both_regions : Calendar
both_regions = record {
  weekends = false ∷ false ∷ false ∷ false ∷ false ∷ true ∷ true ∷ [];
  regions = codes "LNB,NYB";
  holidays = pos 2460311 ∷ [];
}

abbrev first_cache : Cache
first_cache = (codes "LNB,NYB", both_regions) ∷ []

abbrev bma_region : Calendar
bma_region = record {
  weekends = false ∷ false ∷ false ∷ false ∷ false ∷ true ∷ true ∷ [];
  regions = codes "BMA";
  holidays = pos 2460311 ∷ [];
}

in_first_cache : lookup (codes "LNB,NYB") first_cache ≡ some both_regions
unfolding lookup
in_first_cache = refl

first_answer :
    get_calendar weekday_cast split_regions join_regions holiday_files (codes "NYB,LNB") []
    ≡ ok (both_regions, first_cache)
unfolding get_calendar lookup make_and_store read_regions sort insert key_of is_cached is_some
    store_calendar get_calendar_data read_calendar getline read_line str_to_digits all_digits
    is_digit push_weekends value_to_enum read_holidays push_holiday from_string parse_ymd
    parse_month parse_day check_day is_delim span_digits to_int chomp_zeros build_value
    convert_to_julian days_in_month is_leap_year quot rem ◌*ℤ◌ ◌+ℤ◌ ◌-ℤ◌ make_calendar
    populate_holidays populate_one add_region insert_holidays set_weekends weekday_index
    Calendar.insert contains
first_answer = refl

get_calendar-again_example :
    get_calendar weekday_cast split_regions join_regions
      (λ path. no_file)
      (codes "LNB:NYB")
      first_cache
    ≡ ok (both_regions, first_cache)
get_calendar-again_example =
    get_calendar-again weekday_cast split_regions join_regions holiday_files (λ path. no_file)
      (codes "NYB,LNB") (codes "LNB:NYB") [] first_cache both_regions (Perm.swap _ _ _) first_answer

second_answer :
    get_calendar weekday_cast split_regions join_regions holiday_files (codes "BMA") first_cache
    ≡ ok (bma_region, (codes "BMA", bma_region) ∷ first_cache)
unfolding get_calendar lookup make_and_store read_regions sort insert key_of is_cached is_some
    store_calendar get_calendar_data read_calendar getline read_line str_to_digits all_digits
    is_digit push_weekends value_to_enum read_holidays push_holiday from_string parse_ymd
    parse_month parse_day check_day is_delim span_digits to_int chomp_zeros build_value
    convert_to_julian days_in_month is_leap_year quot rem ◌*ℤ◌ ◌+ℤ◌ ◌-ℤ◌ make_calendar
    populate_holidays populate_one add_region insert_holidays set_weekends weekday_index
    Calendar.insert contains
second_answer = refl
