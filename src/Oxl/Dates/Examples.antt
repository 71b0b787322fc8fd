-- ===== src/Oxl/Dates/Examples.antt =====
-- The functions of dates of src/oxl/time_xl.cpp at concrete inputs.
use odin_analytics.Prelude.{arith, ◌≡◌, refl, List, [], ◌∷◌, ◌++◌, true, false, none, ok}
use odin_analytics.Prelude.Int.{ℤ, pos, ◌+ℤ◌, ◌-ℤ◌, ◌*ℤ◌, quot, rem}
use odin_analytics.Prelude.Double.{numerators}
use odin_analytics.Prelude.Text.{Text, codes}
use odin_analytics.Time.Date.{Date, from_julian, gregorian, ymd}
use odin_analytics.Time.Date.Parse.{from_string, print_date}
use odin_analytics.Time.Calendar.Examples.{office}
use odin_analytics.Dao.{no_file}
use odin_analytics.StaticDataCache.CalendarCache.{Cache, lookup, key_of, sort, insert}
use odin_analytics.StaticDataCache.Services.{Services}
use odin_analytics.Oxl.Variant.{number, string}
use odin_analytics.Oxl.Dictionary.{XlDictionary}
use odin_analytics.Oxl.Dates.{xltype_num, xltype_str, oxl_is_biz_day, oxl_is_hol_day}
use odin_analytics.Oxl.Dates.Questions.{
  filled_cache, oxl_is_hol_day-any_closes, oxl_is_hol_day-print_date,
}
use odin_analytics.Strings.{is_digit, span_digits, to_int, chomp_zeros, build_value}
use odin_analytics.Time.Date.{convert_to_julian, days_in_month, is_leap_year}
use odin_analytics.Time.Date.Parse.{parse_ymd, parse_month, parse_day, check_day, is_delim}
use odin_analytics.Time.Calendar.{CalendarData}
use odin_analytics.StaticDataCache.CalendarCache.{read_regions}
use odin_analytics.Dao.{
  get_calendar_data, read_calendar, getline, read_line, read_holidays, push_holiday, regular_file,
}

first_text : List Text → Text
first_text [] = []
first_text (s ∷ ss) = s

abbrev services : Services
services = record {
  weekday_cast = λ c. none;
  unit_cast = λ c. none;
  split = λ s. s ∷ [];
  join = first_text;
  files = λ path. no_file;
}

abbrev cache : Cache
cache = (codes "TGT", office) ∷ []

abbrev inputs : XlDictionary ℤ
inputs =
    (codes "Base_Date", number (pos 44743))
    ∷ (codes "Calendar", string (codes "TGT"))
    ∷ (codes "Days", number (pos 1))
    ∷ []

abbrev first_of_july : Date
first_of_july = from_julian (pos 2459762)

-- Files in which a Friday is the one holiday.
abbrev july_files : Services
july_files = record {
  weekday_cast = λ c. none;
  unit_cast = λ c. none;
  split = λ s. s ∷ [];
  join = first_text;
  files = λ path. regular_file (codes "# Holidays" ++ 10 ∷ codes "2022-07-01");
}

abbrev july : CalendarData
july = record {
  list_of_holidays = first_of_july ∷ [];
  weekends = [];
  regions = codes "TGT";
  currency = [];
}

july_read :
    read_regions july_files.weekday_cast july_files.files (sort (codes "TGT" ∷ [])) ≡ ok (july ∷ [])
unfolding read_regions sort insert get_calendar_data read_calendar getline read_line read_holidays
    push_holiday from_string parse_ymd parse_month parse_day check_day is_delim span_digits is_digit
    to_int chomp_zeros build_value convert_to_julian days_in_month is_leap_year quot rem ◌*ℤ◌ ◌+ℤ◌
    ◌-ℤ◌
july_read = refl

july_unknown : lookup (key_of july_files.split july_files.join (codes "TGT")) [] ≡ none
unfolding lookup
july_unknown = refl

oxl_is_hol_day-any_closes_example :
    (oxl_is_hol_day numerators july_files (xltype_num (pos 44743)) (xltype_str (codes "TGT")) []
      ≡ ok (true, filled_cache numerators july_files (codes "TGT") (july ∷ []) []))
    × (oxl_is_biz_day numerators july_files (xltype_num (pos 44743)) (xltype_str (codes "TGT")) []
        ≡ ok (false, filled_cache numerators july_files (codes "TGT") (july ∷ []) []))
unfolding ◌+ℤ◌
oxl_is_hol_day-any_closes_example =
    oxl_is_hol_day-any_closes numerators july_files (codes "TGT") (july ∷ []) [] july_unknown
      july_read (pos 44743) 2459762 refl

-- The same day as a text is taken for one that no file closes.
oxl_is_hol_day-print_date_example :
    (oxl_is_hol_day numerators july_files
        (xltype_str (print_date first_of_july))
        (xltype_str (codes "TGT"))
        []
      ≡ ok (false, filled_cache numerators july_files (codes "TGT") (july ∷ []) []))
    × (oxl_is_biz_day numerators july_files
          (xltype_str (print_date first_of_july))
          (xltype_str (codes "TGT"))
          []
        ≡ ok (true, filled_cache numerators july_files (codes "TGT") (july ∷ []) []))
unfolding gregorian ymd ◌+ℤ◌ ◌-ℤ◌ ◌*ℤ◌ quot rem
oxl_is_hol_day-print_date_example =
    oxl_is_hol_day-print_date numerators july_files (codes "TGT") (july ∷ []) [] july_unknown
      july_read first_of_july 2459762 (omega arith) (omega arith) (omega arith) refl
