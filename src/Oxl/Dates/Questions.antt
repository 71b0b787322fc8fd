-- ===== src/Oxl/Dates/Questions.antt =====
-- The questions about days of src/oxl/time_xl.cpp: `OxlIsHolDay` and `OxlIsBizDay`.
use odin_analytics.Prelude.{ℕ, ◌≡◌, ap, ◌∙◌, not, List, none, some, ◌+◌, ok, ◌>>=◌, chain_step}
use odin_analytics.Prelude.Int.{ℤ, pos, ◌+ℤ◌, ◌≤ℤ◌, int_laws}
use odin_analytics.Prelude.Double.{Double}
use odin_analytics.Prelude.Text.{Text}
use odin_analytics.Time.Date.{Date, gregorian}
use odin_analytics.Time.Date.Validity.{IsDate}
use odin_analytics.Time.Date.Parse.{print_date, from_string}
use odin_analytics.Time.Date.Parse.Printing.{from_string-print_date}
use odin_analytics.Time.Calendar.{CalendarData, make_calendar, is_holiday, is_business_day}
use odin_analytics.Time.Calendar.Holidays.{any_closes, is_holiday-make_calendar}
use odin_analytics.StaticDataCache.CalendarCache.{
  Cache, lookup, key_of, sort, read_regions, store_calendar, make_and_store, get_calendar,
}
use odin_analytics.StaticDataCache.Services.{Services, request}
use odin_analytics.Oxl.Dates.{
  Xloper, xltype_num, xltype_str, is_xltype_str, lpxloper_to_str, xloper_to_julian_int,
  oxl_is_biz_day, oxl_is_hol_day,
}

is_business_day-make_calendar :
    (all : List CalendarData) (j : ℕ)
    → is_business_day (make_calendar all) (pos j) ≡ ok (not (any_closes all j))
unfolding is_business_day
is_business_day-make_calendar all j =
    ap (λ r. r >>= λ holiday. ok (not holiday)) (is_holiday-make_calendar all j)

later_day : (i : ℤ) (j : ℕ) → i ≡ pos j → pos 2415019 +ℤ i ≡ pos (j + 2415019)
later_day i j h = ap (λ k. pos 2415019 +ℤ k) h ∙ summed j
  where
    summed : (j : ℕ) → pos 2415019 +ℤ pos j ≡ pos (j + 2415019)
    summed j = omega int_laws

commuted : (i : ℤ) (j : ℕ) → i +ℤ pos 2415019 ≡ pos j → pos 2415019 +ℤ i ≡ pos j
commuted i j h = swap i ∙ h
  where
    swap : (i : ℤ) → pos 2415019 +ℤ i ≡ i +ℤ pos 2415019
    swap i = omega int_laws

module _ (double : Double) (services : Services) (s : Text) (all : List CalendarData)
    (cache : Cache) where
  open double use {Number, to_int}

  -- The cache after a calendar was made for a first request.
  abbrev pub filled_cache : Cache
  filled_cache = store_calendar (key_of services.split services.join s) (make_calendar all) cache

  module _ (unknown : lookup (key_of services.split services.join s) cache ≡ none)
      (files_read : read_regions services.weekday_cast services.files (sort (services.split s))
        ≡ ok all) where
    first_request : request services s cache ≡ ok (make_calendar all, filled_cache)
    unfolding get_calendar make_and_store
    first_request =
        ap
          (λ o. elim o [
            | some c ↦ ok (c, cache)
            | none ↦
                make_and_store services.weekday_cast services.split services.join services.files s
                  cache
          ])
          unknown
        ∙ chain_step (read_regions services.weekday_cast services.files (sort (services.split s))) _
            all files_read

    Answers : Xloper Number → ℕ → Type 0
    Answers date j =
        (oxl_is_hol_day double services date (xltype_str s) cache
          ≡ ok (any_closes all j, filled_cache))
        × (oxl_is_biz_day double services date (xltype_str s) cache
            ≡ ok (not (any_closes all j), filled_cache))

    asked_of :
        (date : Xloper Number) (j : ℕ)
        → xloper_to_julian_int double date ≡ ok (pos j)
        → Answers date j
    unfolding Answers oxl_is_hol_day oxl_is_biz_day is_xltype_str lpxloper_to_str
    asked_of date j day = (
      chain_step (xloper_to_julian_int double date) _ (pos j) day
          ∙ chain_step (request services s cache) _ (make_calendar all, filled_cache) first_request
          ∙ chain_step (is_holiday (make_calendar all) (pos j)) _ (any_closes all j)
              (is_holiday-make_calendar all j),
      chain_step (xloper_to_julian_int double date) _ (pos j) day
          ∙ chain_step (request services s cache) _ (make_calendar all, filled_cache) first_request
          ∙ chain_step (is_business_day (make_calendar all) (pos j)) _ (not (any_closes all j))
              (is_business_day-make_calendar all j),
    )

    -- For regions that are not in the cache and whose files are read, the two questions about the
    -- number of a day in Excel are answered by the files: a day is a holiday if one of them closes it,
    -- and else a business day; the calendar is kept in the cache.
    pub oxl_is_hol_day-any_closes :
        (x : Number) (j : ℕ)
        → to_int x +ℤ pos 2415019 ≡ pos j
        → (oxl_is_hol_day double services (xltype_num x) (xltype_str s) cache
            ≡ ok (any_closes all j, filled_cache))
          × (oxl_is_biz_day double services (xltype_num x) (xltype_str s) cache
              ≡ ok (not (any_closes all j), filled_cache))
    unfolding Answers xloper_to_julian_int
    oxl_is_hol_day-any_closes x j day =
        asked_of (xltype_num x) j (ap ok (commuted (to_int x) j day))

    -- For the same regions, the two questions about a date of the years 0 to 9999 that is given as
    -- the text that `operator<<` prints are answered by the files for the day 2415019 days after that
    -- date.
    pub oxl_is_hol_day-print_date :
        (date : Date) (j : ℕ)
        → IsDate date
        → pos 0 ≤ℤ (gregorian date).year
        → (gregorian date).year ≤ℤ pos 9999
        → date.julian ≡ pos j
        → (oxl_is_hol_day double services (xltype_str (print_date date)) (xltype_str s) cache
            ≡ ok (any_closes all (j + 2415019), filled_cache))
          × (oxl_is_biz_day double services (xltype_str (print_date date)) (xltype_str s) cache
              ≡ ok (not (any_closes all (j + 2415019)), filled_cache))
    unfolding Answers xloper_to_julian_int
    oxl_is_hol_day-print_date date j valid low high day =
        asked_of (xltype_str (print_date date)) (j + 2415019) (
          chain_step (from_string (print_date date)) _ date
            (from_string-print_date date valid low high)
          ∙ ap ok (later_day date.julian j day))
