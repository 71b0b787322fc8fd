-- ===== src/Time/Calendar/Examples.antt =====
-- The theorems about calendars at a calendar with a weekend and a holiday.
use odin_analytics.Prelude.{ℕ, ◌≤◌, ◌+◌, ◌≡◌, refl, arith, ok, true, false, [], ◌∷◌}
use odin_analytics.Prelude.Int.{pos, negsuc, ◌+ℤ◌, rem}
use odin_analytics.Time.Enums.{saturday, sunday}
use odin_analytics.Time.Date.{from_julian, dow_int}
use odin_analytics.Time.Calendar.{
  CalendarData, Calendar, make_calendar, is_holiday, contains, insert, weekday_index,
  insert_holidays, set_weekends, add_region, populate_one, populate_holidays, search_fuel, seek_up,
  get_next_business_day, get_prev_business_day, add_business_days, walk, is_business_day,
}
use odin_analytics.Time.Calendar.Holidays.{any_closes, is_holiday-make_calendar}
use odin_analytics.Time.Calendar.OpenDays.{HasOpenDay, IsNext, IsPrev}
use odin_analytics.Time.Calendar.Nearest.{
  get_next_business_day-IsNext, get_prev_business_day-IsPrev,
}
use odin_analytics.Time.Calendar.Walk.{
  After, Before, add_business_days-After, add_business_days-Before,
}

-- Saturdays, Sundays and 2022-07-04, which has the Julian day number 2459765.
abbrev pub new_york : CalendarData
new_york = record {
  list_of_holidays = from_julian (pos 2459765) ∷ [];
  weekends = saturday ∷ sunday ∷ [];
  regions = b'N' ∷ b'Y' ∷ b'B' ∷ [];
  currency = [];
}

-- The same calendar as the constructor makes it.
abbrev pub office : Calendar
office = record {
  weekends = false ∷ false ∷ false ∷ false ∷ false ∷ true ∷ true ∷ [];
  regions = b'N' ∷ b'Y' ∷ b'B' ∷ [];
  holidays = pos 2459765 ∷ [];
}

office_made : make_calendar (new_york ∷ []) ≡ office
unfolding make_calendar populate_holidays populate_one set_weekends weekday_index add_region
    insert_holidays insert contains
office_made = refl

abbrev pub office-HasOpenDay : HasOpenDay office
office-HasOpenDay = (0, omega arith, refl)

is_holiday-make_calendar_example :
    is_holiday (make_calendar (new_york ∷ [])) (pos 2459765)
    ≡ ok (any_closes (new_york ∷ []) 2459765)
is_holiday-make_calendar_example = is_holiday-make_calendar (new_york ∷ []) 2459765

get_next_business_day_example :
    (d : ℕ) × (get_next_business_day office (from_julian (pos 2459762)) ≡ ok (from_julian (pos d)))
    × IsNext office 2459762 d
    × (d ≤ 2459762 + search_fuel office)
get_next_business_day_example = get_next_business_day-IsNext office refl 2459762 office-HasOpenDay

-- From Friday 2022-07-01 to Tuesday 2022-07-05.
get_next_business_day_run :
    get_next_business_day office (from_julian (pos 2459762)) ≡ ok (from_julian (pos 2459766))
unfolding get_next_business_day seek_up is_holiday dow_int rem contains ◌+ℤ◌
get_next_business_day_run = refl

get_prev_business_day_example :
    (d : ℕ) × (get_prev_business_day office (from_julian (pos 2459766)) ≡ ok (from_julian (pos d)))
    × IsPrev office 2459766 d
    × (2459766 ≤ d + search_fuel office)
get_prev_business_day_example =
    get_prev_business_day-IsPrev office refl 2459766 office-HasOpenDay (omega arith)

add_business_days-After_example :
    (d : ℕ) × (add_business_days office (pos 2) (from_julian (pos 2459762))
      ≡ ok (from_julian (pos d)))
    × After office 2 2459762 d
add_business_days-After_example = add_business_days-After office refl 2 2459762 office-HasOpenDay

-- Two business days on is Wednesday 2022-07-06.
add_business_days_run :
    add_business_days office (pos 2) (from_julian (pos 2459762)) ≡ ok (from_julian (pos 2459767))
unfolding add_business_days walk is_business_day is_holiday dow_int rem contains ◌+ℤ◌
add_business_days_run = refl

add_business_days-Before_example :
    (d : ℕ) × (add_business_days office (negsuc 1) (from_julian (pos 2459767))
      ≡ ok (from_julian (pos d)))
    × Before office 2 2459767 d
add_business_days-Before_example =
    add_business_days-Before office refl 1 2459767 office-HasOpenDay (omega arith)
