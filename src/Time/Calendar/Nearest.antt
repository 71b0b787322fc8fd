-- ===== src/Time/Calendar/Nearest.antt =====
-- `GetNextBusinessDay` and `GetPrevBusinessDay` (src/time/calendar.cpp) end, and find the nearest
-- business day.
use odin_analytics.Prelude.{ℕ, ◌+◌, ◌-◌, ◌≤◌, ◌≡◌, ap, ◌∙◌, arith, ok}
use odin_analytics.Prelude.Int.{pos}
use odin_analytics.Time.Date.{from_julian}
use odin_analytics.Time.Date.Gregorian.{+ℤ_pos, -ℤ_pos}
use odin_analytics.Time.Calendar.{
  Calendar, seek_up, seek_down, search_fuel, get_next_business_day, get_prev_business_day,
}
use odin_analytics.Time.Calendar.Holidays.{HasWeek}
use odin_analytics.Time.Calendar.OpenDays.{HasOpenDay, IsNext, IsPrev, open_ahead, open_behind}
use odin_analytics.Time.Calendar.Search.{seek_up_lem, seek_down_lem}

module _ (c : Calendar) (week : HasWeek c) where
  -- On a calendar with an open weekday the search for the next business day ends on every day, and
  -- returns the first later day that is no holiday.
  pub get_next_business_day-IsNext :
      (b : ℕ)
      → HasOpenDay c
      → (d : ℕ) × (get_next_business_day c (from_julian (pos b)) ≡ ok (from_julian (pos d)))
        × IsNext c b d
        × (d ≤ b + search_fuel c)
  unfolding get_next_business_day
  get_next_business_day-IsNext b o =
      let (k, lt, free) = open_ahead c (b + 1) o in
      let (d, found, low, high, business, between) =
        seek_up_lem c week (search_fuel c) (b + 1) k lt free in
      (
        d,
        ap (seek_up (search_fuel c) c) (+ℤ_pos b 1) ∙ found,
        record {
          later = omega arith;
          business = business;
          between = λ i l h. between i (omega arith) h;
        },
        omega arith,
      )

  -- The search for the previous business day ends too, from a day that is far enough from day 0,
  -- and returns the last earlier day that is no holiday.
  pub get_prev_business_day-IsPrev :
      (b : ℕ)
      → HasOpenDay c
      → search_fuel c ≤ b
      → (d : ℕ) × (get_prev_business_day c (from_julian (pos b)) ≡ ok (from_julian (pos d)))
        × IsPrev c b d
        × (b ≤ d + search_fuel c)
  unfolding get_prev_business_day
  get_prev_business_day-IsPrev b o h =
      let (k, lt, free) = open_behind c (b - 1) o (omega arith) in
      let (d, found, high, low, business, between) =
        seek_down_lem c week (search_fuel c) (b - 1) k lt (omega arith) free in
      (
        d,
        ap (seek_down (search_fuel c) c) (-ℤ_pos b 1 (omega arith)) ∙ found,
        record {
          earlier = omega arith;
          business = business;
          between = λ i l h. between i l (omega arith);
        },
        omega arith,
      )
