-- ===== src/Time/Calendar.antt =====
-- src/time/calendar.cpp, calendar.h and calendar_data_struct.h: weekends and holidays, and the
-- search for business days.
pub mod Holidays
pub mod Pigeonhole
pub mod OpenDays
pub mod Search
pub mod Nearest
pub mod Walk
pub mod Examples
use odin_analytics.Prelude.{
  ℕ, zero, suc, ◌+◌, ◌-◌, ◌*◌, Bool, true, false, not, ◌==◌, if◌then◌else◌, Option, none, some,
  List, [], ◌∷◌, ◌++◌, length, get_elem?, set, Result, ok, err, undefined, stuck, ◌>>=◌,
}
use odin_analytics.Prelude.Int.{ℤ, pos, negsuc, ◌+ℤ◌, ◌-ℤ◌, nat_abs, ltb_ℤ, eqb_ℤ}
use odin_analytics.Prelude.Text.{Text}
use odin_analytics.Time.Enums.{
  Weekdays, monday, tuesday, wednesday, thursday, friday, saturday, sunday,
}
use odin_analytics.Time.Date.{Date, from_julian, dow_int}

-- `CalendarDataStruct`.
pub record CalendarData : Type 0 where
  pub list_of_holidays : List Date
  pub weekends : List Weekdays
  pub regions : Text
  pub currency : Text

-- `m_weekends_` is a `bitset<7>`, and `m_holidays_` an `unordered_set<int>`.
pub record Calendar : Type 0 where
  pub weekends : List Bool
  pub regions : Text
  pub holidays : List ℤ

-- The default constructor.
abbrev pub empty_calendar : Calendar
empty_calendar = record {
  weekends = false ∷ false ∷ false ∷ false ∷ false ∷ false ∷ false ∷ [];
  regions = [];
  holidays = [];
}

unfoldable pub contains : List ℤ → ℤ → Bool
contains [] j = false
contains (x ∷ xs) j = if eqb_ℤ x j then true else contains xs j

unfoldable pub insert : ℤ → List ℤ → List ℤ
insert j xs = if contains xs j then xs else j ∷ xs

-- `EnumToInt` at the weekdays.
unfoldable pub weekday_index : Weekdays → ℕ
weekday_index monday = 0
weekday_index tuesday = 1
weekday_index wednesday = 2
weekday_index thursday = 3
weekday_index friday = 4
weekday_index saturday = 5
weekday_index sunday = 6

unfoldable pub insert_holidays : List Date → List ℤ → List ℤ
insert_holidays [] holidays = holidays
insert_holidays (d ∷ ds) holidays = insert_holidays ds (insert d.julian holidays)

unfoldable pub set_weekends : List Weekdays → List Bool → List Bool
set_weekends [] bits = bits
set_weekends (w ∷ ws) bits = set_weekends ws (set bits (weekday_index w) true)

-- The regions are joined by commas.
unfoldable pub add_region : Text → Text → Text
add_region [] region = region
add_region (c ∷ cs) region = (c ∷ cs) ++ (b',' ∷ region)

-- One round of the loop of `PopulateHolidays`. Its two tests for an empty list skip loops of no
-- rounds.
unfoldable pub populate_one : Calendar → CalendarData → Calendar
populate_one c one = record {
  weekends = set_weekends one.weekends c.weekends;
  regions = add_region c.regions one.regions;
  holidays = insert_holidays one.list_of_holidays c.holidays;
}

unfoldable pub populate_holidays : Calendar → List CalendarData → Calendar
populate_holidays c [] = c
populate_holidays c (one ∷ rest) = populate_holidays (populate_one c one) rest

-- The constructor from a list of calendars' data, and the one from a single calendar's.
unfoldable pub make_calendar : List CalendarData → Calendar
make_calendar all = populate_holidays empty_calendar all

unfoldable pub make_calendar_of_one : CalendarData → Calendar
make_calendar_of_one one = populate_holidays empty_calendar (one ∷ [])

-- `m_weekends_[i]`, which is undefined outside of the seven bits.
weekend_bit : List Bool → ℤ → Result Bool
weekend_bit bits (pos i) = elim (get_elem? bits i) [ none ↦ err undefined | some b ↦ ok b ]
weekend_bit bits (negsuc i) = err undefined

unfoldable pub is_holiday : Calendar → ℤ → Result Bool
unfolding weekend_bit
is_holiday c julian_date = weekend_bit c.weekends (dow_int julian_date) >>= λ weekend.
    if weekend then ok true else ok (contains c.holidays julian_date)

unfoldable pub is_business_day : Calendar → ℤ → Result Bool
is_business_day c given_date = is_holiday c given_date >>= λ b. ok (not b)

-- The two `while (IsHoliday(...))` loops, on fuel.
unfoldable pub seek_up : ℕ → Calendar → ℤ → Result Date
seek_up zero c j = err stuck
seek_up (suc fuel) c j =
    let later = seek_up fuel c (j +ℤ pos 1) in
    is_holiday c j >>= λ b. if b then later else ok (from_julian j)

unfoldable pub seek_down : ℕ → Calendar → ℤ → Result Date
seek_down zero c j = err stuck
seek_down (suc fuel) c j =
    let sooner = seek_down fuel c (j -ℤ pos 1) in
    is_holiday c j >>= λ b. if b then sooner else ok (from_julian j)

-- Rounds that are enough if not every day is a weekend: in each week but the last, a holiday falls
-- on a day that is none.
abbrev pub search_fuel : Calendar → ℕ
search_fuel c = 7 * (length c.holidays + 1)

unfoldable pub get_next_business_day : Calendar → Date → Result Date
get_next_business_day c base = seek_up (search_fuel c) c (base.julian +ℤ pos 1)

unfoldable pub get_prev_business_day : Calendar → Date → Result Date
get_prev_business_day c base = seek_down (search_fuel c) c (base.julian -ℤ pos 1)

-- The loop of `AddBusinessDays`: `back` is the test `number_of_days < 0`.
unfoldable pub walk : ℕ → Calendar → Bool → ℕ → ℤ → Result Date
walk zero c back left j = if left == 0 then ok (from_julian j) else err stuck
walk (suc fuel) c back left j =
    let next = if back then j -ℤ pos 1 else j +ℤ pos 1 in
    let at_business = walk fuel c back (left - 1) next in
    let at_holiday = walk fuel c back left next in
    if left == 0
    then ok (from_julian j)
    else (is_business_day c next >>= λ b. if b then at_business else at_holiday)

unfoldable pub add_business_days : Calendar → ℤ → Date → Result Date
add_business_days c number_of_days base =
    let n = nat_abs number_of_days in
    walk (search_fuel c * n) c (ltb_ℤ number_of_days (pos 0)) n base.julian
