-- ===== src/Time/Calendar/Holidays.antt =====
-- Which days a calendar closes: `PopulateHolidays` and `IsHoliday` (src/time/calendar.cpp).
use odin_analytics.Prelude.{
  ℕ, zero, suc, ◌%◌, ◌<◌, ◌≡◌, refl, ap, ◌∙◌, arith, Bool, true, false, ◌||◌, ◌==◌, if◌then◌else◌,
  Bool-cases, inl, inr, List, [], ◌∷◌, length, set, subst, get_or, get_or-set, length-set,
  get_elem?-get_or, ok, ◌>>=◌,
}
use odin_analytics.Prelude.Int.{ℤ, pos, rem, eqb_ℤ, eqb_ℤ→≡}
use odin_analytics.Time.Enums.{Weekdays}
use odin_analytics.Time.Date.{Date, dow_int}
use odin_analytics.Time.Calendar.{
  CalendarData, Calendar, empty_calendar, contains, insert, weekday_index, insert_holidays,
  set_weekends, populate_one, populate_holidays, make_calendar, weekend_bit, is_holiday,
}

-- Whether one calendar's data closes day `j`: its weekday is a weekend, or its date is listed.
abbrev pub is_listed : List Date → ℤ → Bool
is_listed [] j = false
is_listed (d ∷ ds) j = eqb_ℤ d.julian j || is_listed ds j

abbrev pub has_weekday : List Weekdays → ℕ → Bool
has_weekday [] i = false
has_weekday (w ∷ ws) i = weekday_index w == i || has_weekday ws i

abbrev pub closes : CalendarData → ℕ → Bool
closes one j = has_weekday one.weekends (j % 7) || is_listed one.list_of_holidays (pos j)

abbrev pub any_closes : List CalendarData → ℕ → Bool
any_closes [] j = false
any_closes (one ∷ rest) j = closes one j || any_closes rest j

contains-insert : (h j : ℤ) (xs : List ℤ) → contains (insert h xs) j ≡ (eqb_ℤ h j || contains xs j)
unfolding insert contains
contains-insert h j xs = elim (Bool-cases (contains xs h)) [
  | inl old ↦ rw old (kept (eqb_ℤ h j) refl old)
  | inr new ↦ rw new (ground arith)
]
  where
    kept : (b : Bool) → eqb_ℤ h j ≡ b → contains xs h ≡ true → contains xs j ≡ (b || contains xs j)
    kept true e old = subst (λ t. contains xs t ≡ true) (eqb_ℤ→≡ h j e) old
    kept false e old = refl

contains-insert_holidays :
    (ds : List Date) (xs : List ℤ) (j : ℤ)
    → contains (insert_holidays ds xs) j ≡ (is_listed ds j || contains xs j)
unfolding insert_holidays
contains-insert_holidays [] xs j = refl
contains-insert_holidays (d ∷ ds) xs j =
    ground
      (arith, contains-insert_holidays ds (insert d.julian xs) j, contains-insert d.julian j xs)

weekday_index-lt : (w : Weekdays) → weekday_index w < 7
unfolding weekday_index
weekday_index-lt w = ground arith

length-set_weekends :
    (ws : List Weekdays) (bits : List Bool) → length (set_weekends ws bits) ≡ length bits
unfolding set_weekends
length-set_weekends [] bits = refl
length-set_weekends (w ∷ ws) bits =
    length-set_weekends ws _ ∙ length-set bits (weekday_index w) true

get_or-set_weekends :
    (ws : List Weekdays) (bits : List Bool) (i : ℕ)
    → length bits ≡ 7
    → get_or (set_weekends ws bits) i false ≡ (has_weekday ws i || get_or bits i false)
unfolding set_weekends
get_or-set_weekends [] bits i h = refl
get_or-set_weekends (w ∷ ws) bits i h = ground (
  arith,
  get_or-set_weekends ws (set bits (weekday_index w) true) i,
  length-set bits (weekday_index w) true,
  get_or-set bits (weekday_index w) i true false,
  weekday_index-lt w,
)

-- Seven bits, as in the `bitset<7>`.
abbrev pub HasWeek : Calendar → Type 0
HasWeek c = length c.weekends ≡ 7

weekend_bit-at :
    (bits : List Bool) (i : ℕ)
    → i < length bits
    → weekend_bit bits (pos i) ≡ ok (get_or bits i false)
unfolding weekend_bit
weekend_bit-at bits i h = rw (get_elem?-get_or bits i false h, weekend_bit)

-- What `is_holiday` returns where it is defined.
abbrev pub closed : Calendar → ℕ → Bool
closed c j = get_or c.weekends (j % 7) false || contains c.holidays (pos j)

pub is_holiday-closed : (c : Calendar) (j : ℕ) → HasWeek c → is_holiday c (pos j) ≡ ok (closed c j)
unfolding is_holiday dow_int rem
is_holiday-closed c j h =
    ap (λ r. r >>= λ weekend. if weekend then ok true else ok (contains c.holidays (pos j)))
      (weekend_bit-at c.weekends (j % 7) (omega arith))
    ∙ join (get_or c.weekends (j % 7) false) (contains c.holidays (pos j))
  where
    join : (a b : Bool) → (if a then ok true else ok b) ≡ ok (a || b)
    join true b = refl
    join false b = refl

populate_one-closed :
    (c : Calendar) (one : CalendarData) (j : ℕ)
    → HasWeek c
    → closed (populate_one c one) j ≡ (closes one j || closed c j)
unfolding populate_one
populate_one-closed c one j h =
    rw
      (
        get_or-set_weekends one.weekends c.weekends (j % 7) h,
        contains-insert_holidays one.list_of_holidays c.holidays (pos j),
      )
      (regroup (has_weekday one.weekends (j % 7)) (get_or c.weekends (j % 7) false) _ _)
  where
    regroup : (a b c d : Bool) → ((a || b) || (c || d)) ≡ ((a || c) || (b || d))
    regroup a b c d = ground arith

pub populate_holidays-HasWeek :
    (c : Calendar) (all : List CalendarData) → HasWeek c → HasWeek (populate_holidays c all)
unfolding populate_holidays populate_one
populate_holidays-HasWeek c [] h = h
populate_holidays-HasWeek c (one ∷ rest) h =
    populate_holidays-HasWeek (populate_one c one) rest
      (length-set_weekends one.weekends c.weekends ∙ h)

populate_holidays-closed :
    (c : Calendar) (all : List CalendarData) (j : ℕ)
    → HasWeek c
    → closed (populate_holidays c all) j ≡ (closed c j || any_closes all j)
unfolding populate_holidays populate_one
populate_holidays-closed c [] j h = ground arith
populate_holidays-closed c (one ∷ rest) j h =
    populate_holidays-closed (populate_one c one) rest j
      (length-set_weekends one.weekends c.weekends ∙ h)
    ∙ ap (λ t. t || any_closes rest j) (populate_one-closed c one j h)
    ∙ regroup (closes one j) (closed c j) (any_closes rest j)
  where
    regroup : (a b c : Bool) → ((a || b) || c) ≡ (b || (a || c))
    regroup a b c = ground arith

abbrev open_days : ℕ → List Bool
open_days zero = []
open_days (suc n) = false ∷ open_days n

get_or-open_days : (n i : ℕ) → get_or (open_days n) i false ≡ false
get_or-open_days zero i = refl
get_or-open_days (suc n) zero = refl
get_or-open_days (suc n) (suc i) = get_or-open_days n i

empty_calendar-closed : (j : ℕ) → closed empty_calendar j ≡ false
unfolding contains
empty_calendar-closed j = ap (λ t. t || false) (get_or-open_days 7 (j % 7))

-- A calendar made from several calendars' data closes exactly the days that one of them closes, by
-- a weekend or by a listed holiday.
pub is_holiday-make_calendar :
    (all : List CalendarData) (j : ℕ)
    → is_holiday (make_calendar all) (pos j) ≡ ok (any_closes all j)
unfolding make_calendar
is_holiday-make_calendar all j =
    is_holiday-closed (populate_holidays empty_calendar all) j
      (populate_holidays-HasWeek empty_calendar all refl)
    ∙ ap ok (
        populate_holidays-closed empty_calendar all j refl
        ∙ ap (λ t. t || any_closes all j) (empty_calendar-closed j))
