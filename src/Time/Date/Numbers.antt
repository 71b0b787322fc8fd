-- ===== src/Time/Date/Numbers.antt =====
-- The arithmetic of the two conversions over natural numbers. A year is counted from -4800 and
-- starts in March: `y` is that year, `m` its month from 1, and `d` the day of the month.
use odin_analytics.Prelude.{ℕ, ◌+◌, ◌-◌, ◌*◌, ◌/◌, ◌%◌, ◌≤◌, ◌<◌, ◌≡◌, ◌⊎◌, arith}

-- Days before month `m`, plus 30.
abbrev pub month_offset : ℕ → ℕ
month_offset m = 367 * m / 12

abbrev pub centuries : ℕ → ℕ
centuries y = (y + 100) / 100

abbrev pub leap_centuries : ℕ → ℕ
leap_centuries y = 3 * centuries y / 4

-- Day 32075 is the Julian day number 0.
abbrev pub day_number : ℕ → ℕ → ℕ
day_number y k = 1461 * y / 4 + k - leap_centuries y

-- The days of a March year run up to that of its leap day.
abbrev pub InYear : ℕ → ℕ → Type 0
InYear y k = (31 ≤ k) × ((k ≤ 395) ⊎ ((k ≡ 396) × (y % 4 ≡ 3) × ((y % 100 < 99) ⊎ (y % 400 ≡ 399))))

pub century_found :
    (y k j : ℕ)
    → 88 ≤ y + 1
    → InYear y k
    → j + 32075 ≡ day_number y k
    → 3 * ((4 * j + 274277) / 146097) / 4 ≡ leap_centuries y
century_found y k j h i e = omega arith

-- `f` of the algorithm of Richards.
abbrev pub richards_f : ℕ → ℕ
richards_f j = j + 1401 + (4 * j + 274277) / 146097 * 3 / 4 - 38

abbrev pub richards_e : ℕ → ℕ
richards_e j = 4 * richards_f j + 3

abbrev pub richards_h : ℕ → ℕ
richards_h j = 5 * (richards_e j % 1461 / 4) + 2

module _ (y k j : ℕ) (h : 88 ≤ y + 1) (i : InYear y k) (e : j + 32075 ≡ day_number y k) where
  richards_e_lem : richards_e j + 1461 * 84 + 121 + y % 4 ≡ 1461 * y + 4 * k
  richards_e_lem = omega (arith, century_found y k j h i e)

  pub year_found : richards_e j / 1461 + 84 ≡ y
  year_found = omega (arith, richards_e_lem)

  pub day_of_year_found : richards_e j % 1461 / 4 + 31 ≡ k
  day_of_year_found = omega (arith, richards_e_lem)

-- The month and the day of the month, from the day of the March year.
pub month_found :
    (m d : ℕ)
    → 1 ≤ m
    → m ≤ 12
    → 1 ≤ d
    → month_offset m + d ≤ month_offset (m + 1)
    → ((5 * (month_offset m + d - 31) + 2) / 153 + 1 ≡ m)
      × ((5 * (month_offset m + d - 31) + 2) % 153 / 5 + 1 ≡ d)
month_found m d h1 h2 h3 h4 = omega arith
