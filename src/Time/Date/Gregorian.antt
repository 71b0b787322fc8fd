-- ===== src/Time/Date/Gregorian.antt =====
-- The two conversions are inverse to each other on the dates from -4712-01-01 on.
use odin_analytics.Prelude.{
  ℕ, ◌+◌, ◌-◌, ◌*◌, ◌/◌, ◌%◌, ◌≤◌, ◌≡◌, refl, ap, ◌∙◌, arith, Bool, ltb, ◌==◌, ◌&&◌, ◌||◌, not,
  if◌then◌else◌, ok,
}
use odin_analytics.Prelude.Int.{pos, negsuc, ◌+ℤ◌, ◌-ℤ◌, ◌*ℤ◌, quot, rem}
use odin_analytics.Time.Date.{year_month_day, is_leap_year, days_in_month, convert_to_julian, ymd}
use odin_analytics.Time.Date.Numbers.{
  InYear, richards_e, richards_h, day_number, month_offset, leap_centuries, year_found,
  day_of_year_found, month_found,
}

-- How the operations on integers act on natural numbers.
pub +ℤ_pos : (a b : ℕ) → pos a +ℤ pos b ≡ pos (a + b)
unfolding ◌+ℤ◌
+ℤ_pos a b = ground arith

pub -ℤ_pos : (a b : ℕ) → b ≤ a → pos a -ℤ pos b ≡ pos (a - b)
unfolding ◌-ℤ◌
-ℤ_pos a b h = ground arith

*ℤ_pos : (a b : ℕ) → pos a *ℤ pos b ≡ pos (a * b)
unfolding ◌*ℤ◌
*ℤ_pos a b = ground arith

quot_pos : (a n : ℕ) → quot (pos a) n ≡ pos (a / n)
unfolding quot
quot_pos a n = refl

rem_pos : (a n : ℕ) → rem (pos a) n ≡ pos (a % n)
unfolding rem
rem_pos a n = refl

less_38 : (a b : ℕ) → pos (a + 1401 + b) +ℤ negsuc 37 ≡ pos (a + 1401 + b - 38)
unfolding ◌+ℤ◌
less_38 a b = ground arith

from_14 : (a : ℕ) → pos 14 -ℤ pos (a % 12 + 1) ≡ pos (14 - (a % 12 + 1))
from_14 a = -ℤ_pos 14 _ (omega arith)

ruleset pos_laws = (+ℤ_pos, *ℤ_pos, quot_pos, rem_pos)

abbrev found_month : ℕ → ℕ
found_month j = (richards_h j / 153 + 2) % 12 + 1

-- What `ymd` returns from day 0 on; the year is counted from -4716.
ymd_pos :
    (j : ℕ)
    → ymd (pos j)
      ≡ year_month_day
          (pos (richards_e j / 1461) -ℤ pos 4716 +ℤ pos ((14 - found_month j) / 12))
          (pos (found_month j))
          (pos (richards_h j % 153 / 5 + 1))
unfolding ymd
ymd_pos j = simp (pos_laws, less_38, from_14)

-- The leap rule, for a year counted from -4800.
abbrev pub leap_from_4800 : ℕ → Bool
leap_from_4800 n = (n % 4 == 0 && not (n % 100 == 0)) || n % 400 == 0

pub is_leap_year-pos : (n : ℕ) → is_leap_year (pos n -ℤ pos 4800) ≡ leap_from_4800 n
unfolding is_leap_year ◌-ℤ◌ rem
is_leap_year-pos n = ground arith

-- `convert_to_julian` where the month and the day are positive.
abbrev pub march_year : ℕ → ℕ → ℕ
march_year n m = if ltb m 3 then n - 1 else n

abbrev pub march_month : ℕ → ℕ
march_month m = if ltb m 3 then m + 10 else m - 2

year_shift :
    (n m k : ℕ)
    → 1 ≤ n
    → 1 ≤ m
    → m ≤ 12
    → pos n -ℤ pos 4800 +ℤ pos (4800 + k) +ℤ quot (pos m -ℤ pos 14) 12 ≡ pos (march_year n m + k)
unfolding ◌+ℤ◌ ◌-ℤ◌ quot
year_shift n m k h h1 h2 = ground arith

month_shift :
    (m : ℕ)
    → 1 ≤ m
    → m ≤ 12
    → pos m -ℤ pos 2 -ℤ pos 12 *ℤ quot (pos m -ℤ pos 14) 12 ≡ pos (march_month m)
unfolding ◌-ℤ◌ ◌*ℤ◌ quot
month_shift m h1 h2 = ground arith

sum_pos : (a b c d : ℕ) → c ≤ a → pos a +ℤ pos b -ℤ pos c +ℤ pos d ≡ pos (a + (b + d) - c)
unfolding ◌+ℤ◌ ◌-ℤ◌
sum_pos a b c d h = ground arith

convert_to_julian_pos :
    (n m d : ℕ)
    → 1 ≤ n
    → 1 ≤ m
    → m ≤ 12
    → convert_to_julian (pos n -ℤ pos 4800) (pos m) (pos d)
      ≡ pos (day_number (march_year n m) (month_offset (march_month m) + d)) -ℤ pos 32075
unfolding convert_to_julian quot
convert_to_julian_pos n m d h h1 h2 =
    rw
      (
        year_shift n m 0 h h1 h2,
        year_shift n m 100 h h1 h2,
        month_shift m h1 h2,
        *ℤ_pos 1461 (march_year n m + 0),
        *ℤ_pos 367 (march_month m),
        *ℤ_pos 3 ((march_year n m + 100) / 100),
        sum_pos ((1461 * (march_year n m + 0)) / 4) (month_offset (march_month m))
            (leap_centuries (march_year n m)) d (omega arith),
      )
      (ap (λ t. pos t -ℤ pos 32075) (omega arith))

-- The length of a month of the year that is counted from -4800.
abbrev pub length_from_4800 : ℕ → ℕ → ℕ
length_from_4800 n m =
    if m == 2
    then (if leap_from_4800 n then 29 else 28)
    else if m == 4 || (m == 6 || (m == 9 || m == 11))
    then 30
    else 31

pub days_in_month_pos :
    (n m : ℕ)
    → 1 ≤ m
    → m ≤ 12
    → days_in_month (pos n -ℤ pos 4800) (pos m) ≡ ok (pos (length_from_4800 n m))
unfolding days_in_month
days_in_month_pos n m h1 h2 = ground (arith, is_leap_year-pos n)

-- A day that fits its month stands in its March year.
day_fits :
    (n m d : ℕ)
    → 88 ≤ n
    → 1 ≤ m
    → m ≤ 12
    → 1 ≤ d
    → d ≤ length_from_4800 n m
    → InYear (march_year n m) (month_offset (march_month m) + d)
      × (month_offset (march_month m) + d ≤ month_offset (march_month m + 1))
day_fits n m d h h1 h2 h3 h4 = ground arith

-- The Julian day number, plus 32075, of a day of the year that is counted from -4800.
abbrev pub number_from_4800 : ℕ → ℕ → ℕ → ℕ
number_from_4800 n m d = day_number (march_year n m) (month_offset (march_month m) + d)

ymd_from_parts :
    (n m d y k : ℕ)
    → y + 84 ≡ march_year n m
    → 1 ≤ n
    → 1 ≤ m
    → m ≤ 12
    → k + 1 ≡ march_month m
    → year_month_day
        (pos y -ℤ pos 4716 +ℤ pos ((14 - ((k + 2) % 12 + 1)) / 12))
        (pos ((k + 2) % 12 + 1))
        (pos d)
      ≡ year_month_day (pos n -ℤ pos 4800) (pos m) (pos d)
unfolding ◌+ℤ◌ ◌-ℤ◌
ymd_from_parts n m d y k e h h1 h2 e' = ground arith

module _ (n m d : ℕ) (h : 88 ≤ n) (h1 : 1 ≤ m) (h2 : m ≤ 12) (h3 : 1 ≤ d)
    (h4 : d ≤ length_from_4800 n m) where
  pub number_from_4800_bound : 32113 ≤ number_from_4800 n m d
  number_from_4800_bound = ground arith

  pub convert_to_julian_at :
      convert_to_julian (pos n -ℤ pos 4800) (pos m) (pos d) ≡ pos (number_from_4800 n m d - 32075)
  convert_to_julian_at =
      convert_to_julian_pos n m d (omega arith) h1 h2
      ∙ -ℤ_pos _ 32075 (omega (arith, number_from_4800_bound))

  pub ymd-number_from_4800 :
      ymd (pos (number_from_4800 n m d - 32075))
      ≡ year_month_day (pos n -ℤ pos 4800) (pos m) (pos d)
  ymd-number_from_4800 =
      ymd_pos j
      ∙ ymd_from_parts n m (richards_h j % 153 / 5 + 1) (richards_e j / 1461) (richards_h j / 153)
          (year_found y k j y_bound fit.0 (omega (arith, number_from_4800_bound))) (omega arith) h1
          h2 (omega (arith, month_h))
      ∙ ap (λ t. year_month_day (pos n -ℤ pos 4800) (pos m) (pos t)) (omega (arith, month_h))
    where
      y : ℕ
      y = march_year n m

      k : ℕ
      k = month_offset (march_month m) + d

      j : ℕ
      j = number_from_4800 n m d - 32075

      fit : InYear y k × (k ≤ month_offset (march_month m + 1))
      fit = day_fits n m d h h1 h2 h3 h4

      y_bound : 88 ≤ y + 1
      y_bound = ground arith

      h_is : richards_h j ≡ 5 * (k - 31) + 2
      h_is =
          omega
            (arith, day_of_year_found y k j y_bound fit.0 (omega (arith, number_from_4800_bound)))

      month_h : (richards_h j / 153 + 1 ≡ march_month m) × (richards_h j % 153 / 5 + 1 ≡ d)
      month_h = rw h_is (month_found (march_month m) d (ground arith) (ground arith) h3 fit.1)
