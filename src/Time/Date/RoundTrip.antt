-- ===== src/Time/Date/RoundTrip.antt =====
-- `ConvertToJulian` and `YMD` (src/time/date.cpp) on the valid dates from -4712-01-01 on.
use odin_analytics.Prelude.{ℕ, ◌+◌, ◌-◌, ◌≤◌, ◌≡◌, sym, ap, ◌∙◌, subst, arith, ok}
use odin_analytics.Prelude.Int.{ℤ, pos, negsuc, ◌-ℤ◌, ◌≤ℤ◌, int_laws}
use odin_analytics.Time.Date.{YearMonthDay, year_month_day, days_in_month, convert_to_julian, ymd}
use odin_analytics.Time.Date.Gregorian.{
  number_from_4800_bound, length_from_4800, number_from_4800, days_in_month_pos,
  convert_to_julian_at, ymd-number_from_4800,
}

-- A date of the proleptic Gregorian calendar, from the first year that has Julian day numbers
-- throughout.
pub record IsValid (g : YearMonthDay) : Type 0 where
  pub year_in : negsuc 4711 ≤ℤ g.year
  pub month_in : (pos 1 ≤ℤ g.month) × (g.month ≤ℤ pos 12)
  pub day_in :
      (last : ℤ) × (days_in_month g.year g.month ≡ ok last) × (pos 1 ≤ℤ g.day) × (g.day ≤ℤ last)

-- The same over natural numbers, with the year counted from -4800.
pub record IsValidFrom4800 (n m d : ℕ) : Type 0 where
  pub year_in : 88 ≤ n
  pub month_in : (1 ≤ m) × (m ≤ 12)
  pub day_in : (1 ≤ d) × (d ≤ length_from_4800 n m)

abbrev pub date_from_4800 : ℕ → ℕ → ℕ → YearMonthDay
date_from_4800 n m d = year_month_day (pos n -ℤ pos 4800) (pos m) (pos d)

year-split : (y : ℤ) → negsuc 4711 ≤ℤ y → (n : ℕ) × (y ≡ pos n -ℤ pos 4800) × (88 ≤ n)
unfolding ◌-ℤ◌
year-split (pos n) h = (n + 4800, ground arith, omega arith)
year-split (negsuc n) h = (4799 - n, ground arith, omega arith)

parts_lem :
    (y m d : ℤ)
    → IsValid (year_month_day y m d)
    → (k i j : ℕ) × (year_month_day y m d ≡ date_from_4800 k i j) × IsValidFrom4800 k i j
parts_lem y (pos m) (pos d) v =
    let (n, e, h) = year-split y v.year_in in
    (
      n,
      m,
      d,
      ap (λ t. year_month_day t (pos m) (pos d)) e,
      record {
        year_in = h;
        month_in = omega (arith, v.month_in);
        day_in = ground (arith, e, days_in_month_pos n m, v.month_in, v.day_in);
      },
    )
parts_lem y (pos m) (negsuc d) v = absurd (omega (arith, v.day_in.2))
parts_lem y (negsuc m) d v = absurd (omega (arith, v.month_in))

-- A valid date, as numbers.
pub IsValid-parts :
    (g : YearMonthDay)
    → IsValid g
    → (n m d : ℕ) × (g ≡ date_from_4800 n m d) × IsValidFrom4800 n m d
IsValid-parts g v = parts_lem g.year g.month g.day v

pub IsValid-date_from_4800 : (n m d : ℕ) → IsValidFrom4800 n m d → IsValid (date_from_4800 n m d)
IsValid-date_from_4800 n m d v = record {
  year_in = omega (int_laws, v.year_in);
  month_in = omega (arith, v.month_in);
  day_in = (
    pos (length_from_4800 n m),
    days_in_month_pos n m v.month_in.0 v.month_in.1,
    omega (arith, v.day_in),
    omega (arith, v.day_in),
  );
}

abbrev pub julian_of : YearMonthDay → ℤ
julian_of g = convert_to_julian g.year g.month g.day

-- The day number of a valid date, as a natural number.
pub julian_of-at :
    (n m d : ℕ)
    → IsValidFrom4800 n m d
    → julian_of (date_from_4800 n m d) ≡ pos (number_from_4800 n m d - 32075)
julian_of-at n m d v =
    convert_to_julian_at n m d v.year_in v.month_in.0 v.month_in.1 v.day_in.0 v.day_in.1

pub IsValid-bound : (g : YearMonthDay) → IsValid g → pos 38 ≤ℤ julian_of g
IsValid-bound g v =
    let (n, m, d, e, w) = IsValid-parts g v in
    let bound =
      number_from_4800_bound n m d w.year_in w.month_in.0 w.month_in.1 w.day_in.0 w.day_in.1 in
    let small : 38 ≤ number_from_4800 n m d - 32075 = omega (arith, bound) in
    subst (λ j. pos 38 ≤ℤ j) (sym (ap julian_of e ∙ julian_of-at n m d w)) (omega (int_laws, small))

-- Every valid date from -4712-01-01 on is recovered from its Julian day number: `YMD` after
-- `ConvertToJulian` is the identity.
pub ymd-convert_to_julian :
    (g : YearMonthDay) → IsValid g → ymd (convert_to_julian g.year g.month g.day) ≡ g
ymd-convert_to_julian g v =
    let (n, m, d, e, w) = IsValid-parts g v in
    ap (λ t. ymd (julian_of t)) e
    ∙ ap ymd (julian_of-at n m d w)
    ∙ ymd-number_from_4800 n m d w.year_in w.month_in.0 w.month_in.1 w.day_in.0 w.day_in.1
    ∙ sym e

-- So different valid dates have different Julian day numbers.
pub julian_of-injective :
    (g h : YearMonthDay) → IsValid g → IsValid h → julian_of g ≡ julian_of h → g ≡ h
julian_of-injective g h v w e =
    sym (ymd-convert_to_julian g v) ∙ ap ymd e ∙ ymd-convert_to_julian h w
