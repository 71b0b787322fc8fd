-- ===== src/Time/Date/Offset.antt =====
-- Adding positive tenors to dates (`operator+(const Tenor&)` of src/time/date.cpp).
use odin_analytics.Prelude.{
  ℕ, suc, ◌*◌, ◌+◌, ◌<◌, ◌≤◌, ◌≡◌, refl, ◌∙◌, subst, arith, ok, Bool-cases, inl, inr, ltb, ◌-◌,
}
use odin_analytics.Prelude.Int.{ℤ, pos, negsuc, ◌+ℤ◌, ◌-ℤ◌, neg_ℤ, ◌*ℤ◌, ◌≤ℤ◌, ◌<ℤ◌, int_laws}
use odin_analytics.Time.Enums.{Tenors, days, weeks, months, years}
use odin_analytics.Time.Tenor.{tenor}
use odin_analytics.Time.Date.{Date, from_julian, gregorian, ymd, add_tenor, add_days, add_weeks}
use odin_analytics.Time.Date.Months.{month_index}
use odin_analytics.Time.Date.MonthOrder.{index_of, index_of-mono}
use odin_analytics.Time.Date.Validity.{IsDate, gregorian-IsValid}
use odin_analytics.Time.Date.Landing.{add_months-IsMonthsLater, add_years-IsMonthsLater}

-- Where a date is, in the unit that a tenor counts: days, or months.
unfoldable pub position : Tenors → Date → ℤ
position days t = t.julian
position weeks t = t.julian
position months t = month_index (gregorian t).year (gregorian t).month
position years t = month_index (gregorian t).year (gregorian t).month

-- How far one unit of a tenor goes.
unfoldable pub step : Tenors → ℤ
step days = pos 1
step weeks = pos 7
step months = pos 1
step years = pos 12

pub step-order : (u : Tenors) (a b : ℕ) → a < b → step u *ℤ pos a <ℤ step u *ℤ pos b
unfolding step
step-order days a b h = omega (int_laws, h)
step-order weeks a b h = omega (int_laws, h)
step-order months a b h = omega (int_laws, h)
step-order years a b h = omega (int_laws, h)

pub step-zero : (u : Tenors) (a : ℤ) → a ≡ a +ℤ step u *ℤ pos 0
unfolding step
step-zero days a = omega int_laws
step-zero weeks a = omega int_laws
step-zero months a = omega int_laws
step-zero years a = omega int_laws

pub step_more :
    (u : Tenors) (k n : ℕ) → step u *ℤ pos (suc k * n) ≡ step u *ℤ pos (k * n) +ℤ step u *ℤ pos n
unfolding step
step_more days k n = omega int_laws
step_more weeks k n = omega int_laws
step_more months k n = omega int_laws
step_more years k n = omega int_laws

pub step_back : (u : Tenors) (a : ℤ) (n : ℕ) → 0 < n → a -ℤ step u *ℤ pos n <ℤ a
unfolding step
step_back days a n h = omega (int_laws, h)
step_back weeks a n h = omega (int_laws, h)
step_back months a n h = omega (int_laws, h)
step_back years a n h = omega (int_laws, h)

pub step_none : (u : Tenors) (a : ℤ) (n : ℕ) → a ≡ a -ℤ step u *ℤ pos (0 * n)
unfolding step
step_none days a n = omega int_laws
step_none weeks a n = omega int_laws
step_none months a n = omega int_laws
step_none years a n = omega int_laws

one_each : (a : ℤ) (n : ℕ) → a +ℤ pos n ≡ a +ℤ pos 1 *ℤ pos n
one_each a n = omega int_laws

-- Adding a tenor that is not negative to a date from -4712-01-01 on succeeds, and goes as far as the
-- tenor says: by its count of days, or of months.
pub add_tenor-position :
    (t : Date) (n : ℕ) (u : Tenors)
    → IsDate t
    → (v : Date) × (add_tenor t (tenor (pos n) u) ≡ ok v)
      × IsDate v
      × (position u v ≡ position u t +ℤ step u *ℤ pos n)
unfolding add_tenor position step add_days add_weeks
add_tenor-position t n days h =
    (from_julian (t.julian +ℤ pos n), refl, omega int_laws, omega int_laws)
add_tenor-position t n weeks h =
    (from_julian (t.julian +ℤ pos 7 *ℤ pos n), refl, omega int_laws, omega int_laws)
add_tenor-position t n months h =
    let valid = (gregorian-IsValid t h).0 in
    let (v, e, is_date, later) =
      add_months-IsMonthsLater t (pos n) h (omega (int_laws, valid.year_in, valid.month_in)) in
    (v, e, is_date, later.index ∙ one_each _ n)
add_tenor-position t n years h =
    let valid = (gregorian-IsValid t h).0 in
    let (v, e, is_date, later) =
      add_years-IsMonthsLater t (pos n) h (omega (int_laws, valid.year_in)) in
    (v, e, is_date, later.index)

-- The first position that a tenor may land on: that of -4712-01-01.
unfoldable pub first_position : Tenors → ℤ
first_position days = pos 38
first_position weeks = pos 38
first_position months = month_index (negsuc 4711) (pos 1)
first_position years = month_index (negsuc 4711) (pos 1)

back_one_each : (a : ℤ) (n : ℕ) → a +ℤ neg_ℤ (pos n) ≡ a -ℤ pos 1 *ℤ pos n
back_one_each a n = omega int_laws

back_twelve_each : (a : ℤ) (n : ℕ) → a +ℤ pos 12 *ℤ neg_ℤ (pos n) ≡ a -ℤ pos 12 *ℤ pos n
back_twelve_each a n = omega int_laws

-- Adding a tenor that is not positive succeeds where it lands on -4712-01-01 or later, and goes as
-- far back as the tenor says.
pub add_tenor-position_back :
    (t : Date) (n : ℕ) (u : Tenors)
    → IsDate t
    → first_position u ≤ℤ position u t -ℤ step u *ℤ pos n
    → (v : Date) × (add_tenor t (tenor (neg_ℤ (pos n)) u) ≡ ok v)
      × IsDate v
      × (position u v ≡ position u t -ℤ step u *ℤ pos n)
unfolding add_tenor position step add_days add_weeks first_position
add_tenor-position_back t n days h k =
    (from_julian (t.julian +ℤ neg_ℤ (pos n)), refl, omega (int_laws, k), omega int_laws)
add_tenor-position_back t n weeks h k =
    (from_julian (t.julian +ℤ pos 7 *ℤ neg_ℤ (pos n)), refl, omega (int_laws, k), omega int_laws)
add_tenor-position_back t n months h k =
    let (v, e, is_date, later) =
      add_months-IsMonthsLater t (neg_ℤ (pos n)) h (omega (int_laws, k)) in
    (v, e, is_date, later.index ∙ back_one_each _ n)
add_tenor-position_back t n years h k =
    let valid = (gregorian-IsValid t h).0 in
    let (v, e, is_date, later) =
      add_years-IsMonthsLater t (neg_ℤ (pos n)) h (omega (int_laws, k, valid.month_in)) in
    (v, e, is_date, later.index ∙ back_twelve_each _ n)

index_of-order : (i j : ℕ) → 38 ≤ j → index_of i <ℤ index_of j → i < j
index_of-order i j h lt = elim (Bool-cases (ltb i j)) [
  | inl before ↦ ground arith
  | inr after ↦
      let le : j ≤ i = ground arith in
      let e : j + (i - j) ≡ i = omega arith in
      absurd (
        let mono = subst (λ k. index_of j ≤ℤ index_of k) e (index_of-mono j (i - j) h) in
        omega arith)
]

index-order :
    (i j : ℤ)
    → pos 38 ≤ℤ i
    → pos 38 ≤ℤ j
    → month_index (ymd i).year (ymd i).month <ℤ month_index (ymd j).year (ymd j).month
    → i <ℤ j
index-order (pos i) (pos j) h k lt = let e = index_of-order i j (omega arith) lt in omega arith
index-order (negsuc i) j h k lt = absurd (omega arith)
index-order (pos i) (negsuc j) h k lt = absurd (omega arith)

-- A later position is a later day.
pub position-order :
    (u : Tenors) (t v : Date)
    → IsDate t
    → IsDate v
    → position u t <ℤ position u v
    → t.julian <ℤ v.julian
unfolding position gregorian
position-order days t v h k lt = lt
position-order weeks t v h k lt = lt
position-order months t v h k lt = index-order t.julian v.julian h k lt
position-order years t v h k lt = index-order t.julian v.julian h k lt
