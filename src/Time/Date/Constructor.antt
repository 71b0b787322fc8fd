-- ===== src/Time/Date/Constructor.antt =====
-- What the constructor `Date(int, int, int)` (src/time/date.cpp) accepts.
use odin_analytics.Prelude.{
  ℕ, ◌+◌, ◌≡◌, ◌≢◌, ◌↔◌, sym, ap, ◌∙◌, arith, true, false, ◌||◌, Bool-cases, inl, inr,
  if◌then◌else◌, Result, ok, err, Error, ◌>>=◌, month_range, invalid_day,
}
use odin_analytics.Prelude.Int.{ℤ, pos, negsuc, ◌+ℤ◌, ◌-ℤ◌, ◌≤ℤ◌, ltb_ℤ, eqb_ℤ, int_laws}
use odin_analytics.Time.Date.{
  Date, from_julian, days_in_month, convert_to_julian, from_ymd, minus_int,
}
use odin_analytics.Time.Date.Validity.{last_day, last_day_bound, days_in_month-last_day}

month_out :
    (y m : ℤ) → (ltb_ℤ m (pos 1) || ltb_ℤ (pos 12) m) ≡ true → days_in_month y m ≡ err month_range
unfolding days_in_month
month_out y m h = rw h

-- The tests of the constructor, given the length of the month and the date to return.
tests : Result ℤ → ℤ → Date → Result Date
tests r d made =
    if eqb_ℤ d (pos 0)
    then err invalid_day
    else (r >>= λ last. if ltb_ℤ last d then err invalid_day else ok made)

tests_ok :
    (l d : ℤ) (made t : Date) → (tests (ok l) d made ≡ ok t) ↔ ((d ≢ pos 0) × (d ≤ℤ l) × (t ≡ made))
unfolding tests
tests_ok l d made t = ground arith

tests_err : (e : Error) (d : ℤ) (made t : Date) → tests (err e) d made ≡ ok t → ⊥
unfolding tests
tests_err e d made t h = ground arith

from_ymd-tests :
    (y m d : ℤ) (r : Result ℤ)
    → days_in_month y m ≡ r
    → from_ymd y m d ≡ tests r d (from_julian (convert_to_julian y m d))
unfolding from_ymd tests
from_ymd-tests y m d r e = ap (λ r. tests r d (from_julian (convert_to_julian y m d))) e

in_range : (m : ℤ) → (ltb_ℤ m (pos 1) || ltb_ℤ (pos 12) m) ≡ false → (pos 1 ≤ℤ m) × (m ≤ℤ pos 12)
in_range m h = ground arith

out_of_months :
    (m : ℤ) → (ltb_ℤ m (pos 1) || ltb_ℤ (pos 12) m) ≡ true → pos 1 ≤ℤ m → m ≤ℤ pos 12 → ⊥
out_of_months m h a b = ground arith

-- The constructor accepts exactly the months 1 to 12 with a day that is not zero and at most the
-- last of the month, and keeps the Julian day number.
pub from_ymd-eq-ok :
    (y m d : ℤ) (t : Date)
    → (from_ymd y m d ≡ ok t) ↔ (
        (pos 1 ≤ℤ m)
        × (m ≤ℤ pos 12)
        × (d ≢ pos 0)
        × (d ≤ℤ last_day y m)
        × (t ≡ from_julian (convert_to_julian y m d)))
from_ymd-eq-ok y m d t = elim (Bool-cases (ltb_ℤ m (pos 1) || ltb_ℤ (pos 12) m)) [
  | inl out ↦
      let e = from_ymd-tests y m d (err month_range) (month_out y m out) in
      (
        λ h. absurd (tests_err month_range d _ t (sym e ∙ h)),
        λ (a, b, _, _, _). absurd (out_of_months m out a b),
      )
  | inr inside ↦
      let (a, b) = in_range m inside in
      let e = from_ymd-tests y m d (ok (last_day y m)) (days_in_month-last_day y m a b) in
      let made = tests_ok (last_day y m) d (from_julian (convert_to_julian y m d)) t in
      (
        λ h. let (p, q, r) = made.0 (sym e ∙ h) in (a, b, p, q, r),
        λ (_, _, p, q, r). e ∙ made.1 (p, q, r),
      )
]

-- The day enters the conversion by addition.
convert_to_julian_day :
    (y m d : ℤ) → convert_to_julian y m d ≡ convert_to_julian y m (pos 1) +ℤ (d -ℤ pos 1)
unfolding convert_to_julian
convert_to_julian_day y m d = omega int_laws

backwards : (j : ℤ) (n : ℕ) → j +ℤ (negsuc n -ℤ pos 1) ≡ j -ℤ pos (n + 2)
backwards j n = omega int_laws

-- A negative day is never refused: it counts back from the first of the month, past the month
-- before.
pub from_ymd_negative_day :
    (y m : ℤ) (n : ℕ)
    → pos 1 ≤ℤ m
    → m ≤ℤ pos 12
    → from_ymd y m (negsuc n)
      ≡ ok (minus_int (from_julian (convert_to_julian y m (pos 1))) (pos (n + 2)))
unfolding minus_int
from_ymd_negative_day y m n h h' =
    let same = backwards (convert_to_julian y m (pos 1)) n in
    (from_ymd-eq-ok y m (negsuc n) _).1 (
      h,
      h',
      cc,
      below (last_day y m) (last_day_bound y m),
      ap from_julian (sym (convert_to_julian_day y m (negsuc n) ∙ same)),
    )
  where
    below : (l : ℤ) → pos 28 ≤ℤ l → negsuc n ≤ℤ l
    below l b = omega arith
