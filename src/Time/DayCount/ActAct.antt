-- ===== src/Time/DayCount/ActAct.antt =====
-- The year fraction of the actual/actual convention (src/time/day_count/day_count_act_act.cpp)
-- splits a period at the ends of its years.
use odin_analytics.Prelude.{
  ℕ, zero, suc, ◌+◌, ◌-◌, ◌≡◌, ◌≢◌, refl, sym, ap, ◌∙◌, subst, arith, Bool, true, false, Bool-cases,
  inl, inr, if◌then◌else◌, ok, ◌>>=◌,
}
use odin_analytics.Prelude.Int.{
  ℤ, pos, negsuc, pos_part, neg_part, ◌+ℤ◌, ◌-ℤ◌, ◌≤ℤ◌, ◌<ℤ◌, neg_ℤ, ltb_ℤ, eqb_ℤ, int_laws,
}
use odin_analytics.Prelude.Double.{numerators}
use odin_analytics.Time.Date.{
  Date, YearMonthDay, year_month_day, from_julian, gregorian, ymd, convert_to_julian, date_lt,
}
use odin_analytics.Time.Date.RoundTrip.{IsValid, ymd-convert_to_julian}
use odin_analytics.Time.Date.Successor.{next_day, step_day, convert_to_julian-next_day}
use odin_analytics.Time.Date.Months.{month_index}
use odin_analytics.Time.Date.MonthOrder.{index_of, index_of-mono}
use odin_analytics.Time.Date.Validity.{
  days_in_month-last_day, IsDate, gregorian-IsValid, from_ymd-IsValid,
}
use odin_analytics.Time.DayCount.{actual_days, act_act_years, act_act_ordered, act_act_fraction}

abbrev last_of : ℤ → YearMonthDay
last_of y = year_month_day y (pos 12) (pos 31)

abbrev first_of : ℤ → YearMonthDay
first_of y = year_month_day y (pos 1) (pos 1)

abbrev julian : YearMonthDay → ℤ
julian g = convert_to_julian g.year g.month g.day

last_of-IsValid : (y : ℤ) → negsuc 4711 ≤ℤ y → IsValid (last_of y)
last_of-IsValid y h = record {
  year_in = h;
  month_in = omega arith;
  day_in = (
    pos 31,
    days_in_month-last_day y (pos 12) (omega arith) (omega arith),
    omega arith,
    omega arith,
  );
}

next_day-last_of : (y : ℤ) → next_day (last_of y) ≡ first_of (y +ℤ pos 1)
unfolding next_day step_day
next_day-last_of y =
    ap (step_day (last_of y)) (days_in_month-last_day y (pos 12) (omega arith) (omega arith))

-- January 1st comes on the day after December 31st.
first_of-last_of :
    (y : ℤ)
    → negsuc 4711 ≤ℤ y
    → IsValid (first_of (y +ℤ pos 1))
      × (julian (first_of (y +ℤ pos 1)) ≡ julian (last_of y) +ℤ pos 1)
first_of-last_of y h =
    subst (λ g. IsValid g × (julian g ≡ julian (last_of y) +ℤ pos 1)) (next_day-last_of y)
      (convert_to_julian-next_day (last_of y) (last_of-IsValid y h))

month_mono :
    (a b : ℤ)
    → pos 38 ≤ℤ a
    → a ≤ℤ b
    → month_index (ymd a).year (ymd a).month ≤ℤ month_index (ymd b).year (ymd b).month
month_mono (pos i) (pos k) h l =
    let e : i + (k - i) ≡ k = omega arith in
    subst (λ t. index_of i ≤ℤ index_of t) e (index_of-mono i (k - i) (omega arith))
month_mono (pos i) (negsuc k) h l = absurd (omega arith)
month_mono (negsuc i) b h l = absurd (omega arith)

first_of-IsValid : (y : ℤ) → negsuc 4711 ≤ℤ y → IsValid (first_of y)
first_of-IsValid y h = record {
  year_in = h;
  month_in = omega arith;
  day_in = (
    pos 31,
    days_in_month-last_day y (pos 1) (omega arith) (omega arith),
    omega arith,
    omega arith,
  );
}

-- December 31st of an earlier year is before the date.
last_of_before :
    (y : ℤ) (t : Date)
    → negsuc 4711 ≤ℤ y
    → IsDate t
    → y <ℤ (gregorian t).year
    → date_lt (from_julian (julian (last_of y))) t ≡ true
unfolding gregorian
last_of_before y t h ht before = elim (Bool-cases (ltb_ℤ (julian (last_of y)) t.julian)) [
  | inl earlier ↦ earlier
  | inr later ↦
      let order : t.julian ≤ℤ julian (last_of y) = ground arith in
      let months =
        subst
          (λ g. month_index (ymd t.julian).year (ymd t.julian).month ≤ℤ month_index g.year g.month)
          (ymd-convert_to_julian (last_of y) (last_of-IsValid y h))
          (month_mono t.julian (julian (last_of y)) ht order) in
      absurd (
        too_late y (ymd t.julian).year (ymd t.julian).month before
          (gregorian-IsValid t ht).0.month_in.0 months)
]
  where
    too_late : (y y' m : ℤ) → y <ℤ y' → pos 1 ≤ℤ m → month_index y' m ≤ℤ month_index y (pos 12) → ⊥
    too_late y y' m p q r = omega int_laws

-- The loop counts the days from the one after `prior_date` on.
act_act_years_lem :
    (left : ℕ) (y : ℤ) (prior end_date : Date) (f : ℤ)
    → negsuc 4711 ≤ℤ y
    → IsDate end_date
    → y +ℤ pos left ≡ (gregorian end_date).year
    → (left ≡ 0 → prior.julian +ℤ pos 1 ≡ julian (first_of (gregorian end_date).year))
    → act_act_years numerators left y prior end_date f
      ≡ ok (f +ℤ (end_date.julian -ℤ prior.julian -ℤ pos 1))
unfolding act_act_years actual_days
act_act_years_lem zero y prior end_date f hy he e at =
    let year = (gregorian end_date).year in
    ap (λ r. r >>= λ first. ok (f +ℤ (end_date.julian -ℤ first.julian)))
      (from_ymd-IsValid (first_of year)
        (first_of-IsValid year (gregorian-IsValid end_date he).0.year_in))
    ∙ ap (λ t. ok (f +ℤ (end_date.julian -ℤ t))) (sym (at refl))
    ∙ ap ok (regroup f end_date.julian prior.julian)
  where
    regroup : (f e p : ℤ) → f +ℤ (e -ℤ (p +ℤ pos 1)) ≡ f +ℤ (e -ℤ p -ℤ pos 1)
    regroup f e p = omega int_laws
act_act_years_lem (suc left) y prior end_date f hy he e at =
    let last = julian (last_of y) in
    let round = λ (curr_date : Date) (b : Bool).
      act_act_years numerators left (y +ℤ pos 1) (if b then curr_date else prior) end_date
        (if b then f +ℤ (curr_date.julian -ℤ prior.julian) else f) in
    ap (λ r. r >>= λ curr_date. round curr_date (date_lt curr_date end_date))
      (from_ymd-IsValid (last_of y) (last_of-IsValid y hy))
    ∙ ap (round (from_julian last))
        (last_of_before y end_date hy he (year_before y left (gregorian end_date).year e))
    ∙ act_act_years_lem left (y +ℤ pos 1) (from_julian last) end_date (f +ℤ (last -ℤ prior.julian))
        (omega int_laws) he (next_year y left ∙ e)
        (λ none_left.
          sym (first_of-last_of y hy).1
          ∙ ap (λ t. julian (first_of t)) (last_year y left none_left ∙ e))
    ∙ ap ok (regroup f last prior.julian end_date.julian)
  where
    year_before : (y : ℤ) (left : ℕ) (z : ℤ) → y +ℤ pos (suc left) ≡ z → y <ℤ z
    year_before y left z e = subst (λ t. y <ℤ t) e (omega int_laws)

    next_year : (y : ℤ) (left : ℕ) → y +ℤ pos 1 +ℤ pos left ≡ y +ℤ pos (suc left)
    next_year y left = omega int_laws

    last_year : (y : ℤ) (left : ℕ) → left ≡ 0 → y +ℤ pos 1 ≡ y +ℤ pos (suc left)
    last_year y left e = omega int_laws

    regroup : (f l p e : ℤ) → f +ℤ (l -ℤ p) +ℤ (e -ℤ l -ℤ pos 1) ≡ f +ℤ (e -ℤ p -ℤ pos 1)
    regroup f l p e = omega int_laws

year_order :
    (y m y' m' : ℤ)
    → (pos 1 ≤ℤ m) × (m ≤ℤ pos 12)
    → (pos 1 ≤ℤ m') × (m' ≤ℤ pos 12)
    → month_index y m ≤ℤ month_index y' m'
    → eqb_ℤ y' y ≡ false
    → y <ℤ y'
year_order y m y' m' h h' le e =
    let apart : pos_part y' + neg_part y ≢ pos_part y + neg_part y' = ground arith in omega int_laws

-- The years that the loop goes through, and the regrouping of what it adds.
years_between : (y y' : ℤ) → y <ℤ y' → y +ℤ pos (pos_part (y' -ℤ y)) ≡ y'
years_between y y' h = omega int_laws

years_pos : (y y' : ℤ) → y <ℤ y' → pos_part (y' -ℤ y) ≢ 0
years_pos y y' h = omega int_laws

from_zero : (z : ℤ) → pos 0 +ℤ z ≡ z
from_zero z = omega int_laws

from_day_before : (a b : ℤ) → pos 0 +ℤ (b -ℤ (a -ℤ pos 1) -ℤ pos 1) ≡ b -ℤ a
from_day_before a b = omega int_laws

act_act_ordered_lem :
    (a b : Date)
    → IsDate a
    → IsDate b
    → date_lt b a ≡ false
    → act_act_ordered numerators a b ≡ ok (b.julian -ℤ a.julian)
unfolding act_act_ordered actual_days gregorian
act_act_ordered_lem a b ha hb order =
    elim (Bool-cases (eqb_ℤ (gregorian b).year (gregorian a).year)) [
      | inl same ↦ rw same (ap ok (from_zero (b.julian -ℤ a.julian)))
      | inr other ↦
          let va = (gregorian-IsValid a ha).0 in
          let vb = (gregorian-IsValid b hb).0 in
          let le : a.julian ≤ℤ b.julian = ground arith in
          let years =
            year_order (gregorian a).year (gregorian a).month (gregorian b).year (gregorian b).month
              va.month_in vb.month_in (month_mono a.julian b.julian ha le) other in
          rw other (
            act_act_years_lem (pos_part ((gregorian b).year -ℤ (gregorian a).year))
              (gregorian a).year (from_julian (a.julian -ℤ pos 1)) b (pos 0) va.year_in hb
              (years_between (gregorian a).year (gregorian b).year years)
              (λ none. absurd (years_pos (gregorian a).year (gregorian b).year years none))
            ∙ ap ok (from_day_before a.julian b.julian))
    ]

swap_difference : (a b : ℤ) → neg_ℤ (a -ℤ b) ≡ b -ℤ a
swap_difference a b = omega int_laws

-- Splitting a period at the ends of its years loses no day and counts none twice: with every
-- division replaced by its numerator, the actual/actual year fraction of any two dates is their
-- difference in days.
pub act_act_fraction-numerators :
    (a b : Date) → IsDate a → IsDate b → act_act_fraction numerators a b ≡ ok (actual_days a b)
unfolding act_act_fraction actual_days
act_act_fraction-numerators a b ha hb = elim (Bool-cases (date_lt b a)) [
  | inl after ↦
      let order : date_lt a b ≡ false = ground arith in
      rw (after, act_act_ordered_lem b a hb ha order) (ap ok (swap_difference a.julian b.julian))
  | inr before ↦ rw before (act_act_ordered_lem a b ha hb before)
]
