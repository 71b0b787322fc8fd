-- ===== src/Time/Date/MonthOrder.antt =====
-- The months that Julian day numbers fall in follow one another.
use odin_analytics.Prelude.{
  ℕ, zero, suc, ◌+◌, ◌≤◌, ◌≡◌, sym, ap, ◌∙◌, subst, arith, Bool-cases, inl, inr, ok,
}
use odin_analytics.Prelude.Int.{ℤ, pos, ◌+ℤ◌, ◌≤ℤ◌, ltb_ℤ, eqb_ℤ, eqb_ℤ→≡, int_laws}
use odin_analytics.Time.Date.{YearMonthDay, year_month_day, ymd}
use odin_analytics.Time.Date.Gregorian.{+ℤ_pos}
use odin_analytics.Time.Date.Months.{month_index}
use odin_analytics.Time.Date.RoundTrip.{IsValid, ymd-convert_to_julian}
use odin_analytics.Time.Date.Successor.{
  next_day, step_day, convert_to_julian-next_day, convert_to_julian-ymd,
}
use odin_analytics.Time.Date.Validity.{last_day, days_in_month-last_day}

-- The date of the following day number is the following day.
pub ymd-suc : (j : ℕ) → 38 ≤ j → ymd (pos (j + 1)) ≡ next_day (ymd (pos j))
ymd-suc j h =
    let (v, e) = convert_to_julian-ymd j h in
    let (w, s) = convert_to_julian-next_day (ymd (pos j)) v in
    ap ymd (sym (s ∙ ap (λ t. t +ℤ pos 1) e ∙ +ℤ_pos j 1)) ∙ ymd-convert_to_julian _ w

step_day-index :
    (y m d l : ℤ)
    → let h = step_day (year_month_day y m d) (ok l) in
      month_index y m ≤ℤ month_index h.year h.month
unfolding step_day
step_day-index y m d l = elim (Bool-cases (ltb_ℤ d l)) [
  | inl inside ↦ rw inside (omega int_laws)
  | inr outside ↦ rw outside (elim (Bool-cases (eqb_ℤ m (pos 12))) [
    | inl december ↦ rw december (let e = eqb_ℤ→≡ m (pos 12) december in rw e (omega int_laws))
    | inr other ↦ rw other (omega int_laws)
  ])
]

next_day-index :
    (g : YearMonthDay)
    → IsValid g
    → month_index g.year g.month ≤ℤ month_index (next_day g).year (next_day g).month
unfolding next_day
next_day-index g v =
    subst (λ h. month_index g.year g.month ≤ℤ month_index h.year h.month)
      (sym (ap (step_day g) (days_in_month-last_day g.year g.month v.month_in.0 v.month_in.1)))
      (step_day-index g.year g.month g.day (last_day g.year g.month))

abbrev pub index_of : ℕ → ℤ
index_of j = month_index (ymd (pos j)).year (ymd (pos j)).month

-- A later day never falls in an earlier month.
pub index_of-mono : (i k : ℕ) → 38 ≤ i → index_of i ≤ℤ index_of (i + k)
index_of-mono i zero h =
    let e : i ≡ i + 0 = omega arith in subst (λ t. index_of i ≤ℤ index_of t) e (omega arith)
index_of-mono i (suc k) h =
    let so_far = index_of-mono i k h in
    let step =
      subst (λ g. index_of (i + k) ≤ℤ month_index g.year g.month)
        (sym (ymd-suc (i + k) (omega arith)))
        (next_day-index (ymd (pos (i + k))) (convert_to_julian-ymd (i + k) (omega arith)).0) in
    let e : i + k + 1 ≡ i + suc k = omega arith in
    subst (λ t. index_of i ≤ℤ index_of t) e
      (≤ℤ_trans (index_of i) (index_of (i + k)) (index_of (i + k + 1)) so_far step)
  where
    ≤ℤ_trans : (a b c : ℤ) → a ≤ℤ b → b ≤ℤ c → a ≤ℤ c
    ≤ℤ_trans a b c p q = omega arith
