-- ===== src/Time/Date/Landing.antt =====
-- `AddMonths` and `AddYears` (src/time/date.cpp): where they land.
use odin_analytics.Prelude.{
  ◌≡◌, refl, sym, ap, ◌∙◌, inl, inr, arith, false, Bool-cases, subst, if◌then◌else◌, ◌>>=◌, ◌&&◌,
  not, ok,
}
use odin_analytics.Prelude.Int.{ℤ, pos, negsuc, ◌+ℤ◌, ◌*ℤ◌, ◌≤ℤ◌, ltb_ℤ, eqb_ℤ, int_laws}
use odin_analytics.Time.Date.{
  YearMonthDay, year_month_day, days_in_month, ymd, shift_month, from_ymd, Date, add_months,
  add_years, gregorian, is_leap_year,
}
use odin_analytics.Time.Date.RoundTrip.{IsValid}
use odin_analytics.Time.Date.Months.{month_index, shift_month_lem}
use odin_analytics.Time.Date.Validity.{
  last_day, min_ℤ, days_in_month-last_day, IsValid-last_day, IsDate, gregorian-IsValid,
  gregorian-from_ymd, clamp-IsValid,
}

-- `h` is the date `n` months after `g`: the day is kept, or is the last one of a shorter month.
pub record IsMonthsLater (g : YearMonthDay) (n : ℤ) (h : YearMonthDay) : Type 0 where
  pub index : month_index h.year h.month ≡ month_index g.year g.month +ℤ n
  pub valid : IsValid h
  pub day_is : h.day ≡ min_ℤ (last_day h.year h.month) g.day

-- `AddMonths` succeeds on every date whenever the month it is to land in is not before January of
-- -4712, and returns the date that many months later (earlier, if `n` is negative), from
-- -4712-01-01 on.
pub add_months-IsMonthsLater :
    (t : Date) (n : ℤ)
    → IsDate t
    → month_index (negsuc 4711) (pos 1) ≤ℤ month_index (gregorian t).year (gregorian t).month +ℤ n
    → (u : Date) × (add_months t n ≡ ok u) × IsDate u × IsMonthsLater (gregorian t) n (gregorian u)
unfolding add_months gregorian
add_months-IsMonthsLater t n h k =
    let g = ymd t.julian in
    let target = shift_month g.year g.month n in
    let moved = shift_month_lem g.year g.month n in
    let valid = gregorian-IsValid t h in
    let year_in : negsuc 4711 ≤ℤ target.0 = year_from_index target.0 target.1 _ moved.0 moved.2 k in
    let clamped =
      clamp-IsValid target.0 target.1 g.day year_in moved.1 moved.2
        (IsValid-last_day g valid.0).0 in
    let last = last_day target.0 target.1 in
    let (u, made, is_date, read) =
      gregorian-from_ymd (year_month_day target.0 target.1 (min_ℤ last g.day)) clamped in
    (
      u,
      ap (λ r. r >>= λ l. from_ymd target.0 target.1 (min_ℤ l g.day))
            (days_in_month-last_day target.0 target.1 moved.1 moved.2)
          ∙ made,
      is_date,
      subst (IsMonthsLater g n) (sym read)
          (record { index = moved.0; valid = clamped; day_is = refl }),
    )
  where
    year_from_index :
        (y m i : ℤ)
        → month_index y m ≡ i
        → m ≤ℤ pos 12
        → month_index (negsuc 4711) (pos 1) ≤ℤ i
        → negsuc 4711 ≤ℤ y
    year_from_index y m i e h k =
        let k' = subst (λ z. month_index (negsuc 4711) (pos 1) ≤ℤ z) (sym e) k in omega int_laws

keep_day :
    (y y' m d : ℤ)
    → d ≤ℤ last_day y m
    → (not (is_leap_year y') && eqb_ℤ m (pos 2)) ≡ false
    → min_ℤ (last_day y' m) d ≡ d
keep_day y y' m d h e = ground arith

-- The special case of `AddYears` is the clamping of `AddMonths`.
years_body :
    (y y' m d : ℤ)
    → pos 1 ≤ℤ m
    → m ≤ℤ pos 12
    → d ≤ℤ last_day y m
    → (if not (is_leap_year y') && eqb_ℤ m (pos 2)
        then (days_in_month y' m >>= λ l. from_ymd y' m (if ltb_ℤ l d then l else d))
        else from_ymd y' m d)
      ≡ from_ymd y' m (min_ℤ (last_day y' m) d)
years_body y y' m d h h' k = elim (Bool-cases (not (is_leap_year y') && eqb_ℤ m (pos 2))) [
  | inl february ↦
      rw february
        (ap (λ r. r >>= λ l. from_ymd y' m (min_ℤ l d)) (days_in_month-last_day y' m h h'))
  | inr other ↦ rw other (ap (from_ymd y' m) (sym (keep_day y y' m d k other)))
]

-- `AddYears` succeeds on every date whenever it lands in -4712 or later: `n` years on, in the same
-- month, on the same day but for February 29th, which becomes the 28th in a common year.
pub add_years-IsMonthsLater :
    (t : Date) (n : ℤ)
    → IsDate t
    → negsuc 4711 ≤ℤ (gregorian t).year +ℤ n
    → (u : Date) × (add_years t n ≡ ok u)
      × IsDate u
      × IsMonthsLater (gregorian t) (pos 12 *ℤ n) (gregorian u)
unfolding add_years gregorian
add_years-IsMonthsLater t n h k =
    let g = ymd t.julian in
    let valid = gregorian-IsValid t h in
    let month_in = valid.0.month_in in
    let year = g.year +ℤ n in
    let day_in = IsValid-last_day g valid.0 in
    let clamped = clamp-IsValid year g.month g.day k month_in.0 month_in.1 day_in.0 in
    let (u, made, is_date, read) =
      gregorian-from_ymd (year_month_day year g.month (min_ℤ (last_day year g.month) g.day))
        clamped in
    (
      u,
      years_body g.year year g.month g.day month_in.0 month_in.1 day_in.1 ∙ made,
      is_date,
      subst (IsMonthsLater g (pos 12 *ℤ n)) (sym read)
          (record { index = later_index g.year n g.month; valid = clamped; day_is = refl }),
    )
  where
    later_index : (y n m : ℤ) → month_index (y +ℤ n) m ≡ month_index y m +ℤ pos 12 *ℤ n
    later_index y n m = omega int_laws
