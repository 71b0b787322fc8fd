-- ===== src/Time/DateAdjust/Rules.antt =====
-- What `AdjustFollowing` and `AdjustPreceding` (src/time/date_adjust) return.
use native.Mathlib.Decide.{dec_lt}
use odin_analytics.Prelude.{
  ℕ, ◌≤◌, ◌<◌, ◌≡◌, ap, ◌∙◌, subst, arith, Bool, true, false, Bool-cases, inl, inr, if◌then◌else◌,
  Result, ok, ◌>>=◌,
}
use odin_analytics.Prelude.Int.{pos}
use odin_analytics.Time.Date.{Date, from_julian}
use odin_analytics.Time.Calendar.{Calendar, is_holiday, search_fuel}
use odin_analytics.Time.Calendar.Holidays.{HasWeek, closed, is_holiday-closed}
use odin_analytics.Time.Calendar.OpenDays.{HasOpenDay, IsNext, IsPrev}
use odin_analytics.Time.Calendar.Nearest.{
  get_next_business_day-IsNext, get_prev_business_day-IsPrev,
}
use odin_analytics.Time.DateAdjust.{adjust_following, adjust_preceding}

-- The first business day from `b` on, and the last one up to `b`.
pub record IsFollowing (c : Calendar) (b d : ℕ) : Type 0 where
  pub not_before : b ≤ d
  pub business : closed c d ≡ false
  pub between : (i : ℕ) → b ≤ i → i < d → closed c i ≡ true

pub record IsPreceding (c : Calendar) (b d : ℕ) : Type 0 where
  pub not_after : d ≤ b
  pub business : closed c d ≡ false
  pub between : (i : ℕ) → d < i → i ≤ b → closed c i ≡ true

pub same_day-IsFollowing : (c : Calendar) (b : ℕ) → closed c b ≡ false → IsFollowing c b b
same_day-IsFollowing c b e = record {
  not_before = omega arith;
  business = e;
  between = λ i l h. absurd (omega arith);
}

same_day-IsPreceding : (c : Calendar) (b : ℕ) → closed c b ≡ false → IsPreceding c b b
same_day-IsPreceding c b e = record {
  not_after = omega arith;
  business = e;
  between = λ i l h. absurd (omega arith);
}

pub IsNext-IsFollowing :
    (c : Calendar) (b d : ℕ) → closed c b ≡ true → IsNext c b d → IsFollowing c b d
IsNext-IsFollowing c b d e n = record {
  not_before = omega (arith, n.later);
  business = n.business;
  between = λ i l h. elim (dec_lt b i) [
    | yes after ↦ n.between i after h
    | no here ↦ subst (λ t. closed c t ≡ true) (omega (arith, here)) e
  ];
}

pub IsPrev-IsPreceding :
    (c : Calendar) (b d : ℕ) → closed c b ≡ true → IsPrev c b d → IsPreceding c b d
IsPrev-IsPreceding c b d e n = record {
  not_after = omega (arith, n.earlier);
  business = n.business;
  between = λ i l h. elim (dec_lt i b) [
    | yes before ↦ n.between i l before
    | no here ↦ subst (λ t. closed c t ≡ true) (omega (arith, here)) e
  ];
}

module _ (c : Calendar) (week : HasWeek c) where
  -- All three rules test the date first.
  pub when_holiday :
      (b : ℕ) (t : Bool) (moved : Result Date)
      → closed c b ≡ t
      → (is_holiday c (pos b) >>= λ holiday. if holiday then moved else ok (from_julian (pos b)))
        ≡ (if t then moved else ok (from_julian (pos b)))
  when_holiday b t moved e =
      ap (λ r. r >>= λ holiday. if holiday then moved else ok (from_julian (pos b)))
        (is_holiday-closed c b week ∙ ap ok e)

  -- The following rule returns the first business day from the date on.
  pub adjust_following-IsFollowing :
      (b : ℕ)
      → HasOpenDay c
      → (d : ℕ) × (adjust_following (from_julian (pos b)) c ≡ ok (from_julian (pos d)))
        × IsFollowing c b d
  unfolding adjust_following
  adjust_following-IsFollowing b o = elim (Bool-cases (closed c b)) [
    | inl holiday ↦
        let (d, found, next, near) = get_next_business_day-IsNext c week b o in
        (d, when_holiday b true _ holiday ∙ found, IsNext-IsFollowing c b d holiday next)
    | inr business ↦ (b, when_holiday b false _ business, same_day-IsFollowing c b business)
  ]

  -- The preceding rule returns the last business day up to the date, if day 0 is far enough away.
  pub adjust_preceding-IsPreceding :
      (b : ℕ)
      → HasOpenDay c
      → search_fuel c ≤ b
      → (d : ℕ) × (adjust_preceding (from_julian (pos b)) c ≡ ok (from_julian (pos d)))
        × IsPreceding c b d
  unfolding adjust_preceding
  adjust_preceding-IsPreceding b o h = elim (Bool-cases (closed c b)) [
    | inl holiday ↦
        let (d, found, prev, near) = get_prev_business_day-IsPrev c week b o h in
        (d, when_holiday b true _ holiday ∙ found, IsPrev-IsPreceding c b d holiday prev)
    | inr business ↦ (b, when_holiday b false _ business, same_day-IsPreceding c b business)
  ]
