-- ===== src/Time/DateAdjust/SameMonth.antt =====
-- What `AdjustModFollowing` (src/time/date_adjust/date_adjust_modified_following.cpp) returns.
use mathlib.Core.Bool.{false≢true}
use native.Mathlib.Decide.{dec_lt}
use odin_analytics.Prelude.{
  ℕ, ◌-◌, ◌≤◌, ◌<◌, ◌≡◌, ◌≢◌, refl, sym, ap, ◌∙◌, subst, arith, true, false, Bool-cases, inl, inr,
  ok, ◌>>=◌,
}
use odin_analytics.Prelude.Int.{ℤ, pos, ◌≤ℤ◌, eqb_ℤ, eqb_ℤ→≡, int_laws}
use odin_analytics.Time.Date.{from_julian, gregorian, ymd}
use odin_analytics.Time.Date.Successor.{convert_to_julian-ymd}
use odin_analytics.Time.Date.Months.{month_index}
use odin_analytics.Time.Date.MonthOrder.{index_of, index_of-mono}
use odin_analytics.Time.Calendar.{
  Calendar, search_fuel, get_next_business_day, get_prev_business_day,
}
use odin_analytics.Time.Calendar.Holidays.{HasWeek, closed}
use odin_analytics.Time.Calendar.OpenDays.{HasOpenDay}
use odin_analytics.Time.Calendar.Nearest.{
  get_next_business_day-IsNext, get_prev_business_day-IsPrev,
}
use odin_analytics.Time.DateAdjust.{adjust_mod_following, keep_month}
use odin_analytics.Time.DateAdjust.Rules.{
  when_holiday, IsFollowing, IsPreceding, same_day-IsFollowing, IsNext-IsFollowing,
  IsPrev-IsPreceding,
}

abbrev pub month_of : ℕ → ℤ
month_of j = (ymd (pos j)).month

-- The first business day from `b` on if it is in the month of `b`, and otherwise the last one
-- before `b`.
pub data IsModFollowing (c : Calendar) (b d : ℕ) : Type 0 where
  forward : IsFollowing c b d → month_of d ≡ month_of b → IsModFollowing c b d
  backward :
      (n : ℕ)
      → IsFollowing c b n
      → month_of n ≢ month_of b
      → IsPreceding c b d
      → IsModFollowing c b d

eqb_ℤ-false : (a b : ℤ) → eqb_ℤ a b ≡ false → b ≢ a
eqb_ℤ-false a b h e = ground (arith, e)

kept :
    (c : Calendar) (b n : ℕ)
    → eqb_ℤ (month_of b) (month_of n) ≡ true
    → keep_month c (from_julian (pos b)) (from_julian (pos n)) ≡ ok (from_julian (pos n))
unfolding keep_month gregorian
kept c b n e = rw e

left :
    (c : Calendar) (b n : ℕ)
    → eqb_ℤ (month_of b) (month_of n) ≡ false
    → keep_month c (from_julian (pos b)) (from_julian (pos n))
      ≡ get_prev_business_day c (from_julian (pos b))
unfolding keep_month gregorian
left c b n e = rw e

module _ (c : Calendar) (week : HasWeek c) where
  -- On a calendar with an open weekday, from a day that is far enough from day 0, the modified
  -- following rule ends and returns the following business day, or the preceding one where the
  -- following one is in another month.
  pub adjust_mod_following-IsModFollowing :
      (b : ℕ)
      → HasOpenDay c
      → search_fuel c ≤ b
      → (d : ℕ) × (adjust_mod_following (from_julian (pos b)) c ≡ ok (from_julian (pos d)))
        × IsModFollowing c b d
  unfolding adjust_mod_following
  adjust_mod_following-IsModFollowing b o h = elim (Bool-cases (closed c b)) [
    | inl holiday ↦
        let (n, found, next, near) = get_next_business_day-IsNext c week b o in
        let (p, found', prev, near') = get_prev_business_day-IsPrev c week b o h in
        let start =
          when_holiday c week b true
            (get_next_business_day c (from_julian (pos b)) >>= keep_month c (from_julian (pos b)))
            holiday
          ∙ ap (λ r. r >>= keep_month c (from_julian (pos b))) found in
        elim (Bool-cases (eqb_ℤ (month_of b) (month_of n))) [
          | inl same ↦ (
            n,
            start ∙ kept c b n same,
            forward (IsNext-IsFollowing c b n holiday next) (sym (eqb_ℤ→≡ _ _ same)),
          )
          | inr other ↦ (
            p,
            start ∙ left c b n other ∙ found',
            backward n (IsNext-IsFollowing c b n holiday next) (eqb_ℤ-false _ _ other)
                (IsPrev-IsPreceding c b p holiday prev),
          )
        ]
    | inr business ↦ (
      b,
      when_holiday c week b false _ business,
      forward (same_day-IsFollowing c b business) refl,
    )
  ]

month_from_index :
    (y m y' m' : ℤ)
    → (pos 1 ≤ℤ m) × (m ≤ℤ pos 12)
    → (pos 1 ≤ℤ m') × (m' ≤ℤ pos 12)
    → month_index y m ≡ month_index y' m'
    → m ≡ m'
month_from_index y m y' m' h h' e =
    let le : month_index y m ≤ℤ month_index y' m' =
      subst (λ t. month_index y m ≤ℤ t) e (omega arith) in
    let ge : month_index y' m' ≤ℤ month_index y m =
      subst (λ t. t ≤ℤ month_index y m) e (omega arith) in
    omega int_laws

-- Days between two days of one month are in that month.
month_between :
    (a x b : ℕ)
    → 38 ≤ a
    → a ≤ x
    → x ≤ b
    → index_of a ≡ index_of b
    → (month_of x ≡ month_of a) × (month_of x ≡ month_of b)
month_between a x b h l u e =
    let low : index_of a ≤ℤ index_of x =
      subst (λ t. index_of a ≤ℤ index_of t) (omega arith) (index_of-mono a (x - a) h) in
    let high : index_of x ≤ℤ index_of b =
      subst (λ t. index_of x ≤ℤ index_of t) (omega arith) (index_of-mono x (b - x) (omega arith)) in
    let at_a = antisym (index_of x) (index_of a) (subst (λ t. index_of x ≤ℤ t) (sym e) high) low in
    (same x a (omega arith) h at_a, same x b (omega arith) (omega arith) (at_a ∙ e))
  where
    antisym : (p q : ℤ) → p ≤ℤ q → q ≤ℤ p → p ≡ q
    antisym p q h h' = omega int_laws

    same : (p q : ℕ) → 38 ≤ p → 38 ≤ q → index_of p ≡ index_of q → month_of p ≡ month_of q
    same p q h h' e =
        month_from_index (ymd (pos p)).year (month_of p) (ymd (pos q)).year (month_of q)
          (convert_to_julian-ymd p h).0.month_in (convert_to_julian-ymd q h').0.month_in e

stays :
    (c : Calendar) (b d k : ℕ)
    → 38 ≤ b
    → 38 ≤ k
    → closed c k ≡ false
    → index_of k ≡ index_of b
    → IsModFollowing c b d
    → (closed c d ≡ false) × (month_of d ≡ month_of b)
stays c b d k hb hk free e (forward f same) = (f.business, same)
stays c b d k hb hk free e (backward n f other p) = (
  p.business,
  elim (dec_lt k b) [
    | yes before ↦ (month_between k d b hk (reached c k d b p free before) p.not_after e).1
    | no after ↦ absurd (
        other
          (month_between b n k hb f.not_before (found c k n b f free (omega (arith, after)))
            (sym e)).0)
  ],
)
  where
    reached : (c : Calendar) (k d b : ℕ) → IsPreceding c b d → closed c k ≡ false → k < b → k ≤ d
    reached c k d b p free h = elim (dec_lt d k) [
      | yes past ↦ absurd (false≢true (sym free ∙ p.between k past (omega arith)))
      | no short ↦ omega (arith, short)
    ]

    found : (c : Calendar) (k n b : ℕ) → IsFollowing c b n → closed c k ≡ false → b ≤ k → n ≤ k
    found c k n b f free h = elim (dec_lt k n) [
      | yes past ↦ absurd (false≢true (sym free ∙ f.between k h past))
      | no short ↦ omega (arith, short)
    ]

-- The modified following rule stays in the month of the date whenever that month has a business
-- day `k`, and returns a business day.
pub adjust_mod_following-month :
    (c : Calendar) (b k : ℕ)
    → HasWeek c
    → HasOpenDay c
    → search_fuel c ≤ b
    → 38 ≤ b
    → 38 ≤ k
    → closed c k ≡ false
    → index_of k ≡ index_of b
    → (d : ℕ) × (adjust_mod_following (from_julian (pos b)) c ≡ ok (from_julian (pos d)))
      × (closed c d ≡ false)
      × (month_of d ≡ month_of b)
adjust_mod_following-month c b k week o h hb hk free e =
    let (d, found, is) = adjust_mod_following-IsModFollowing c week b o h in
    let (business, same) = stays c b d k hb hk free e is in (d, found, business, same)
