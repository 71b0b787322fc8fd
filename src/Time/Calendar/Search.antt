-- ===== src/Time/Calendar/Search.antt =====
-- The loops of `GetNextBusinessDay` and `GetPrevBusinessDay` (src/time/calendar.cpp).
use odin_analytics.Prelude.{
  ℕ, zero, suc, ◌+◌, ◌-◌, ◌≤◌, ◌<◌, ◌≡◌, sym, ap, subst, ◌∙◌, arith, true, false, Bool-cases,
  if◌then◌else◌, inl, inr, ok, ◌>>=◌,
}
use mathlib.Core.Bool.{false≢true}
use native.Mathlib.Decide.{dec_lt}
use odin_analytics.Prelude.Int.{pos, ◌+ℤ◌, ◌-ℤ◌}
use odin_analytics.Time.Date.{from_julian}
use odin_analytics.Time.Date.Gregorian.{+ℤ_pos, -ℤ_pos}
use odin_analytics.Time.Calendar.{Calendar, seek_up, seek_down}
use odin_analytics.Time.Calendar.Holidays.{HasWeek, closed, is_holiday-closed}

module _ (c : Calendar) (week : HasWeek c) where
  seek_up_at_business :
      (fuel j : ℕ) → closed c j ≡ false → seek_up (suc fuel) c (pos j) ≡ ok (from_julian (pos j))
  unfolding seek_up
  seek_up_at_business fuel j e =
      ap (λ r. r >>= λ b. if b then seek_up fuel c (pos j +ℤ pos 1) else ok (from_julian (pos j)))
        (is_holiday-closed c j week ∙ ap ok e)

  seek_up_at_holiday :
      (fuel j : ℕ) → closed c j ≡ true → seek_up (suc fuel) c (pos j) ≡ seek_up fuel c (pos (j + 1))
  unfolding seek_up
  seek_up_at_holiday fuel j e =
      ap (λ r. r >>= λ b. if b then seek_up fuel c (pos j +ℤ pos 1) else ok (from_julian (pos j)))
        (is_holiday-closed c j week ∙ ap ok e)
      ∙ ap (seek_up fuel c) (+ℤ_pos j 1)

  seek_down_at_business :
      (fuel j : ℕ) → closed c j ≡ false → seek_down (suc fuel) c (pos j) ≡ ok (from_julian (pos j))
  unfolding seek_down
  seek_down_at_business fuel j e =
      ap (λ r. r >>= λ b. if b then seek_down fuel c (pos j -ℤ pos 1) else ok (from_julian (pos j)))
        (is_holiday-closed c j week ∙ ap ok e)

  seek_down_at_holiday :
      (fuel j : ℕ)
      → 1 ≤ j
      → closed c j ≡ true
      → seek_down (suc fuel) c (pos j) ≡ seek_down fuel c (pos (j - 1))
  unfolding seek_down
  seek_down_at_holiday fuel j h e =
      ap (λ r. r >>= λ b. if b then seek_down fuel c (pos j -ℤ pos 1) else ok (from_julian (pos j)))
        (is_holiday-closed c j week ∙ ap ok e)
      ∙ ap (seek_down fuel c) (-ℤ_pos j 1 h)

  -- The loops stop at the first business day that they meet.
  pub seek_up_lem :
      (fuel j k : ℕ)
      → k < fuel
      → closed c (j + k) ≡ false
      → (d : ℕ) × (seek_up fuel c (pos j) ≡ ok (from_julian (pos d)))
        × (j ≤ d)
        × (d ≤ j + k)
        × (closed c d ≡ false)
        × ((i : ℕ) → j ≤ i → i < d → closed c i ≡ true)
  seek_up_lem zero j k h e = absurd (omega arith)
  seek_up_lem (suc fuel) j k h e = elim (Bool-cases (closed c j)) [
    | inl holiday ↦
        let moved : 1 ≤ k = positive j k holiday e in
        let (d, found, low, high, business, between) =
          seek_up_lem fuel (j + 1) (k - 1) (omega arith)
            (subst (λ t. closed c t ≡ false) (omega arith) e) in
        (
          d,
          seek_up_at_holiday fuel j holiday ∙ found,
          omega arith,
          omega arith,
          business,
          λ i a b. extend j i d holiday between a b,
        )
    | inr business ↦ (
      j,
      seek_up_at_business fuel j business,
      omega arith,
      omega arith,
      business,
      λ i a b. absurd (omega arith),
    )
  ]
    where
      positive : (j k : ℕ) → closed c j ≡ true → closed c (j + k) ≡ false → 1 ≤ k
      positive j zero e e' = absurd (false≢true (sym e' ∙ ap (closed c) (omega arith) ∙ e))
      positive j (suc k) e e' = omega arith

      extend :
          (j i d : ℕ)
          → closed c j ≡ true
          → ((i : ℕ) → j + 1 ≤ i → i < d → closed c i ≡ true)
          → j ≤ i
          → i < d
          → closed c i ≡ true
      extend j i d e rest a b = elim (dec_lt j i) [
        | yes after ↦ rest i (omega arith) b
        | no here ↦ subst (λ t. closed c t ≡ true) (omega (arith, here)) e
      ]

  pub seek_down_lem :
      (fuel j k : ℕ)
      → k < fuel
      → k ≤ j
      → closed c (j - k) ≡ false
      → (d : ℕ) × (seek_down fuel c (pos j) ≡ ok (from_julian (pos d)))
        × (d ≤ j)
        × (j ≤ d + k)
        × (closed c d ≡ false)
        × ((i : ℕ) → d < i → i ≤ j → closed c i ≡ true)
  seek_down_lem zero j k h l e = absurd (omega arith)
  seek_down_lem (suc fuel) j k h l e = elim (Bool-cases (closed c j)) [
    | inl holiday ↦
        let moved : 1 ≤ k = positive j k holiday e in
        let (d, found, high, low, business, between) =
          seek_down_lem fuel (j - 1) (k - 1) (omega arith) (omega arith)
            (subst (λ t. closed c t ≡ false) (omega arith) e) in
        (
          d,
          seek_down_at_holiday fuel j (omega arith) holiday ∙ found,
          omega arith,
          omega arith,
          business,
          λ i a b. extend j i d holiday between a b,
        )
    | inr business ↦ (
      j,
      seek_down_at_business fuel j business,
      omega arith,
      omega arith,
      business,
      λ i a b. absurd (omega arith),
    )
  ]
    where
      positive : (j k : ℕ) → closed c j ≡ true → closed c (j - k) ≡ false → 1 ≤ k
      positive j zero e e' = absurd (false≢true (sym e' ∙ ap (closed c) (omega arith) ∙ e))
      positive j (suc k) e e' = omega arith

      extend :
          (j i d : ℕ)
          → closed c j ≡ true
          → ((i : ℕ) → d < i → i ≤ j - 1 → closed c i ≡ true)
          → d < i
          → i ≤ j
          → closed c i ≡ true
      extend j i d e rest a b = elim (dec_lt i j) [
        | yes before ↦ rest i a (omega arith)
        | no here ↦ subst (λ t. closed c t ≡ true) (omega (arith, here)) e
      ]
