-- ===== src/Time/Calendar/Walk.antt =====
-- `AddBusinessDays` (src/time/calendar.cpp) is `GetNextBusinessDay` or `GetPrevBusinessDay`, as many
-- times as days are asked for.
use native.Mathlib.Decide.{dec_lt}
use odin_analytics.Prelude.{
  ℕ, zero, suc, ◌+◌, ◌-◌, ◌*◌, ◌≤◌, ◌≡◌, ◌==◌, refl, ap, ◌∙◌, arith, Bool, true, false, Bool-cases,
  not, if◌then◌else◌, inl, inr, ok, ◌>>=◌,
}
use odin_analytics.Prelude.Int.{pos, negsuc, ◌+ℤ◌, ◌-ℤ◌}
use odin_analytics.Time.Date.{from_julian}
use odin_analytics.Time.Date.Gregorian.{+ℤ_pos, -ℤ_pos}
use odin_analytics.Time.Calendar.{Calendar, is_business_day, search_fuel, walk, add_business_days}
use odin_analytics.Time.Calendar.Holidays.{HasWeek, closed, is_holiday-closed}
use odin_analytics.Time.Calendar.OpenDays.{HasOpenDay, IsNext, IsPrev}
use odin_analytics.Time.Calendar.Nearest.{
  get_next_business_day-IsNext, get_prev_business_day-IsPrev,
}

-- The day `d` is the n-th business day after `b`, or before `b`; for n = 0 it is `b` itself.
abbrev pub After : Calendar → ℕ → ℕ → ℕ → Type 0
After c zero b d = b ≡ d
After c (suc n) b d = (e : ℕ) × IsNext c b e × After c n e d

abbrev pub Before : Calendar → ℕ → ℕ → ℕ → Type 0
Before c zero b d = b ≡ d
Before c (suc n) b d = (e : ℕ) × IsPrev c b e × Before c n e d

suc_test : (n : ℕ) → (suc n == 0) ≡ false
suc_test n = ground arith

suc_pred : (n : ℕ) → suc n - 1 ≡ n
suc_pred n = omega arith

module _ (c : Calendar) (week : HasWeek c) where
  is_business_day-closed : (j : ℕ) → is_business_day c (pos j) ≡ ok (not (closed c j))
  unfolding is_business_day
  is_business_day-closed j = ap (λ r. r >>= λ b. ok (not b)) (is_holiday-closed c j week)

  -- One round of the loop.
  walk_round :
      (fuel n j k : ℕ) (back : Bool)
      → (if back then pos j -ℤ pos 1 else pos j +ℤ pos 1) ≡ pos k
      → walk (suc fuel) c back (suc n) (pos j)
        ≡ (if closed c k then walk fuel c back (suc n) (pos k) else walk fuel c back n (pos k))
  unfolding walk
  walk_round fuel n j k back e =
      rw (e, is_business_day-closed k, suc_test n, suc_pred n)
        (elim (Bool-cases (closed c k)) [ inl holiday ↦ rw holiday | inr business ↦ rw business ])

  walk_done : (fuel j : ℕ) (back : Bool) → walk fuel c back 0 (pos j) ≡ ok (from_julian (pos j))
  unfolding walk
  walk_done zero j back = refl
  walk_done (suc fuel) j back = refl

  -- The rounds from one business day to the next.
  walk_to_next :
      (steps fuel n b e : ℕ)
      → b + steps ≡ e
      → IsNext c b e
      → walk (steps + fuel) c false (suc n) (pos b) ≡ walk fuel c false n (pos e)
  walk_to_next zero fuel n b e s h = absurd (omega (arith, h.later))
  walk_to_next (suc steps) fuel n b e s h =
      ap (λ f. walk f c false (suc n) (pos b)) (omega arith)
      ∙ walk_round (steps + fuel) n b (b + 1) false (+ℤ_pos b 1)
      ∙ elim (dec_lt (b + 1) e) [
        | yes before ↦ rw (h.between (b + 1) (omega arith) before) (
            walk_to_next steps fuel n (b + 1) e (omega arith) (record {
              later = before;
              business = h.business;
              between = λ i l u. h.between i (omega arith) u;
            }))
        | no here ↦
            let at : b + 1 ≡ e = omega (arith, h.later, here) in
            rw (at, h.business) (ap (λ f. walk f c false n (pos e)) (omega arith))
      ]

  walk_up :
      (n fuel b : ℕ)
      → HasOpenDay c
      → search_fuel c * n ≤ fuel
      → (d : ℕ) × (walk fuel c false n (pos b) ≡ ok (from_julian (pos d))) × After c n b d
  walk_up zero fuel b o h = (b, walk_done fuel b false, refl)
  walk_up (suc n) fuel b o h =
      let (e, _, next, near) = get_next_business_day-IsNext c week b o in
      let (d, found, after) = walk_up n (fuel - (e - b)) e o (omega arith) in
      (
        d,
        ap (λ f. walk f c false (suc n) (pos b)) (omega arith)
            ∙ walk_to_next (e - b) (fuel - (e - b)) n b e (omega arith) next
            ∙ found,
        (e, next, after),
      )

  walk_to_prev :
      (steps fuel n b e : ℕ)
      → e + steps ≡ b
      → IsPrev c b e
      → walk (steps + fuel) c true (suc n) (pos b) ≡ walk fuel c true n (pos e)
  walk_to_prev zero fuel n b e s h = absurd (omega (arith, h.earlier))
  walk_to_prev (suc steps) fuel n b e s h =
      ap (λ f. walk f c true (suc n) (pos b)) (omega arith)
      ∙ walk_round (steps + fuel) n b (b - 1) true (-ℤ_pos b 1 (omega arith))
      ∙ elim (dec_lt e (b - 1)) [
        | yes before ↦ rw (h.between (b - 1) before (omega arith)) (
            walk_to_prev steps fuel n (b - 1) e (omega arith) (record {
              earlier = before;
              business = h.business;
              between = λ i l u. h.between i l (omega arith);
            }))
        | no here ↦
            let at : b - 1 ≡ e = omega (arith, h.earlier, here) in
            rw (at, h.business) (ap (λ f. walk f c true n (pos e)) (omega arith))
      ]

  walk_down :
      (n fuel b : ℕ)
      → HasOpenDay c
      → search_fuel c * n ≤ fuel
      → search_fuel c * n ≤ b
      → (d : ℕ) × (walk fuel c true n (pos b) ≡ ok (from_julian (pos d))) × Before c n b d
  walk_down zero fuel b o h l = (b, walk_done fuel b true, refl)
  walk_down (suc n) fuel b o h l =
      let (e, _, prev, near) = get_prev_business_day-IsPrev c week b o (omega arith) in
      let (d, found, before) = walk_down n (fuel - (b - e)) e o (omega arith) (omega arith) in
      (
        d,
        ap (λ f. walk f c true (suc n) (pos b)) (omega arith)
            ∙ walk_to_prev (b - e) (fuel - (b - e)) n b e (omega (arith, prev.earlier)) prev
            ∙ found,
        (e, prev, before),
      )

  -- On a calendar with an open weekday, adding n business days ends and returns the n-th business
  -- day after the date; for n = 0 the date itself, a holiday or not.
  pub add_business_days-After :
      (n b : ℕ)
      → HasOpenDay c
      → (d : ℕ) × (add_business_days c (pos n) (from_julian (pos b)) ≡ ok (from_julian (pos d)))
        × After c n b d
  unfolding add_business_days
  add_business_days-After n b o =
      let (d, found, after) = walk_up n (search_fuel c * (n + 0)) b o (omega arith) in
      (
        d,
        ap (λ t. walk (search_fuel c * (n + 0)) c t (n + 0) (pos b)) (ground arith)
            ∙ ap (λ t. walk (search_fuel c * (n + 0)) c false t (pos b)) (omega arith)
            ∙ found,
        after,
      )

  -- On a calendar with an open weekday, adding a negative number of business days to a day that is
  -- far enough from day 0 ends and returns the day that is that many business days before.
  pub add_business_days-Before :
      (n b : ℕ)
      → HasOpenDay c
      → search_fuel c * suc n ≤ b
      → (d : ℕ) × (add_business_days c (negsuc n) (from_julian (pos b)) ≡ ok (from_julian (pos d)))
        × Before c (suc n) b d
  unfolding add_business_days
  add_business_days-Before n b o h =
      let (d, found, before) =
        walk_down (suc n) (search_fuel c * (0 + suc n)) b o (omega arith) h in
      (
        d,
        ap (λ t. walk (search_fuel c * (0 + suc n)) c t (0 + suc n) (pos b)) (ground arith)
            ∙ ap (λ t. walk (search_fuel c * (0 + suc n)) c true t (pos b)) (omega arith)
            ∙ found,
        before,
      )
