-- ===== src/DerivedTime/CashflowGen/Backward.antt =====
-- The periods that `CreateFixedCashflows` makes from maturity back
-- (src/derived_time/cashflow_gen/cashflow_gen.cpp).
mod Examples
use odin_analytics.Prelude.{
  ℕ, zero, suc, ◌+◌, ◌*◌, ◌≤◌, ◌<◌, ◌≡◌, refl, sym, ap, ◌∙◌, subst, arith, Bool, true, false,
  Bool-cases, inl, inr, List, [], ◌∷◌, reverse, Result, ok, err, ◌>>=◌, stuck, chain_step,
  elim_split,
}
use odin_analytics.Prelude.Int.{
  ℤ, pos, ◌+ℤ◌, ◌-ℤ◌, ◌*ℤ◌, neg_ℤ, ◌≤ℤ◌, ◌<ℤ◌, pos_part, ltb_ℤ, int_laws,
}
use odin_analytics.Time.Enums.{Tenors}
use odin_analytics.Time.Tenor.{Tenor, tenor}
use odin_analytics.Time.Date.{Date, add_tenor, date_lt}
use odin_analytics.Time.Date.Validity.{IsDate}
use odin_analytics.Time.Date.Offset.{
  position, step, first_position, add_tenor-position_back, position-order, step_more, step_back,
  step_none,
}
use odin_analytics.DerivedTime.Enums.{backward}
use odin_analytics.DerivedTime.CashflowGen.{
  Schedule, schedule, put_first, backward_dates, schedule_fuel, unadjusted_dates,
}

-- The periods from the `k`-th on, counted from maturity back: each ends where a multiple of the tenor
-- before maturity lands, as long as that is after the start date, and begins a tenor before its own
-- end.
pub data IsBackward (start_date mat_date : Date) (n : ℕ) (u : Tenors)
    : ℕ → Date → List Date → List Date → Type 0 where
  reached :
      (k : ℕ) (curr : Date)
      → curr.julian ≤ℤ start_date.julian
      → IsBackward start_date mat_date n u k curr [] []
  one_back :
      (k : ℕ) (curr begin_date next : Date) (begins ends : List Date)
      → start_date.julian <ℤ curr.julian
      → add_tenor curr (tenor (neg_ℤ (pos n)) u) ≡ ok begin_date
      → add_tenor mat_date (tenor (neg_ℤ (pos (suc k * n))) u) ≡ ok next
      → next.julian <ℤ curr.julian
      → IsBackward start_date mat_date n u (suc k) next begins ends
      → IsBackward start_date mat_date n u k curr (begin_date ∷ begins) (curr ∷ ends)

-- `p - x - y` in two ways.
regroup : (p x y z : ℤ) → z ≡ x +ℤ y → p -ℤ z ≡ (p -ℤ x) -ℤ y
regroup p x y z e = ap (λ w. p -ℤ w) e ∙ split p x y
  where
    split : (p x y : ℤ) → p -ℤ (x +ℤ y) ≡ (p -ℤ x) -ℤ y
    split p x y = omega int_laws

next_total : (k n : ℕ) → neg_ℤ (pos (suc k * n)) -ℤ pos n ≡ neg_ℤ (pos (suc (suc k) * n))
next_total k n = omega int_laws

first_total : (n : ℕ) → neg_ℤ (pos n) ≡ neg_ℤ (pos (1 * n))
first_total n = omega int_laws

date_lt-lt : (a b : Date) → date_lt a b ≡ true → a.julian <ℤ b.julian
date_lt-lt a b h = ground arith

not_before : (a b : Date) → date_lt a b ≡ false → b.julian ≤ℤ a.julian
not_before a b h = ground arith

module _ (start_date mat_date : Date) (n : ℕ) (u : Tenors) (n-pos : 0 < n)
    (mat_valid : IsDate mat_date) (start_valid : IsDate start_date)
    (room : first_position u ≤ℤ position u start_date -ℤ step u *ℤ pos n) where
  -- What the loop makes of a round's end date.
  abbrev Loop : ℕ → ℕ → Date → Type 0
  Loop fuel k curr =
      (begins ends : List Date) × (backward_dates (suc fuel) start_date mat_date (tenor (pos n) u)
          curr (neg_ℤ (pos (suc k * n)))
        ≡ ok (schedule begins ends))
      × IsBackward start_date mat_date n u k curr begins ends

  -- A day after the start date is at its position, or a later one.
  position-after :
      (curr : Date)
      → IsDate curr
      → start_date.julian <ℤ curr.julian
      → position u start_date ≤ℤ position u curr
  position-after curr valid lt =
      elim (Bool-cases (ltb_ℤ (position u curr) (position u start_date))) [
        | inl lower ↦ absurd (
            let le = position-order u curr start_date valid start_valid (ground arith) in
            omega (arith, le, lt))
        | inr other ↦ ground arith
      ]

  Loop-end : (fuel k : ℕ) (curr : Date) → date_lt start_date curr ≡ false → Loop fuel k curr
  unfolding backward_dates
  Loop-end fuel k curr finished = (
    [],
    [],
    ap
        (λ b. elim b [
          | true ↦ add_tenor curr (tenor (neg_ℤ (pos n)) u) >>= λ begin_date.
              add_tenor mat_date (tenor (neg_ℤ (pos (suc k * n))) u) >>= λ next.
              backward_dates fuel start_date mat_date (tenor (pos n) u) next
                (neg_ℤ (pos (suc k * n)) -ℤ pos n)
              >>= λ rest. ok (put_first begin_date curr rest)
          | false ↦ ok (schedule [] [])
        ])
        finished,
    reached k curr (not_before start_date curr finished),
  )

  Loop-step :
      (fuel k : ℕ) (curr begin_date next : Date)
      → date_lt start_date curr ≡ true
      → add_tenor curr (tenor (neg_ℤ (pos n)) u) ≡ ok begin_date
      → add_tenor mat_date (tenor (neg_ℤ (pos (suc k * n))) u) ≡ ok next
      → next.julian <ℤ curr.julian
      → Loop fuel (suc k) next
      → Loop (suc fuel) k curr
  unfolding backward_dates
  Loop-step fuel k curr begin_date next more b e lt (begins, ends, r, is_backward) = (
    begin_date ∷ begins,
    curr ∷ ends,
    ap
          (λ b. elim b [
            | true ↦ add_tenor curr (tenor (neg_ℤ (pos n)) u) >>= λ begin_date.
                add_tenor mat_date (tenor (neg_ℤ (pos (suc k * n))) u) >>= λ next.
                backward_dates (suc fuel) start_date mat_date (tenor (pos n) u) next
                  (neg_ℤ (pos (suc k * n)) -ℤ pos n)
                >>= λ rest. ok (put_first begin_date curr rest)
            | false ↦ ok (schedule [] [])
          ])
          more
        ∙ chain_step _ _ begin_date b
        ∙ chain_step _ _ next e
        ∙ chain_step _ _ (schedule begins ends) (
            ap (backward_dates (suc fuel) start_date mat_date (tenor (pos n) u) next)
              (next_total k n)
            ∙ r),
    one_back k curr begin_date next begins ends (date_lt-lt start_date curr more) b e lt
        is_backward,
  )

  -- The fuel is at least the days that are left.
  loop_lem :
      (fuel k : ℕ) (curr : Date)
      → IsDate curr
      → position u curr ≡ position u mat_date -ℤ step u *ℤ pos (k * n)
      → curr.julian ≤ℤ start_date.julian +ℤ pos fuel
      → Loop fuel k curr
  loop_lem zero k curr valid at enough = elim (Bool-cases (date_lt start_date curr)) [
    | inl more ↦ absurd (let lt = date_lt-lt start_date curr more in omega (int_laws, enough, lt))
    | inr finished ↦ Loop-end 0 k curr finished
  ]
  loop_lem (suc fuel) k curr valid at enough = elim (Bool-cases (date_lt start_date curr)) [
    | inr finished ↦ Loop-end (suc fuel) k curr finished
    | inl more ↦
        let lt = date_lt-lt start_date curr more in
        let after = position-after curr valid lt in
        let from_curr : position u mat_date -ℤ step u *ℤ pos (suc k * n)
            ≡ position u curr -ℤ step u *ℤ pos n =
          regroup (position u mat_date) _ _ _ (step_more u k n)
          ∙ ap (λ p. p -ℤ step u *ℤ pos n) (sym at) in
        let room_here : first_position u ≤ℤ position u curr -ℤ step u *ℤ pos n =
          omega (int_laws, room, after) in
        let (begin_date, b, _, _) = add_tenor-position_back curr n u valid room_here in
        let (next, e, next_valid, next_at) =
          add_tenor-position_back mat_date (suc k * n) u mat_valid
            (subst (λ p. first_position u ≤ℤ p) (sym from_curr) room_here) in
        let earlier : position u next <ℤ position u curr =
          subst (λ p. p <ℤ position u curr) (sym (next_at ∙ from_curr))
            (step_back u (position u curr) n n-pos) in
        let sooner = position-order u next curr next_valid valid earlier in
        Loop-step fuel k curr begin_date next more b e sooner
          (loop_lem fuel (suc k) next next_valid next_at (omega (int_laws, enough, sooner)))
  ]

-- With a positive tenor, and a start date that is at least a tenor after -4712-01-01, the backward
-- direction ends on every date. It makes, in the order of time, the periods that end at maturity and at
-- the tenor's multiples before it, as long as that is after the start date; each begins a tenor before
-- its own end.
pub unadjusted_dates-IsBackward :
    (start_date mat_date : Date) (n : ℕ) (u : Tenors)
    → 0 < n
    → IsDate mat_date
    → IsDate start_date
    → first_position u ≤ℤ position u start_date -ℤ step u *ℤ pos n
    → (begins ends : List Date) × (unadjusted_dates backward start_date mat_date (tenor (pos n) u)
        ≡ ok (schedule (reverse begins) (reverse ends)))
      × IsBackward start_date mat_date n u 0 mat_date begins ends
unfolding unadjusted_dates
unadjusted_dates-IsBackward start_date mat_date n u n-pos mat_valid start_valid room =
    let fuel = pos_part (mat_date.julian -ℤ start_date.julian) in
    let (begins, ends, e, is_backward) =
      loop_lem start_date mat_date n u n-pos mat_valid start_valid room fuel 0 mat_date mat_valid
        (step_none u (position u mat_date) n) (omega int_laws) in
    (
      begins,
      ends,
      chain_step _ (λ dates. ok (schedule (reverse dates.starts) (reverse dates.ends)))
          (schedule begins ends)
          (ap (backward_dates (suc fuel) start_date mat_date (tenor (pos n) u) mat_date)
              (first_total n)
            ∙ e),
      is_backward,
    )
