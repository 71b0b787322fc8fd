-- ===== src/DerivedTime/CashflowGen/Dates.antt =====
-- The periods that `CreateFixedCashflows` makes from the start date on
-- (src/derived_time/cashflow_gen/cashflow_gen.cpp).
mod Examples
use odin_analytics.Prelude.{
  ℕ, zero, suc, ◌+◌, ◌*◌, ◌≤◌, ◌<◌, ◌≡◌, refl, sym, ap, ◌∙◌, subst, arith, Bool, true, false,
  Bool-cases, inl, inr, List, [], ◌∷◌, Result, ok, ◌>>=◌,
}
use odin_analytics.Prelude.Int.{ℤ, pos, ◌+ℤ◌, ◌-ℤ◌, ◌*ℤ◌, ◌≤ℤ◌, ◌<ℤ◌, pos_part, int_laws}
use odin_analytics.Time.Enums.{Tenors, days, weeks, months, years}
use odin_analytics.Time.Tenor.{Tenor, tenor}
use odin_analytics.Time.Date.{Date, add_tenor, date_lt}
use odin_analytics.Time.Date.Validity.{IsDate}
use odin_analytics.Time.Date.Offset.{
  position, step, add_tenor-position, position-order, step-order, step-zero,
}
use odin_analytics.DerivedTime.Enums.{forward}
use odin_analytics.DerivedTime.CashflowGen.{
  Schedule, schedule, put_first, forward_dates, schedule_fuel, unadjusted_dates,
}

-- The dates from the `k`-th on.
abbrev pub take_from : (ℕ → Date) → ℕ → ℕ → List Date
take_from date k zero = []
take_from date k (suc n) = date k ∷ take_from date (suc k) n

-- The periods that begin at the start date and at the multiples of the tenor after it, as long as
-- that is before maturity. Each ends a tenor after its own beginning.
pub record IsForward (start_date mat_date : Date) (n : ℕ) (u : Tenors) (dates : Schedule)
    : Type 0 where
  pub size : ℕ
  pub begins : ℕ → Date
  pub closes : ℕ → Date
  pub first : begins 0 ≡ start_date
  pub later : (k : ℕ) → add_tenor start_date (tenor (pos (suc k * n)) u) ≡ ok (begins (suc k))
  pub period : (k : ℕ) → add_tenor (begins k) (tenor (pos n) u) ≡ ok (closes k)
  pub increasing : (k : ℕ) → (begins k).julian <ℤ (begins (suc k)).julian
  pub starts_are : dates.starts ≡ take_from begins 0 size
  pub ends_are : dates.ends ≡ take_from closes 0 size
  pub before : (k : ℕ) → k < size → (begins k).julian <ℤ mat_date.julian
  pub ended : mat_date.julian ≤ℤ (begins size).julian

<ℤ_shift : (b x y p q : ℤ) → p ≡ b +ℤ x → q ≡ b +ℤ y → x <ℤ y → p <ℤ q
<ℤ_shift b x y p q e e' lt =
    subst (λ p. p <ℤ q) (sym e) (subst (λ q. b +ℤ x <ℤ q) (sym e') (omega (int_laws, lt)))

plus_zero : (k : ℕ) → k ≡ k + 0
plus_zero k = omega arith

plus_suc : (k i : ℕ) → suc k + i ≡ k + suc i
plus_suc k i = omega arith

zero_plus : (k : ℕ) → 0 + k ≡ k
zero_plus k = omega arith

next_total : (k n : ℕ) → pos (suc k * n) +ℤ pos n ≡ pos (suc (suc k) * n)
next_total k n = omega int_laws

first_total : (n : ℕ) → pos n ≡ pos (1 * n)
first_total n = omega int_laws

date_lt-lt : (a b : Date) → date_lt a b ≡ true → a.julian <ℤ b.julian
date_lt-lt a b h = ground arith

not_before : (a b : Date) → date_lt a b ≡ false → b.julian ≤ℤ a.julian
not_before a b h = ground arith

-- The two ways in which a round of the loop goes.
module _ (fuel : ℕ) (start_date mat_date : Date) (freq : Tenor) (curr : Date) (total : ℤ) where
  forward_dates-finished :
      date_lt curr mat_date ≡ false
      → forward_dates (suc fuel) start_date mat_date freq curr total ≡ ok (schedule [] [])
  unfolding forward_dates
  forward_dates-finished h =
      ap
        (λ b. elim b [
          | true ↦ add_tenor curr freq >>= λ end_date.
              add_tenor start_date (tenor total freq.unit) >>= λ next.
              forward_dates fuel start_date mat_date freq next (total +ℤ freq.count) >>= λ rest.
              ok (put_first curr end_date rest)
          | false ↦ ok (schedule [] [])
        ])
        h

  forward_dates-more :
      (end_date next : Date) (dates : Schedule)
      → date_lt curr mat_date ≡ true
      → add_tenor curr freq ≡ ok end_date
      → add_tenor start_date (tenor total freq.unit) ≡ ok next
      → forward_dates fuel start_date mat_date freq next (total +ℤ freq.count) ≡ ok dates
      → forward_dates (suc fuel) start_date mat_date freq curr total
        ≡ ok (put_first curr end_date dates)
  unfolding forward_dates
  forward_dates-more end_date next dates h e e' r =
      ap
        (λ b. elim b [
          | true ↦ add_tenor curr freq >>= λ end_date.
              add_tenor start_date (tenor total freq.unit) >>= λ next.
              forward_dates fuel start_date mat_date freq next (total +ℤ freq.count) >>= λ rest.
              ok (put_first curr end_date rest)
          | false ↦ ok (schedule [] [])
        ])
        h
      ∙ rw (e, e', r) refl

module _ (start_date mat_date : Date) (n : ℕ) (u : Tenors) (h : IsDate start_date)
    (n-pos : 0 < n) where
  landing :
      (k : ℕ)
      → (v : Date) × (add_tenor start_date (tenor (pos (k * n)) u) ≡ ok v)
        × IsDate v
        × (position u v ≡ position u start_date +ℤ step u *ℤ pos (k * n))
  landing k = add_tenor-position start_date (k * n) u h

  begin_at : ℕ → Date
  begin_at zero = start_date
  begin_at (suc k) = (landing (suc k)).0

  begin_at-IsDate : (k : ℕ) → IsDate (begin_at k)
  unfolding begin_at
  begin_at-IsDate zero = h
  begin_at-IsDate (suc k) = (landing (suc k)).2

  begin_at-position :
      (k : ℕ) → position u (begin_at k) ≡ position u start_date +ℤ step u *ℤ pos (k * n)
  unfolding begin_at
  begin_at-position zero =
      let e : 0 * n ≡ 0 = omega arith in
      step-zero u (position u start_date)
      ∙ ap (λ k. position u start_date +ℤ step u *ℤ pos k) (sym e)
  begin_at-position (suc k) = (landing (suc k)).3

  begin_at-order : (k : ℕ) → (begin_at k).julian <ℤ (begin_at (suc k)).julian
  begin_at-order k =
      let more = step-order u (k * n) (suc k * n) (omega arith) in
      position-order u (begin_at k) (begin_at (suc k)) (begin_at-IsDate k) (begin_at-IsDate (suc k))
        (<ℤ_shift _ _ _ _ _ (begin_at-position k) (begin_at-position (suc k)) more)

  close_at : ℕ → Date
  close_at k = (add_tenor-position (begin_at k) n u (begin_at-IsDate k)).0

  close_at-ok : (k : ℕ) → add_tenor (begin_at k) (tenor (pos n) u) ≡ ok (close_at k)
  unfolding close_at
  close_at-ok k = (add_tenor-position (begin_at k) n u (begin_at-IsDate k)).1

  begin_at-ok : (k : ℕ) → add_tenor start_date (tenor (pos (suc k * n)) u) ≡ ok (begin_at (suc k))
  unfolding begin_at
  begin_at-ok k = (landing (suc k)).1

  -- What the loop makes from the `k`-th period on.
  abbrev Loop : ℕ → ℕ → Type 0
  Loop fuel k =
      (size : ℕ) × (forward_dates (suc fuel) start_date mat_date (tenor (pos n) u) (begin_at k)
          (pos (suc k * n))
        ≡ ok (schedule (take_from begin_at k size) (take_from close_at k size)))
      × ((i : ℕ) → i < size → (begin_at (k + i)).julian <ℤ mat_date.julian)
      × (mat_date.julian ≤ℤ (begin_at (k + size)).julian)

  Loop-end : (fuel k : ℕ) → date_lt (begin_at k) mat_date ≡ false → Loop fuel k
  Loop-end fuel k finished = (
    0,
    forward_dates-finished fuel start_date mat_date (tenor (pos n) u) (begin_at k) _ finished,
    λ i lt. absurd (omega arith),
    subst (λ i. mat_date.julian ≤ℤ (begin_at i).julian) (plus_zero k)
        (not_before (begin_at k) mat_date finished),
  )

  Loop-step :
      (fuel k : ℕ) → date_lt (begin_at k) mat_date ≡ true → Loop fuel (suc k) → Loop (suc fuel) k
  Loop-step fuel k more (size, e, before, ended) = (
    suc size,
    forward_dates-more (suc fuel) start_date mat_date (tenor (pos n) u) (begin_at k)
        (pos (suc k * n)) (close_at k) (begin_at (suc k)) _ more (close_at-ok k) (begin_at-ok k)
        (ap (forward_dates (suc fuel) start_date mat_date (tenor (pos n) u) (begin_at (suc k)))
            (next_total k n)
          ∙ e),
    before_all,
    subst (λ i. mat_date.julian ≤ℤ (begin_at i).julian) (plus_suc k size) ended,
  )
    where
      before_all : (i : ℕ) → i < suc size → (begin_at (k + i)).julian <ℤ mat_date.julian
      before_all zero lt =
          subst (λ i. (begin_at i).julian <ℤ mat_date.julian) (plus_zero k)
            (date_lt-lt (begin_at k) mat_date more)
      before_all (suc i) lt =
          subst (λ i. (begin_at i).julian <ℤ mat_date.julian) (plus_suc k i)
            (before i (omega arith))

  -- The fuel is at least the days that are left.
  loop_lem : (fuel k : ℕ) → mat_date.julian ≤ℤ (begin_at k).julian +ℤ pos fuel → Loop fuel k
  loop_lem zero k enough = elim (Bool-cases (date_lt (begin_at k) mat_date)) [
    | inl more ↦
        absurd (let lt = date_lt-lt (begin_at k) mat_date more in omega (int_laws, enough, lt))
    | inr finished ↦ Loop-end 0 k finished
  ]
  loop_lem (suc fuel) k enough = elim (Bool-cases (date_lt (begin_at k) mat_date)) [
    | inl more ↦
        Loop-step fuel k more
          (loop_lem fuel (suc k) (let lt = begin_at-order k in omega (int_laws, enough, lt)))
    | inr finished ↦ Loop-end (suc fuel) k finished
  ]

-- With a positive tenor, the forward direction ends on every date and makes the periods that begin
-- at the start date and at the tenor's multiples after it, as long as that is before maturity; each
-- ends a tenor after its own beginning.
pub unadjusted_dates-IsForward :
    (start_date mat_date : Date) (n : ℕ) (u : Tenors)
    → IsDate start_date
    → 0 < n
    → (dates : Schedule) × (unadjusted_dates forward start_date mat_date (tenor (pos n) u)
        ≡ ok dates)
      × IsForward start_date mat_date n u dates
unfolding unadjusted_dates begin_at
unadjusted_dates-IsForward start_date mat_date n u h n-pos =
    let begins = begin_at start_date mat_date n u h n-pos in
    let closes = close_at start_date mat_date n u h n-pos in
    let fuel = pos_part (mat_date.julian -ℤ start_date.julian) in
    let (size, e, before, ended) =
      loop_lem start_date mat_date n u h n-pos fuel 0 (omega int_laws) in
    (
      schedule (take_from begins 0 size) (take_from closes 0 size),
      ap (forward_dates (suc fuel) start_date mat_date (tenor (pos n) u) start_date) (first_total n)
          ∙ e,
      record {
        size = size;
        begins = begins;
        closes = closes;
        first = refl;
        later = begin_at-ok start_date mat_date n u h n-pos;
        period = close_at-ok start_date mat_date n u h n-pos;
        increasing = begin_at-order start_date mat_date n u h n-pos;
        starts_are = refl;
        ends_are = refl;
        before =
            λ k lt. subst (λ i. (begins i).julian <ℤ mat_date.julian) (zero_plus k) (before k lt);
        ended = subst (λ i. mat_date.julian ≤ℤ (begins i).julian) (zero_plus size) ended;
      },
    )
