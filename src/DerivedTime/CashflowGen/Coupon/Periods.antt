-- ===== src/DerivedTime/CashflowGen/Coupon/Periods.antt =====
-- What a coupon and the repayment are (src/derived_time/cashflow_gen/cashflow_gen.cpp), member by
-- member.
use odin_analytics.Prelude.{
  ◌≡◌, ◌≢◌, refl, sym, ap, ◌∙◌, subst, arith, Bool, true, false, not, if◌then◌else◌, Option, none,
  some, ok, chain_ok, ok-injective,
}
use odin_analytics.Prelude.Int.{ℤ, pos, ◌+ℤ◌, eqb_ℤ, eqb_ℤ→≡}
use odin_analytics.Prelude.Double.{Double}
use odin_analytics.Time.Enums.{Tenors, days, weeks, months, years, DayCountRule}
use odin_analytics.Time.Tenor.{Tenor}
use odin_analytics.Time.Date.{Date, is_leap, plus_int}
use odin_analytics.Time.Calendar.{Calendar, add_business_days}
use odin_analytics.Time.DayCount.{DayCounter, day_count, year_fraction, generate_day_counter}
use odin_analytics.DerivedTime.Enums.{
  principal, advance, in_arears, ResetDirection, CalcType, flat, compounding, bbg_calc_type_1,
  bbg_calc_type_2, ust_street_conv,
}
use odin_analytics.DerivedTime.Formula.{BusinessDateFormula, adjust_business, is_nonzero}
use odin_analytics.DerivedTime.CashflowGen.{Options}
use odin_analytics.DerivedTime.CashflowGen.Coupon.{
  CashflowStruct, day_count_denominator, fixing_date, dereference, ust_coupon, coupon_amount,
  compute_ust_street_conv_coupon, compute_coupon, with_amount, make_cashflow,
}

-- A date and where an adjustment moves it: by days, or by business days of its calendar.
pub data IsMoved (f : BusinessDateFormula) (from to : Date) : Type 0 where
  by_days :
      f.calendar ≡ none → to.julian ≡ from.julian +ℤ f.num_of_business_days → IsMoved f from to
  by_business_days :
      (c : Calendar)
      → f.calendar ≡ some c
      → add_business_days c f.num_of_business_days from ≡ ok to
      → IsMoved f from to

-- The day on which the rate is fixed, of a period from one date to another.
pub data IsFixed (opts : Options) (start_date end_date fixed_on : Date) : Type 0 where
  at_start :
      opts.fix_adjustment.num_of_business_days ≡ pos 0
      → fixed_on ≡ start_date
      → IsFixed opts start_date end_date fixed_on
  in_advance :
      opts.fix_adjustment.num_of_business_days ≢ pos 0
      → opts.reset_direction ≡ advance
      → IsMoved opts.fix_adjustment start_date fixed_on
      → IsFixed opts start_date end_date fixed_on
  at_end :
      opts.fix_adjustment.num_of_business_days ≢ pos 0
      → opts.reset_direction ≡ in_arears
      → IsMoved opts.fix_adjustment end_date fixed_on
      → IsFixed opts start_date end_date fixed_on

module _ (double : Double) where
  open double use {Number, of_int, mul, div}

  -- The part of a year that one unit of the tenor is.
  abbrev pub unit_part : Tenors → DayCountRule → Date → Number
  unit_part years rule fixed_on = of_int (pos 1)
  unit_part months rule fixed_on = div (of_int (pos 1)) (of_int (pos 12))
  unit_part weeks rule fixed_on = div (of_int (pos 1)) (of_int (pos 52))
  unit_part days rule fixed_on =
      div (of_int (pos 1)) (of_int (day_count_denominator rule (is_leap fixed_on)))

  -- The amount of a coupon: by the day count, or the same for each period.
  pub data IsAmount (opts : Options) (freq : Tenor) (rule : DayCountRule)
      (cf : CashflowStruct Number) : Type 0 where
    by_fraction :
        opts.calc_type ≡ flat
        → cf.cashflow_amount ≡ mul (mul cf.notional cf.rate) cf.day_count_fraction
        → IsAmount opts freq rule cf
    by_years :
        opts.calc_type ≢ flat
        → opts.calc_type ≢ compounding
        → freq.unit ≡ years
        → cf.cashflow_amount ≡ mul (mul cf.notional cf.rate) (of_int freq.count)
        → IsAmount opts freq rule cf
    by_units :
        opts.calc_type ≢ flat
        → opts.calc_type ≢ compounding
        → freq.unit ≢ years
        → cf.cashflow_amount
          ≡ mul
              (mul (mul cf.notional cf.rate) (unit_part freq.unit rule cf.fixing_date))
              (of_int freq.count)
        → IsAmount opts freq rule cf

  module _ (freq : Tenor) (notional rate : Number) (rule : DayCountRule) (opts : Options) where
    pub record IsCoupon (s e : Date) (cf : CashflowStruct Number) : Type 0 where
      pub period_start : cf.unadj_start_date ≡ s
      pub period_end : cf.unadj_end_date ≡ e
      pub starts : IsMoved opts.start_adjustment s cf.start_date
      pub ends : IsMoved opts.end_adjustment e cf.end_date
      pub paid : IsMoved opts.pay_adjustment cf.end_date cf.payment_date
      pub fixed_on : IsFixed opts cf.start_date cf.end_date cf.fixing_date
      pub counter : DayCounter
      pub of_rule : generate_day_counter rule ≡ some counter
      pub counted : day_count counter cf.start_date cf.end_date ≡ ok cf.days
      pub part : year_fraction double counter cf.start_date cf.end_date ≡ ok cf.day_count_fraction
      pub on_notional : cf.notional ≡ notional
      pub at_rate : cf.rate ≡ rate
      pub amount : IsAmount opts freq rule cf
      pub no_npv : cf.npv_cashflow_amount ≡ of_int (pos 0)
      pub in_currency : cf.cf_curr ≡ opts.currency
      pub of_type : cf.cf_type ≡ opts.cashflow_type

  -- The repayment is on the dates of the last coupon.
  pub record IsRepayment (notional : Number) (last cf : CashflowStruct Number) : Type 0 where
    pub period_start : cf.unadj_start_date ≡ last.unadj_start_date
    pub period_end : cf.unadj_end_date ≡ last.unadj_end_date
    pub starts : cf.start_date ≡ last.start_date
    pub ends : cf.end_date ≡ last.end_date
    pub fixed_on : cf.fixing_date ≡ last.fixing_date
    pub paid : cf.payment_date ≡ last.payment_date
    pub on_notional : cf.notional ≡ last.notional
    pub at_one : cf.rate ≡ of_int (pos 1)
    pub amount : cf.cashflow_amount ≡ notional
    pub same_npv : cf.npv_cashflow_amount ≡ last.npv_cashflow_amount
    pub counted : cf.days ≡ last.days
    pub part : cf.day_count_fraction ≡ last.day_count_fraction
    pub in_currency : cf.cf_curr ≡ last.cf_curr
    pub of_type : cf.cf_type ≡ principal

adjust_business-IsMoved :
    (f : BusinessDateFormula) (from to : Date) → adjust_business f from ≡ ok to → IsMoved f from to
unfolding adjust_business plus_int
adjust_business-IsMoved f from to h = split f.calendar refl h
  where
    split :
        (o : Option Calendar)
        → f.calendar ≡ o
        → (elim o [
          | none ↦ ok (plus_int from f.num_of_business_days)
          | some c ↦ add_business_days c f.num_of_business_days from
        ])
          ≡ ok to
        → IsMoved f from to
    split none e h = by_days e (ap (λ d. d.julian) (sym (ok-injective h)))
    split (some c) e h = by_business_days c e h

dereference-some :
    (o : Option DayCounter) (counter : DayCounter) → dereference o ≡ ok counter → o ≡ some counter
unfolding dereference
dereference-some none counter h = absurd (ground arith)
dereference-some (some c) counter h = ap some (ok-injective h)

apart : (a b : ℤ) → eqb_ℤ a b ≡ false → a ≢ b
apart a b h e = ground (arith, e)

fixing_date-IsFixed :
    (opts : Options) (a b fixed_on : Date)
    → fixing_date opts a b ≡ ok fixed_on
    → IsFixed opts a b fixed_on
unfolding fixing_date is_nonzero
fixing_date-IsFixed opts a b fixed_on h =
    split (eqb_ℤ opts.fix_adjustment.num_of_business_days (pos 0)) opts.reset_direction refl refl h
  where
    split :
        (z : Bool) (r : ResetDirection)
        → eqb_ℤ opts.fix_adjustment.num_of_business_days (pos 0) ≡ z
        → opts.reset_direction ≡ r
        → (if not (not z) then ok a else elim r [
          | advance ↦ adjust_business opts.fix_adjustment a
          | in_arears ↦ adjust_business opts.fix_adjustment b
        ])
          ≡ ok fixed_on
        → IsFixed opts a b fixed_on
    split true r e k h = at_start (eqb_ℤ→≡ _ (pos 0) e) (sym (ok-injective h))
    split false advance e k h =
        in_advance (apart _ (pos 0) e) k (adjust_business-IsMoved opts.fix_adjustment a fixed_on h)
    split false in_arears e k h =
        at_end (apart _ (pos 0) e) k (adjust_business-IsMoved opts.fix_adjustment b fixed_on h)

module _ (double : Double) where
  open double use {Number, of_int, mul}

  module _ (freq : Tenor) (rule : DayCountRule) (opts : Options) (base : CashflowStruct Number)
      (amount : Number) where
    ust_coupon-IsAmount :
        (opts.calc_type ≢ flat)
        → (opts.calc_type ≢ compounding)
        → ust_coupon double base freq.unit freq.count rule ≡ amount
        → IsAmount double opts freq rule (with_amount double base amount)
    unfolding ust_coupon
    ust_coupon-IsAmount a b h = split freq.unit refl h
      where
        of_unit :
            (u : Tenors)
            → freq.unit ≡ u
            → mul
                (mul (mul base.notional base.rate) (unit_part double u rule base.fixing_date))
                (of_int freq.count)
              ≡ mul
                  (mul
                    (mul base.notional base.rate)
                    (unit_part double freq.unit rule base.fixing_date))
                  (of_int freq.count)
        of_unit u e =
            ap
              (λ u.
                mul (mul (mul base.notional base.rate) (unit_part double u rule base.fixing_date))
                  (of_int freq.count))
              (sym e)

        split :
            (u : Tenors)
            → freq.unit ≡ u
            → ust_coupon double base u freq.count rule ≡ amount
            → IsAmount double opts freq rule (with_amount double base amount)
        split years e h = by_years a b e (sym h)
        split months e h = by_units a b (λ k. ground arith) (sym h ∙ of_unit months e)
        split weeks e h = by_units a b (λ k. ground arith) (sym h ∙ of_unit weeks e)
        split days e h = by_units a b (λ k. ground arith) (sym h ∙ of_unit days e)

    coupon_amount-IsAmount :
        coupon_amount double opts.calc_type base freq rule ≡ ok amount
        → IsAmount double opts freq rule (with_amount double base amount)
    unfolding coupon_amount compute_ust_street_conv_coupon
    coupon_amount-IsAmount h = split opts.calc_type refl h
      where
        split :
            (c : CalcType)
            → opts.calc_type ≡ c
            → coupon_amount double c base freq rule ≡ ok amount
            → IsAmount double opts freq rule (with_amount double base amount)
        split flat e h = by_fraction e (sym (ok-injective h))
        split compounding e h = absurd (ground arith)
        split bbg_calc_type_1 e h =
            ust_coupon-IsAmount (λ k. ground arith) (λ k. ground arith) (ok-injective h)
        split bbg_calc_type_2 e h =
            ust_coupon-IsAmount (λ k. ground arith) (λ k. ground arith) (ok-injective h)
        split ust_street_conv e h =
            ust_coupon-IsAmount (λ k. ground arith) (λ k. ground arith) (ok-injective h)

module _ (double : Double) where
  open double use {Number}

  module _ (freq : Tenor) (notional rate : Number) (rule : DayCountRule) (opts : Options) where
    pub make_cashflow-IsCoupon :
        (s e : Date) (cf : CashflowStruct Number)
        → make_cashflow double (generate_day_counter rule) freq notional rate rule opts s e ≡ ok cf
        → IsCoupon double freq notional rate rule opts s e cf
    unfolding make_cashflow compute_coupon
    make_cashflow-IsCoupon s e cf h =
        let (a, moved_a, h₁) = chain_ok (adjust_business opts.start_adjustment s) _ cf h in
        let (b, moved_b, h₂) = chain_ok (adjust_business opts.end_adjustment e) _ cf h₁ in
        let (p, moved_p, h₃) = chain_ok (adjust_business opts.pay_adjustment b) _ cf h₂ in
        let (counter, found, h₄) = chain_ok (dereference (generate_day_counter rule)) _ cf h₃ in
        let (count, counted, h₅) = chain_ok (day_count counter a b) _ cf h₄ in
        let (fraction, parted, h₆) = chain_ok (year_fraction double counter a b) _ cf h₅ in
        let (f, fixed, h₇) = chain_ok (fixing_date opts a b) _ cf h₆ in
        let (amount, made, h₈) = chain_ok _ _ cf h₇ in
        subst (IsCoupon double freq notional rate rule opts s e) (ok-injective h₈) (record {
          period_start = refl;
          period_end = refl;
          starts = adjust_business-IsMoved opts.start_adjustment s a moved_a;
          ends = adjust_business-IsMoved opts.end_adjustment e b moved_b;
          paid = adjust_business-IsMoved opts.pay_adjustment b p moved_p;
          fixed_on = fixing_date-IsFixed opts a b f fixed;
          counter = counter;
          of_rule = dereference-some (generate_day_counter rule) counter found;
          counted = counted;
          part = parted;
          on_notional = refl;
          at_rate = refl;
          amount = coupon_amount-IsAmount double freq rule opts _ amount made;
          no_npv = refl;
          in_currency = refl;
          of_type = refl;
        })
