-- ===== src/DerivedTime/CashflowGen/Coupon.antt =====
-- The cash flows of `CreateFixedCashflows` (src/derived_time/cashflow_gen/cashflow_gen.cpp): their
-- dates, day counts and amounts.
pub mod Periods
pub mod Flows
pub mod Bond
pub mod Success
mod Examples
use odin_analytics.Prelude.{
  ℕ, Bool, true, false, not, if◌then◌else◌, List, [], ◌∷◌, ◌++◌, Option, none, some, Result, ok,
  err, ◌>>=◌, undefined, invalid_argument, out_of_range,
}
use odin_analytics.Prelude.Int.{ℤ, pos}
use odin_analytics.Prelude.Double.{Double}
use odin_analytics.Time.Enums.{
  Tenors, days, weeks, months, years, DayCountRule, act_act, actb_actb, thirty_360_bond_basis,
  thirty_e_360_isda, thirty_360_e_eurobond, act_360, act_365_fixed,
}
use odin_analytics.Time.Tenor.{Tenor, tenor}
use odin_analytics.Time.Date.{Date, is_leap, date_lt}
use odin_analytics.Time.DayCount.{DayCounter, day_count, year_fraction, generate_day_counter}
use odin_analytics.DerivedTime.Enums.{
  Currency, CashflowType, principal, ResetDirection, advance, in_arears, Frequency, once, annual,
  semi_annual, quarterly, monthly, weekly, daily, CalcType, flat, compounding, bbg_calc_type_1,
  ust_street_conv, bbg_calc_type_2,
}
use odin_analytics.DerivedTime.Formula.{BusinessDateFormula, adjust_business, is_nonzero}
use odin_analytics.DerivedTime.CashflowGen.{Options, Schedule, period_dates}

-- `CashflowStruct`, over the type of floating-point numbers.
pub record CashflowStruct (Number : Type 0) : Type 0 where
  pub unadj_start_date : Date
  pub unadj_end_date : Date
  pub start_date : Date
  pub end_date : Date
  pub fixing_date : Date
  pub payment_date : Date
  pub notional : Number
  pub rate : Number
  pub cashflow_amount : Number
  pub npv_cashflow_amount : Number
  pub days : ℤ
  pub day_count_fraction : Number
  pub cf_curr : Currency
  pub cf_type : CashflowType

unfoldable pub day_count_denominator : DayCountRule → Bool → ℤ
day_count_denominator act_act is_leap_year = if is_leap_year then pos 366 else pos 365
day_count_denominator act_365_fixed is_leap_year = pos 365
day_count_denominator act_360 is_leap_year = pos 360
day_count_denominator thirty_360_bond_basis is_leap_year = pos 360
day_count_denominator actb_actb is_leap_year = pos 365
day_count_denominator thirty_e_360_isda is_leap_year = pos 365
day_count_denominator thirty_360_e_eurobond is_leap_year = pos 365

-- The map has no entry for `kOnce`, where `at` throws.
unfoldable pub map_reset_freq_enum_to_tenor : Frequency → Result Tenor
map_reset_freq_enum_to_tenor annual = ok (tenor (pos 1) years)
map_reset_freq_enum_to_tenor semi_annual = ok (tenor (pos 6) months)
map_reset_freq_enum_to_tenor quarterly = ok (tenor (pos 3) months)
map_reset_freq_enum_to_tenor monthly = ok (tenor (pos 1) months)
map_reset_freq_enum_to_tenor weekly = ok (tenor (pos 1) weeks)
map_reset_freq_enum_to_tenor daily = ok (tenor (pos 1) days)
map_reset_freq_enum_to_tenor once = err out_of_range

-- The date that is fixed: the start of the period, moved if there is an adjustment; in arrears, its
-- end.
unfoldable pub fixing_date : Options → Date → Date → Result Date
fixing_date opts start_date end_date =
    if not (is_nonzero opts.fix_adjustment) then ok start_date else elim opts.reset_direction [
      | advance ↦ adjust_business opts.fix_adjustment start_date
      | in_arears ↦ adjust_business opts.fix_adjustment end_date
    ]

-- The use of the pointer to the counter, which is null for the rule that has none.
unfoldable pub dereference : Option DayCounter → Result DayCounter
dereference none = err undefined
dereference (some counter) = ok counter

module _ (double : Double) where
  open double use {Number, of_int, mul, div}

  -- The coupon of one of the reset units: `notional * rate * (1 / n) * count`.
  unfoldable pub ust_coupon : CashflowStruct Number → Tenors → ℤ → DayCountRule → Number
  ust_coupon cf years count rule = mul (mul cf.notional cf.rate) (of_int count)
  ust_coupon cf months count rule =
      mul (mul (mul cf.notional cf.rate) (div (of_int (pos 1)) (of_int (pos 12)))) (of_int count)
  ust_coupon cf weeks count rule =
      mul (mul (mul cf.notional cf.rate) (div (of_int (pos 1)) (of_int (pos 52)))) (of_int count)
  ust_coupon cf days count rule =
      mul
        (mul (mul cf.notional cf.rate)
          (div (of_int (pos 1)) (of_int (day_count_denominator rule (is_leap cf.fixing_date)))))
        (of_int count)

  unfoldable pub compute_ust_street_conv_coupon :
      CashflowStruct Number → Tenor → DayCountRule → Number
  unfolding ust_coupon
  compute_ust_street_conv_coupon cf freq rule = ust_coupon cf freq.unit freq.count rule

  abbrev pub with_amount : CashflowStruct Number → Number → CashflowStruct Number
  with_amount cf amount = record {
    unadj_start_date = cf.unadj_start_date;
    unadj_end_date = cf.unadj_end_date;
    start_date = cf.start_date;
    end_date = cf.end_date;
    fixing_date = cf.fixing_date;
    payment_date = cf.payment_date;
    notional = cf.notional;
    rate = cf.rate;
    cashflow_amount = amount;
    npv_cashflow_amount = cf.npv_cashflow_amount;
    days = cf.days;
    day_count_fraction = cf.day_count_fraction;
    cf_curr = cf.cf_curr;
    cf_type = cf.cf_type;
  }

  unfoldable pub coupon_amount :
      CalcType → CashflowStruct Number → Tenor → DayCountRule → Result Number
  coupon_amount flat cf freq rule = ok (mul (mul cf.notional cf.rate) cf.day_count_fraction)
  coupon_amount bbg_calc_type_1 cf freq rule = ok (compute_ust_street_conv_coupon cf freq rule)
  coupon_amount bbg_calc_type_2 cf freq rule = ok (compute_ust_street_conv_coupon cf freq rule)
  coupon_amount ust_street_conv cf freq rule = ok (compute_ust_street_conv_coupon cf freq rule)
  coupon_amount compounding cf freq rule = err invalid_argument

  unfoldable pub compute_coupon :
      CashflowStruct Number → Tenor → Options → DayCountRule → Result (CashflowStruct Number)
  unfolding coupon_amount
  compute_coupon cf freq opts rule =
      coupon_amount opts.calc_type cf freq rule >>= λ amount. ok (with_amount cf amount)

  -- One round of the loop over the periods. `cf{}` has zeros where nothing is assigned.
  unfoldable pub make_cashflow :
      Option DayCounter
      → Tenor
      → Number
      → Number
      → DayCountRule
      → Options
      → Date
      → Date
      → Result (CashflowStruct Number)
  make_cashflow maybe_counter freq notional rate rule opts unadj_start unadj_end =
      adjust_business opts.start_adjustment unadj_start >>= λ start_date.
      adjust_business opts.end_adjustment unadj_end >>= λ end_date.
      adjust_business opts.pay_adjustment end_date >>= λ payment_date.
      dereference maybe_counter >>= λ counter. day_count counter start_date end_date >>= λ count.
      year_fraction double counter start_date end_date >>= λ fraction.
      fixing_date opts start_date end_date >>= λ fixed_on.
      compute_coupon
        (record {
          unadj_start_date = unadj_start;
          unadj_end_date = unadj_end;
          start_date = start_date;
          end_date = end_date;
          fixing_date = fixed_on;
          payment_date = payment_date;
          notional = notional;
          rate = rate;
          cashflow_amount = of_int (pos 0);
          npv_cashflow_amount = of_int (pos 0);
          days = count;
          day_count_fraction = fraction;
          cf_curr = opts.currency;
          cf_type = opts.cashflow_type;
        })
        freq opts rule

  -- The loop over the two vectors, which have one length.
  unfoldable pub make_cashflows :
      Option DayCounter
      → Tenor
      → Number
      → Number
      → DayCountRule
      → Options
      → List Date
      → List Date
      → Result (List (CashflowStruct Number))
  make_cashflows counter freq notional rate rule opts [] ends = ok []
  make_cashflows counter freq notional rate rule opts (s ∷ ss) [] = err undefined
  make_cashflows counter freq notional rate rule opts (s ∷ ss) (e ∷ es) =
      make_cashflow counter freq notional rate rule opts s e >>= λ cf.
      make_cashflows counter freq notional rate rule opts ss es >>= λ rest. ok (cf ∷ rest)

  abbrev pub principal_of : Number → CashflowStruct Number → CashflowStruct Number
  principal_of notional cf = record {
    unadj_start_date = cf.unadj_start_date;
    unadj_end_date = cf.unadj_end_date;
    start_date = cf.start_date;
    end_date = cf.end_date;
    fixing_date = cf.fixing_date;
    payment_date = cf.payment_date;
    notional = cf.notional;
    rate = of_int (pos 1);
    cashflow_amount = notional;
    npv_cashflow_amount = cf.npv_cashflow_amount;
    days = cf.days;
    day_count_fraction = cf.day_count_fraction;
    cf_curr = cf.cf_curr;
    cf_type = principal;
  }

  -- The repayment is a copy of the last cash flow; `back()` of an empty vector is undefined.
  unfoldable pub add_principal :
      Number → List (CashflowStruct Number) → Result (List (CashflowStruct Number))
  add_principal notional [] = err undefined
  add_principal notional (cf ∷ []) = ok (cf ∷ principal_of notional cf ∷ [])
  add_principal notional (cf ∷ next ∷ rest) =
      add_principal notional (next ∷ rest) >>= λ more. ok (cf ∷ more)

  unfoldable pub create_fixed_cashflows :
      Date
      → Date
      → Tenor
      → Number
      → Number
      → DayCountRule
      → Options
      → Result (List (CashflowStruct Number))
  create_fixed_cashflows start_date mat_date freq notional rate rule opts =
      if date_lt mat_date start_date
      then err invalid_argument
      else (period_dates start_date mat_date freq opts >>= λ dates.
          make_cashflows (generate_day_counter rule) freq notional rate rule opts dates.starts
            dates.ends
          >>= add_principal notional)

  -- The overload that takes a frequency.
  unfoldable pub create_fixed_cashflows_at :
      Date
      → Date
      → Frequency
      → Number
      → Number
      → DayCountRule
      → Options
      → Result (List (CashflowStruct Number))
  create_fixed_cashflows_at start_date mat_date freq notional rate rule opts =
      map_reset_freq_enum_to_tenor freq >>= λ tenor_freq.
      create_fixed_cashflows start_date mat_date tenor_freq notional rate rule opts
