-- ===== src/DerivedTime/CashflowGen/Coupon/Examples.antt =====
-- The cash flows of a bond of one month, over integers in place of floating-point numbers.
use odin_analytics.Prelude.{◌≡◌, refl, List, [], ◌∷◌, ok, err, undefined}
use odin_analytics.Prelude.Int.{ℤ, pos, ◌+ℤ◌, ◌-ℤ◌, ◌*ℤ◌, ◌≤ℤ◌, quot, rem}
use odin_analytics.Prelude.Double.{numerators}
use odin_analytics.Time.Enums.{months, act_360}
use odin_analytics.Time.Tenor.{Tenor, tenor}
use odin_analytics.Time.Date.{
  Date, from_julian, default_date, add_tenor, add_months, shift_month, from_ymd, days_in_month,
  is_leap_year, ymd, convert_to_julian, plus_int,
}
use odin_analytics.Time.DayCount.{generate_day_counter, day_count, actual_days, year_fraction}
use odin_analytics.DerivedTime.Enums.{usd, fixed, forward, advance, no_stub, flat}
use odin_analytics.DerivedTime.Formula.{no_adjustment, adjust_business, is_nonzero}
use odin_analytics.DerivedTime.CashflowGen.{
  Options, Schedule, default_options, unadjusted_dates, forward_dates, period_dates, is_stub,
}
use odin_analytics.DerivedTime.CashflowGen.Coupon.{
  CashflowStruct, create_fixed_cashflows, make_cashflow, make_cashflows, add_principal,
  compute_coupon, fixing_date, dereference, principal_of,
}
use odin_analytics.DerivedTime.CashflowGen.Coupon.Flows.{
  AreCoupons, IsRepaid, create_fixed_cashflows-same_day,
}
use odin_analytics.Prelude.{arith}
use odin_analytics.DerivedTime.CashflowGen.Dates.{IsForward}
use odin_analytics.DerivedTime.CashflowGen.Coupon.Bond.{create_fixed_cashflows-IsForward}

abbrev first_of_march : Date
first_of_march = from_julian (pos 2460371)

abbrev first_of_april : Date
first_of_april = from_julian (pos 2460402)

abbrev one_month : Tenor
one_month = tenor (pos 1) months

abbrev forward_options : Options
forward_options = record {
  calc_type = flat;
  currency = usd;
  date_direction = forward;
  cashflow_type = fixed;
  reset_direction = advance;
  front_stub_type = no_stub;
  front_stub_date = default_date;
  back_stub_type = no_stub;
  back_stub_date = default_date;
  start_adjustment = no_adjustment;
  end_adjustment = no_adjustment;
  pay_adjustment = no_adjustment;
  fix_adjustment = no_adjustment;
}

-- 31 days of a notional amount of 100 at the rate 2.
abbrev march_coupon : CashflowStruct ℤ
march_coupon = record {
  unadj_start_date = first_of_march;
  unadj_end_date = first_of_april;
  start_date = first_of_march;
  end_date = first_of_april;
  fixing_date = first_of_march;
  payment_date = first_of_april;
  notional = pos 100;
  rate = pos 2;
  cashflow_amount = pos 6200;
  npv_cashflow_amount = pos 0;
  days = pos 31;
  day_count_fraction = pos 31;
  cf_curr = usd;
  cf_type = fixed;
}

abbrev march_flows : List (CashflowStruct ℤ)
march_flows = march_coupon ∷ principal_of numerators (pos 100) march_coupon ∷ []

march_run :
    create_fixed_cashflows numerators first_of_march first_of_april one_month
      (pos 100)
      (pos 2)
      act_360
      forward_options
    ≡ ok march_flows
unfolding create_fixed_cashflows period_dates unadjusted_dates forward_dates is_stub add_tenor
    add_months shift_month from_ymd days_in_month is_leap_year ymd convert_to_julian make_cashflows
    make_cashflow adjust_business plus_int generate_day_counter dereference day_count actual_days
    year_fraction fixing_date is_nonzero compute_coupon add_principal ◌+ℤ◌ ◌-ℤ◌ ◌*ℤ◌ quot rem
march_run = refl

create_fixed_cashflows-IsForward_example :
    (dates : Schedule) × (coupons : List (CashflowStruct ℤ)) × IsForward first_of_march
      first_of_april 1 months dates
    × AreCoupons numerators one_month
        (pos 100)
        (pos 2)
        act_360
        forward_options
        dates.starts
        dates.ends
        coupons
    × IsRepaid numerators (pos 100) coupons march_flows
    × (pos 2460371 ≤ℤ pos 2460402)
create_fixed_cashflows-IsForward_example =
    create_fixed_cashflows-IsForward numerators first_of_march first_of_april 1 months (pos 100)
      (pos 2) act_360 forward_options march_flows (omega arith) (omega arith) refl refl refl
      march_run

create_fixed_cashflows-same_day_example :
    create_fixed_cashflows numerators first_of_march first_of_march one_month
      (pos 100)
      (pos 2)
      act_360
      default_options
    ≡ err undefined
create_fixed_cashflows-same_day_example =
    create_fixed_cashflows-same_day numerators first_of_march first_of_march one_month (pos 100)
      (pos 2) act_360 default_options refl refl refl
