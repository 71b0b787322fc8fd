-- ===== src/DerivedTime/CashflowGen/Coupon/Bond.antt =====
-- The cash flows of a bond without stubs (`CreateFixedCashflows` of
-- src/derived_time/cashflow_gen/cashflow_gen.cpp), by their periods.
use odin_analytics.Prelude.{ℕ, ◌<◌, ◌≡◌, refl, sym, ◌∙◌, subst, List, ok, ok-injective}
use odin_analytics.Prelude.Int.{pos, ◌≤ℤ◌}
use odin_analytics.Prelude.Double.{Double}
use odin_analytics.Time.Enums.{Tenors, DayCountRule}
use odin_analytics.Time.Tenor.{Tenor, tenor}
use odin_analytics.Time.Date.{Date}
use odin_analytics.Time.Date.Validity.{IsDate}
use odin_analytics.DerivedTime.Enums.{forward, no_stub}
use odin_analytics.DerivedTime.CashflowGen.{
  Options, Schedule, period_dates, unadjusted_dates, is_stub,
}
use odin_analytics.DerivedTime.CashflowGen.Dates.{IsForward, unadjusted_dates-IsForward}
use odin_analytics.DerivedTime.CashflowGen.Coupon.{CashflowStruct, create_fixed_cashflows}
use odin_analytics.DerivedTime.CashflowGen.Coupon.Flows.{
  AreCoupons, IsRepaid, create_fixed_cashflows-AreCoupons,
}

period_dates-forward :
    (start_date mat_date : Date) (freq : Tenor) (opts : Options) (dates : Schedule)
    → opts.date_direction ≡ forward
    → opts.front_stub_type ≡ no_stub
    → opts.back_stub_type ≡ no_stub
    → unadjusted_dates forward start_date mat_date freq ≡ ok dates
    → period_dates start_date mat_date freq opts ≡ ok dates
unfolding period_dates is_stub
period_dates-forward start_date mat_date freq opts dates goes front back e =
    rw (front, back, goes, e) refl

-- For options that go forward without stubs, a positive tenor and a start date from day 38 on, the
-- cash flows that are returned
-- are a coupon for each period from the start date on, at multiples of the tenor and before
-- maturity, and behind them the repayment. A coupon has its dates moved by the adjustments, the
-- count and the part of a year between them, the day on which its rate is fixed and its amount by
-- the type of calculation; the repayment has the last coupon's dates, the rate one and the whole
-- notional amount. The start is not after maturity.
pub create_fixed_cashflows-IsForward :
    (double : Double) (start_date mat_date : Date) (n : ℕ) (u : Tenors)
    (notional rate : double.Number) (rule : DayCountRule) (opts : Options)
    (all : List (CashflowStruct double.Number))
    → IsDate start_date
    → 0 < n
    → opts.date_direction ≡ forward
    → opts.front_stub_type ≡ no_stub
    → opts.back_stub_type ≡ no_stub
    → create_fixed_cashflows double start_date mat_date (tenor (pos n) u) notional rate rule opts
      ≡ ok all
    → (dates : Schedule) × (coupons : List (CashflowStruct double.Number)) × IsForward start_date
        mat_date n u dates
      × AreCoupons double (tenor (pos n) u) notional rate rule opts dates.starts dates.ends coupons
      × IsRepaid double notional coupons all
      × (start_date.julian ≤ℤ mat_date.julian)
create_fixed_cashflows-IsForward double start_date mat_date n u notional rate rule opts all valid
      n-pos goes front back h =
    let freq = tenor (pos n) u in
    let (dates, e, is_forward) = unadjusted_dates-IsForward start_date mat_date n u valid n-pos in
    let (found, coupons, d, are_coupons, is_repaid, in_order) =
      create_fixed_cashflows-AreCoupons double start_date mat_date freq notional rate rule opts all
        h in
    let same : dates ≡ found =
      ok-injective
        (sym (period_dates-forward start_date mat_date freq opts dates goes front back e) ∙ d) in
    (
      found,
      coupons,
      subst (IsForward start_date mat_date n u) same is_forward,
      are_coupons,
      is_repaid,
      in_order,
    )
