-- ===== src/DerivedTime/CashflowGen/Coupon/Success.antt =====
-- Bonds whose cash flows `CreateFixedCashflows`
-- (src/derived_time/cashflow_gen/cashflow_gen.cpp) always makes.
use odin_analytics.Prelude.{◌≡◌, none, Result, ok}
use odin_analytics.Prelude.Double.{Double}
use odin_analytics.Time.Enums.{
  DayCountRule, act_360, act_365_fixed, thirty_360_bond_basis, thirty_360_e_eurobond,
}
use odin_analytics.Time.Tenor.{Tenor}
use odin_analytics.Time.Date.{Date}
use odin_analytics.DerivedTime.Enums.{forward, no_stub, flat}
use odin_analytics.DerivedTime.CashflowGen.{Options}

-- Conventions that count between all dates by a formula.
pub data IsSimple : DayCountRule → Type 0 where
  simple_360 : IsSimple act_360
  simple_365 : IsSimple act_365_fixed
  simple_bond_basis : IsSimple thirty_360_bond_basis
  simple_eurobond : IsSimple thirty_360_e_eurobond

-- Options for a schedule from the start date on without stubs, with adjustments that use no
-- calendar and coupons by the day count.
pub record IsPlain (opts : Options) : Type 0 where
  pub goes_forward : opts.date_direction ≡ forward
  pub no_front : opts.front_stub_type ≡ no_stub
  pub no_back : opts.back_stub_type ≡ no_stub
  pub start_naive : opts.start_adjustment.calendar ≡ none
  pub end_naive : opts.end_adjustment.calendar ≡ none
  pub pay_naive : opts.pay_adjustment.calendar ≡ none
  pub fix_naive : opts.fix_adjustment.calendar ≡ none
  pub by_day_count : opts.calc_type ≡ flat

abbrev Returns {ℓ} : {A : Type ℓ} → Result A → Type ℓ
Returns {A = A} r = (a : A) × (r ≡ ok a)
