-- ===== src/DerivedTime/CashflowGen/Setters.antt =====
-- The setters of `CashflowGen::Options` (src/derived_time/cashflow_gen/cashflow_gen.cpp), each of
-- which returns the options that it changed.
use odin_analytics.Time.Date.{Date}
use odin_analytics.DerivedTime.Enums.{
  Currency, CashflowType, DateDirection, StubType, ResetDirection, CalcType,
}
use odin_analytics.DerivedTime.Formula.{BusinessDateFormula}
use odin_analytics.DerivedTime.CashflowGen.{Options}

abbrev pub set_currency : Currency → Options → Options
set_currency ccy opts = record opts { currency = ccy }

abbrev pub set_date_direction : DateDirection → Options → Options
set_date_direction direction opts = record opts { date_direction = direction }

abbrev pub set_cashflow_type : CashflowType → Options → Options
set_cashflow_type kind opts = record opts { cashflow_type = kind }

abbrev pub set_reset_direction : ResetDirection → Options → Options
set_reset_direction direction opts = record opts { reset_direction = direction }

abbrev pub set_front_stub_type : StubType → Options → Options
set_front_stub_type kind opts = record opts { front_stub_type = kind }

abbrev pub set_back_stub_type : StubType → Options → Options
set_back_stub_type kind opts = record opts { back_stub_type = kind }

abbrev pub set_start_adjustment : BusinessDateFormula → Options → Options
set_start_adjustment adj opts = record opts { start_adjustment = adj }

abbrev pub set_end_adjustment : BusinessDateFormula → Options → Options
set_end_adjustment adj opts = record opts { end_adjustment = adj }

abbrev pub set_pay_adjustment : BusinessDateFormula → Options → Options
set_pay_adjustment adj opts = record opts { pay_adjustment = adj }

abbrev pub set_fix_adjustment : BusinessDateFormula → Options → Options
set_fix_adjustment adj opts = record opts { fix_adjustment = adj }

abbrev pub set_front_stub_date : Date → Options → Options
set_front_stub_date date opts = record opts { front_stub_date = date }

abbrev pub set_back_stub_date : Date → Options → Options
set_back_stub_date date opts = record opts { back_stub_date = date }

abbrev pub set_calc_type : CalcType → Options → Options
set_calc_type kind opts = record opts { calc_type = kind }
