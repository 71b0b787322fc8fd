-- ===== src/DerivedTime/Enums.antt =====
-- src/derived_time/derived_time_enums.h: the enumerations of the cash flow generator.

pub data Currency : Type 0 where
  usd eur gbp jpy chf aud cad nzd cny inr : Currency

pub data CashflowType : Type 0 where
  fixed floating principal equity : CashflowType

pub data DateDirection : Type 0 where
  forward backward : DateDirection

pub data StubType : Type 0 where
  no_stub short_first short_last long_first long_last : StubType

pub data ResetDirection : Type 0 where
  advance in_arears : ResetDirection

pub data Frequency : Type 0 where
  once annual semi_annual quarterly monthly weekly daily : Frequency

pub data CalcType : Type 0 where
  flat compounding bbg_calc_type_1 ust_street_conv bbg_calc_type_2 : CalcType
