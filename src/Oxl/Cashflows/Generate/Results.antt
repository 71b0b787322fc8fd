-- ===== src/Oxl/Cashflows/Generate/Results.antt =====
-- What `OxlGenerateCashflow` (src/oxl/time_xl.cpp) returns.
use odin_analytics.Prelude.{suc, ◌≡◌, true, List, [], ◌∷◌, length, ok}
use odin_analytics.Prelude.Int.{◌≤ℤ◌}
use odin_analytics.Prelude.Double.{Double}
use odin_analytics.Prelude.Text.{Text}
use odin_analytics.DerivedTime.Enums.{Currency, CashflowType}
use odin_analytics.DerivedTime.CashflowGen.{Options, Schedule, period_dates}
use odin_analytics.DerivedTime.CashflowGen.Coupon.{CashflowStruct}
use odin_analytics.DerivedTime.CashflowGen.Coupon.Flows.{AreCoupons, IsRepaid}
use odin_analytics.StaticDataCache.CalendarCache.{Cache}
use odin_analytics.StaticDataCache.Services.{Services}
use odin_analytics.Oxl.Variant.{XlVariant, string}
use odin_analytics.Oxl.Dictionary.{XlDictionary}
use odin_analytics.Oxl.Array.{XlArray, xl_array}
use odin_analytics.Oxl.Cache.{CacheMap}
use odin_analytics.Oxl.Cashflows.{header_row, valid_cashflow_gen_dictionary}
use odin_analytics.Oxl.Cashflows.Rows.{AreRows}
use odin_analytics.Oxl.Cashflows.Generate.Keys.{LacksKey, required_message}
use odin_analytics.Oxl.Cashflows.Generate.Described.{AreTerms, AreOptions}
use odin_analytics.Oxl.Cashflows.Generate.{Terms, options_from}

module _ (double : Double) (services : Services) (currency_name : Currency → Text)
    (type_name : CashflowType → Text) (dictionary : XlDictionary (double.Number))
    (objects : CacheMap (double.Number)) (cache : Cache) where
  open double use {Number}

  -- The array of the error, with the cache as it was; or the array of the bond's cash flows.
  pub data IsGenerated : XlArray Number → Cache → Type 0 where
    refused :
        LacksKey dictionary → IsGenerated (xl_array 1 1 ((string required_message ∷ []) ∷ [])) cache
    generated :
        (terms : Terms Number) (opts : Options) (later : Cache) (dates : Schedule)
        (coupons cfs : List (CashflowStruct Number)) (rows : List (List (XlVariant Number)))
        → valid_cashflow_gen_dictionary dictionary ≡ true
        → AreTerms double services dictionary terms
        → AreOptions double services dictionary objects opts
        → options_from double services dictionary objects cache ≡ ok (opts, later)
        → period_dates terms.start_date terms.mat_date terms.freq opts ≡ ok dates
        → AreCoupons double terms.freq terms.notional terms.rate terms.rule opts dates.starts
            dates.ends coupons
        → IsRepaid double terms.notional coupons cfs
        → terms.start_date.julian ≤ℤ terms.mat_date.julian
        → AreRows double currency_name type_name cfs rows
        → IsGenerated (xl_array (suc (length cfs)) 14 (header_row double ∷ rows)) later
