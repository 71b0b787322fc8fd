-- ===== src/Oxl/Cashflows/Generate/Examples.antt =====
-- `OxlGenerateCashflow` (src/oxl/time_xl.cpp) for a bond of one year.
use odin_analytics.Prelude.{List, [], ◌∷◌, none}
use odin_analytics.Prelude.Int.{ℤ, pos}
use odin_analytics.Prelude.Double.{numerators}
use odin_analytics.Prelude.Text.{Text, codes}
use odin_analytics.DerivedTime.Enums.{Currency, CashflowType}
use odin_analytics.Dao.{no_file}
use odin_analytics.StaticDataCache.Services.{Services}
use odin_analytics.Oxl.Variant.{XlVariant, number, string}
use odin_analytics.Oxl.Dictionary.{XlDictionary}
use odin_analytics.Oxl.Array.{XlArray, xl_array}
use odin_analytics.Oxl.Cashflows.{header_row}

first_text : List Text → Text
first_text [] = []
first_text (s ∷ ss) = s

abbrev services : Services
services = record {
  weekday_cast = λ c. none;
  unit_cast = λ c. none;
  split = λ s. s ∷ [];
  join = first_text;
  files = λ path. no_file;
}

currency_name : Currency → Text
currency_name c = codes "kUSD"

type_name : CashflowType → Text
type_name t = codes "kFixed"

-- Daily flows from one day to the next.
abbrev bond : XlDictionary ℤ
bond =
    (codes "Date_Dir", string (codes "FWD"))
    ∷ (codes "Day_Count_Frac", string (codes "ACT360"))
    ∷ (codes "Frequency", string (codes "D"))
    ∷ (codes "Front_Stub_Type", string (codes "NONE"))
    ∷ (codes "Mat_Date", number (pos 44744))
    ∷ (codes "Notional", number (pos 100))
    ∷ (codes "Rate", number (pos 5))
    ∷ (codes "Start_Date", number (pos 44743))
    ∷ []

abbrev period_cells : List (XlVariant ℤ) → List (XlVariant ℤ)
period_cells amounts =
    number (pos 44743)
    ∷ number (pos 44744)
    ∷ number (pos 44743)
    ∷ number (pos 44744)
    ∷ number (pos 44743)
    ∷ number (pos 44744)
    ∷ amounts

abbrev last_cells : List (XlVariant ℤ)
last_cells =
    number (pos 0)
    ∷ number (pos 1)
    ∷ number (pos 1)
    ∷ string (codes "USD")
    ∷ string (codes "Fixed")
    ∷ []

abbrev coupon_and_repayment : XlArray ℤ
coupon_and_repayment = xl_array 3 14 (
    header_row numerators
    ∷ period_cells (number (pos 100) ∷ number (pos 5) ∷ number (pos 500) ∷ last_cells)
    ∷ period_cells (number (pos 100) ∷ number (pos 1) ∷ number (pos 100) ∷ last_cells)
    ∷ [])
