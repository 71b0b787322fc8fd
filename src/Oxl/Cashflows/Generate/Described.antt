-- ===== src/Oxl/Cashflows/Generate/Described.antt =====
-- The bond that a dictionary describes to `OxlGenerateCashflow` (src/oxl/time_xl.cpp): where each of
-- its terms and options is from.
use odin_analytics.Time.Calendar.{Calendar}
use odin_analytics.StaticDataCache.Services.{request}
use odin_analytics.Oxl.Cashflows.{retrieve_xl_dict}
use odin_analytics.Prelude.{◌≡◌, true, false, Option, none, some, ok, if◌then◌else◌}
use odin_analytics.Prelude.Int.{pos, ◌+ℤ◌}
use odin_analytics.Prelude.Double.{Double}
use odin_analytics.Prelude.Text.{Text, codes}
use odin_analytics.Time.Date.{Date, add_tenor}
use odin_analytics.Time.Date.Parse.{from_string}
use odin_analytics.Time.Tenor.{Tenor}
use odin_analytics.Time.Tenor.Parse.{check_tenor_str, tenor_from_string}
use odin_analytics.Time.Mappers.{map_input_to_day_count_enum}
use odin_analytics.DerivedTime.Enums.{
  StubType, CalcType, Frequency, no_stub, flat, usd, fixed, advance,
}
use odin_analytics.DerivedTime.Mappers.{
  map_input_to_date_dir, map_input_to_freq, map_input_to_stub, map_input_to_calc_type,
}
use odin_analytics.DerivedTime.Formula.{BusinessDateFormula, no_adjustment}
use odin_analytics.DerivedTime.CashflowGen.{Options}
use odin_analytics.DerivedTime.CashflowGen.Coupon.{map_reset_freq_enum_to_tenor}
use odin_analytics.StaticDataCache.CalendarCache.{Cache}
use odin_analytics.StaticDataCache.Services.{Services}
use odin_analytics.Oxl.Variant.{XlVariant, number, string}
use odin_analytics.Oxl.StdMap.{contains, find_key}
use odin_analytics.Oxl.Dictionary.{XlDictionary}
use odin_analytics.Oxl.Cache.{CacheMap}
use odin_analytics.Oxl.Cashflows.Generate.Readings.{or_else, HasText, IsNamed}
use odin_analytics.Oxl.Cashflows.Generate.{Terms}

module _ (double : Double) (services : Services) (dictionary : XlDictionary (double.Number)) where
  open double use {Number, to_int}

  -- The date that a cell holds, as a number of Excel or as a text.
  pub data IsDateCell : XlVariant Number → Date → Type 0 where
    excel_date :
        (x : Number) (date : Date)
        → date.julian ≡ to_int x +ℤ pos 2415019
        → IsDateCell (number x) date
    date_text : (s : Text) (date : Date) → from_string s ≡ ok date → IsDateCell (string s) date

  -- Maturity is the date of a number, or a tenor after the start date.
  pub data IsMaturity : Date → Date → Type 0 where
    on_date :
        (x : Number) (start_date mat_date : Date)
        → find_key (codes "Mat_Date") dictionary ≡ some (number x)
        → mat_date.julian ≡ to_int x +ℤ pos 2415019
        → IsMaturity start_date mat_date
    after_tenor :
        (s : Text) (t : Tenor) (start_date mat_date : Date)
        → HasText dictionary (codes "Mat_Date") s
        → tenor_from_string services.unit_cast s ≡ ok t
        → add_tenor start_date t ≡ ok mat_date
        → IsMaturity start_date mat_date

  -- The tenor that a text is, or that of the frequency that it names.
  pub data IsFrequency (s : Text) (t : Tenor) : Type 0 where
    as_tenor :
        check_tenor_str s ≡ true → tenor_from_string services.unit_cast s ≡ ok t → IsFrequency s t
    as_name :
        (freq : Frequency)
        → check_tenor_str s ≡ false
        → map_input_to_freq s ≡ ok freq
        → map_reset_freq_enum_to_tenor freq ≡ ok t
        → IsFrequency s t

  pub record AreTerms (terms : Terms Number) : Type 0 where
    pub start_cell : XlVariant Number
    pub start_found : find_key (codes "Start_Date") dictionary ≡ some start_cell
    pub starts : IsDateCell start_cell terms.start_date
    pub matures : IsMaturity terms.start_date terms.mat_date
    pub notional_found : find_key (codes "Notional") dictionary ≡ some (number terms.notional)
    pub rate_found : find_key (codes "Rate") dictionary ≡ some (number terms.rate)
    pub rule_name : Text
    pub rule_found : HasText dictionary (codes "Day_Count_Frac") rule_name
    pub counted : map_input_to_day_count_enum rule_name ≡ ok terms.rule
    pub freq_name : Text
    pub freq_found : HasText dictionary (codes "Frequency") freq_name
    pub resets : IsFrequency freq_name terms.freq

  -- An adjustment by the rule that a key refers to, if the key is there: by the number of days and
  -- the calendar that stand in the dictionary whose handle is under the key.
  pub data IsRule (objects : CacheMap Number) (key : Text)
      : Option BusinessDateFormula → Type 0 where
    no_rule : find_key key dictionary ≡ none → IsRule objects key none
    by_rule :
        (f : BusinessDateFormula) (rules : XlDictionary Number) (x : Number) (centers : Text)
        (c : Calendar) (cache later : Cache)
        → retrieve_xl_dict dictionary key objects ≡ ok rules
        → find_key (codes "Days") rules ≡ some (number x)
        → HasText rules (codes "Calendar") centers
        → request services centers cache ≡ ok (c, later)
        → f.num_of_business_days ≡ to_int x
        → f.calendar ≡ some c
        → IsRule objects key (some f)

  -- The adjustments of start and end dates are by one rule, if its key is there, or each by its own.
  abbrev pub accrual_key : Text → Text
  accrual_key own = if contains (codes "Acc_Adj_Rule") dictionary then codes "Acc_Adj_Rule" else own

  pub record AreOptions (objects : CacheMap Number) (opts : Options) : Type 0 where
    pub direction_name : Text
    pub direction_found : HasText dictionary (codes "Date_Dir") direction_name
    pub goes : map_input_to_date_dir direction_name ≡ ok opts.date_direction
    pub front : Option StubType
    pub back : Option StubType
    pub front_named : IsNamed dictionary (codes "Front_Stub_Type") map_input_to_stub front
    pub front_set : opts.front_stub_type ≡ or_else front no_stub
    pub back_named : IsNamed dictionary (codes "Back_Stub_Type") map_input_to_stub back
    pub back_set : opts.back_stub_type ≡ or_else back no_stub
    pub fixing : Option BusinessDateFormula
    pub fixing_rule : IsRule objects (codes "Fixing_Date_Rule") fixing
    pub fixing_set : opts.fix_adjustment ≡ or_else fixing no_adjustment
    pub paying : Option BusinessDateFormula
    pub paying_rule : IsRule objects (codes "Payment_Date_Rule") paying
    pub paying_set : opts.pay_adjustment ≡ or_else paying no_adjustment
    pub starting : Option BusinessDateFormula
    pub starting_rule : IsRule objects (accrual_key (codes "Start_Adj_Rule")) starting
    pub starting_set : opts.start_adjustment ≡ or_else starting no_adjustment
    pub ending : Option BusinessDateFormula
    pub ending_rule : IsRule objects (accrual_key (codes "End_Adj_Rule")) ending
    pub ending_set : opts.end_adjustment ≡ or_else ending no_adjustment
    pub calculation : Option CalcType
    pub calculation_named :
        IsNamed dictionary (codes "Calc_Type") map_input_to_calc_type calculation
    pub calculation_set : opts.calc_type ≡ or_else calculation flat
    pub in_dollars : opts.currency ≡ usd
    pub of_fixed : opts.cashflow_type ≡ fixed
    pub reset_first : opts.reset_direction ≡ advance
