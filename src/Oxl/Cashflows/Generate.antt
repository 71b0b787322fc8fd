-- ===== src/Oxl/Cashflows/Generate.antt =====
-- `OxlGenerateCashflow` of src/oxl/time_xl.cpp, with `GetBusinessDateFormulaFromDict` of
-- src/oxl/xl_api/excel_base.cpp. The cache of calendars is handed through; after an exception
-- nothing is said of it.
pub mod Readings
pub mod Described
pub mod TermsRead
pub mod RulesRead
pub mod OptionsRead
pub mod Keys
mod Results
mod Examples
use odin_analytics.Prelude.{
  Bool, not, ◌||◌, if◌then◌else◌, List, [], ◌∷◌, Result, ok, err, ◌>>=◌, runtime_error,
}
use odin_analytics.Prelude.Double.{Double}
use odin_analytics.Prelude.Text.{Text, codes}
use odin_analytics.Time.Enums.{DayCountRule}
use odin_analytics.Time.Date.{Date}
use odin_analytics.Time.Tenor.{Tenor}
use odin_analytics.Time.Tenor.Parse.{check_tenor_str, tenor_from_string}
use odin_analytics.Time.Mappers.{map_input_to_day_count_enum}
use odin_analytics.DerivedTime.Enums.{Currency, CashflowType, fixed}
use odin_analytics.DerivedTime.Mappers.{
  map_input_to_date_dir, map_input_to_freq, map_input_to_stub, map_input_to_calc_type,
}
use odin_analytics.DerivedTime.Formula.{BusinessDateFormula}
use odin_analytics.DerivedTime.CachedFormula.{business_date_formula}
use odin_analytics.DerivedTime.CashflowGen.{Options, default_options}
use odin_analytics.DerivedTime.CashflowGen.Setters.{
  set_date_direction, set_front_stub_type, set_back_stub_type, set_fix_adjustment,
  set_pay_adjustment, set_start_adjustment, set_end_adjustment, set_calc_type,
}
use odin_analytics.DerivedTime.CashflowGen.Coupon.{
  CashflowStruct, create_fixed_cashflows, map_reset_freq_enum_to_tenor,
}
use odin_analytics.StaticDataCache.CalendarCache.{Cache}
use odin_analytics.StaticDataCache.Services.{Services}
use odin_analytics.Oxl.Variant.{XlVariant, string, get_number, get_string}
use odin_analytics.Oxl.StdMap.{contains}
use odin_analytics.Oxl.Dictionary.{XlDictionary, at, subscript}
use odin_analytics.Oxl.Array.{XlArray, from_lists}
use odin_analytics.Oxl.Cache.{CacheMap}
use odin_analytics.Oxl.Dates.{to_date_obj, handle_mat_date}
use odin_analytics.Oxl.Cashflows.{
  blank, retrieve_xl_dict, valid_business_date_dictionary, valid_cashflow_gen_dictionary, set_named,
  convert_cf_struct_to_xl_array,
}

-- The frequency's text is a tenor or names a frequency.
unfoldable pub freq_from : Services → Text → Result Tenor
freq_from services s =
    if check_tenor_str s
    then tenor_from_string services.unit_cast s
    else map_input_to_freq s >>= λ freq. map_reset_freq_enum_to_tenor freq

-- The bond that a dictionary describes.
pub record Terms (Number : Type 0) : Type 0 where
  pub start_date : Date
  pub mat_date : Date
  pub notional : Number
  pub rate : Number
  pub rule : DayCountRule
  pub freq : Tenor

module _ (double : Double) (services : Services) where
  open double use {Number, to_int}

  -- Both keys are there where the subscripts are reached, so these insert nothing.
  unfoldable pub get_business_date_formula_from_dict :
      XlDictionary Number → Text → CacheMap Number → Cache → Result (BusinessDateFormula × Cache)
  get_business_date_formula_from_dict dict date_rule_key objects cache =
      retrieve_xl_dict dict date_rule_key objects >>= λ date_rule_dict.
      if not (valid_business_date_dictionary date_rule_dict)
      then err runtime_error
      else subscript (blank double) (codes "Days") date_rule_dict >>= λ days_read.
          get_number days_read.0 >>= λ days.
          subscript (blank double) (codes "Calendar") days_read.1 >>= λ calendar_read.
          get_string calendar_read.0 >>= λ calendar.
          business_date_formula services (to_int days) calendar cache

  -- The rule under a key sets an adjustment.
  unfoldable pub apply_rule :
      Text
      → (BusinessDateFormula → Options → Options)
      → XlDictionary Number
      → CacheMap Number
      → Options × Cache
      → Result (Options × Cache)
  apply_rule key setter dictionary objects state =
      get_business_date_formula_from_dict dictionary key objects state.1 >>= λ got.
      ok (setter got.0 state.0, got.1)

  -- The same, if the dictionary has the key.
  unfoldable pub set_rule :
      Text
      → (BusinessDateFormula → Options → Options)
      → XlDictionary Number
      → CacheMap Number
      → Options × Cache
      → Result (Options × Cache)
  set_rule key setter dictionary objects state =
      if contains key dictionary then apply_rule key setter dictionary objects state else ok state

  -- The adjustments of the start and the end: by one rule for both, or each by its own.
  unfoldable pub set_accrual_rules :
      XlDictionary Number → CacheMap Number → Options × Cache → Result (Options × Cache)
  set_accrual_rules dictionary objects state =
      if contains (codes "Acc_Adj_Rule") dictionary
      then (apply_rule (codes "Acc_Adj_Rule") set_start_adjustment dictionary objects state
          >>= λ started.
              apply_rule (codes "Acc_Adj_Rule") set_end_adjustment dictionary objects started)
      else (set_rule (codes "End_Adj_Rule") set_end_adjustment dictionary objects state >>= λ ended.
          set_rule (codes "Start_Adj_Rule") set_start_adjustment dictionary objects ended)

  -- The options that the dictionary describes, with the cache of calendars afterwards.
  unfoldable pub options_from :
      XlDictionary Number → CacheMap Number → Cache → Result (Options × Cache)
  options_from dictionary objects cache = at (codes "Date_Dir") dictionary >>= λ direction_cell.
      get_string direction_cell >>= λ direction_name.
      map_input_to_date_dir direction_name >>= λ direction.
      set_named (codes "Front_Stub_Type") map_input_to_stub set_front_stub_type dictionary
        (set_date_direction direction default_options)
      >>= λ fronted.
          set_named (codes "Back_Stub_Type") map_input_to_stub set_back_stub_type dictionary fronted
          >>= λ backed.
              set_rule (codes "Fixing_Date_Rule") set_fix_adjustment dictionary objects
                (backed, cache)
              >>= λ fixing.
                  set_rule (codes "Payment_Date_Rule") set_pay_adjustment dictionary objects fixing
                  >>= λ paying. set_accrual_rules dictionary objects paying >>= λ accruing.
                      set_named (codes "Calc_Type") map_input_to_calc_type set_calc_type dictionary
                        accruing.0
                      >>= λ opts. ok (opts, accruing.1)

  -- What the function reads of the dictionary before the options.
  unfoldable pub terms_from : XlDictionary Number → Result (Terms Number)
  terms_from dictionary = at (codes "Start_Date") dictionary >>= λ start_cell.
      to_date_obj double start_cell >>= λ start_date.
      handle_mat_date double services dictionary >>= λ mat_date.
      at (codes "Notional") dictionary >>= λ notional_cell. get_number notional_cell >>= λ notional.
      at (codes "Rate") dictionary >>= λ rate_cell. get_number rate_cell >>= λ rate.
      at (codes "Day_Count_Frac") dictionary >>= λ rule_cell. get_string rule_cell >>= λ rule_name.
      map_input_to_day_count_enum rule_name >>= λ rule.
      at (codes "Frequency") dictionary >>= λ freq_cell. get_string freq_cell >>= λ freq_name.
      freq_from services freq_name >>= λ freq. ok (record {
        start_date = start_date;
        mat_date = mat_date;
        notional = notional;
        rate = rate;
        rule = rule;
        freq = freq;
      })

  unfoldable pub cashflows_of : Terms Number → Options → Result (List (CashflowStruct Number))
  cashflows_of terms opts =
      create_fixed_cashflows double terms.start_date terms.mat_date terms.freq terms.notional
        terms.rate terms.rule opts

  module _ (currency_name : Currency → Text) (type_name : CashflowType → Text) where
    unfoldable pub generate_valid :
        XlDictionary Number → CacheMap Number → Cache → Result (XlArray Number × Cache)
    generate_valid dictionary objects cache = terms_from dictionary >>= λ terms.
        options_from dictionary objects cache >>= λ opts.
        cashflows_of terms opts.0 >>= λ cf_results.
        convert_cf_struct_to_xl_array double currency_name type_name cf_results fixed >>= λ cells.
        ok (cells, opts.1)

    unfoldable pub oxl_generate_cashflow :
        XlDictionary Number → CacheMap Number → Cache → Result (XlArray Number × Cache)
    oxl_generate_cashflow dictionary objects cache =
        if valid_cashflow_gen_dictionary dictionary
        then generate_valid dictionary objects cache
        else (from_lists (
              (string (
                  codes
                    "Invalid Dictionary. Required: Start_Date, Mat_Date, Notional, Rate, Day_Count_Frac, Date_Dir, Front/Back_Stub_Type, and Frequency!")
                ∷ [])
              ∷ [])
            >>= λ cells. ok (cells, cache))
