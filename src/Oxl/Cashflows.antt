-- ===== src/Oxl/Cashflows.antt =====
-- src/oxl/xl_api/excel_base.cpp and `OxlGenerateCashflow` of src/oxl/time_xl.cpp: the cash flows of
-- a bond that a dictionary describes, as an array of cells.
pub mod Rows
pub mod Generate
use odin_analytics.Prelude.{
  ℕ, zero, suc, Bool, true, false, not, ◌&&◌, ◌||◌, if◌then◌else◌, List, [], ◌∷◌, length, Option,
  some, none, Result, ok, err, ◌>>=◌, out_of_range, runtime_error, bad_variant_access,
}
use odin_analytics.Prelude.Int.{ℤ, pos}
use odin_analytics.Prelude.Double.{Double}
use odin_analytics.Prelude.Text.{Text, codes}
use odin_analytics.Time.Tenor.{Tenor}
use odin_analytics.Time.Tenor.Parse.{check_tenor_str, tenor_from_string}
use odin_analytics.Time.Mappers.{map_input_to_day_count_enum}
use odin_analytics.DerivedTime.Enums.{Currency, CashflowType, fixed, floating, principal, equity}
use odin_analytics.DerivedTime.Mappers.{
  map_input_to_date_dir, map_input_to_freq, map_input_to_stub, map_input_to_calc_type,
}
use odin_analytics.DerivedTime.Formula.{BusinessDateFormula}
use odin_analytics.DerivedTime.CachedFormula.{business_date_formula}
use odin_analytics.DerivedTime.CashflowGen.{Options, default_options}
use odin_analytics.DerivedTime.CashflowGen.Setters.{
  set_date_direction, set_front_stub_type, set_back_stub_type, set_fix_adjustment,
  set_pay_adjustment, set_start_adjustment, set_end_adjustment, set_calc_type,
}
use odin_analytics.DerivedTime.CashflowGen.Coupon.{
  CashflowStruct, create_fixed_cashflows, map_reset_freq_enum_to_tenor,
}
use odin_analytics.StaticDataCache.CalendarCache.{Cache}
use odin_analytics.StaticDataCache.Services.{Services}
use odin_analytics.Oxl.Variant.{XlVariant, number, string, get_number, get_string}
use odin_analytics.Oxl.StdMap.{contains}
use odin_analytics.Oxl.Dictionary.{XlDictionary, at, subscript}
use odin_analytics.Oxl.Array.{XlArray, filled, assign_cell, assign_row, from_lists}
use odin_analytics.Oxl.Cache.{
  CachedObjVar, cached_array, cached_dictionary, CacheMap, get_key_from_handle, is_dictionary,
  get_variant,
}
use odin_analytics.Oxl.Dates.{to_excel_date, to_date_obj, handle_mat_date}

-- `GetCleanName` of the name that magic_enum gives: without its first character, where `substr(1)`
-- of an empty name throws.
unfoldable pub clean_name : Text → Result Text
clean_name [] = err out_of_range
clean_name (c ∷ cs) = ok cs

module _ {ℓ} {N : Type ℓ} where
  unfoldable pub get_dictionary : CachedObjVar N → Result (XlDictionary N)
  get_dictionary (cached_array a) = err bad_variant_access
  get_dictionary (cached_dictionary d) = ok d

  unfoldable pub retrieve_xl_dict : XlDictionary N → Text → CacheMap N → Result (XlDictionary N)
  retrieve_xl_dict dictionary cached_str objects = at cached_str dictionary >>= λ cell.
      get_string cell >>= λ handle.
      is_dictionary (get_key_from_handle handle) objects >>= λ is_valid.
      if not is_valid
      then err runtime_error
      else get_variant (get_key_from_handle handle) objects >>= λ obj. get_dictionary obj

  unfoldable pub valid_business_date_dictionary : XlDictionary N → Bool
  valid_business_date_dictionary dict =
      contains (codes "Days") dict && contains (codes "Calendar") dict

  unfoldable pub valid_cashflow_gen_dictionary : XlDictionary N → Bool
  valid_cashflow_gen_dictionary dictionary =
      contains (codes "Start_Date") dictionary
      && contains (codes "Mat_Date") dictionary
      && contains (codes "Notional") dictionary
      && contains (codes "Rate") dictionary
      && contains (codes "Day_Count_Frac") dictionary
      && contains (codes "Frequency") dictionary
      && contains (codes "Date_Dir") dictionary
      && (contains (codes "Front_Stub_Type") dictionary
          || contains (codes "Back_Stub_Type") dictionary)

  -- A text of the dictionary, if it has the key, sets an option to the enumerator that the text
  -- names.
  unfoldable pub set_named :
      {A : Type 0}
      → Text
      → (Text → Result A)
      → (A → Options → Options)
      → XlDictionary N
      → Options
      → Result Options
  set_named key named setter dictionary opts =
      if contains key dictionary
      then (at key dictionary >>= λ cell.
          get_string cell >>= λ name. named name >>= λ value. ok (setter value opts))
      else ok opts

module _ (double : Double) where
  open double use {Number, of_int, to_int}

  abbrev pub blank : XlVariant Number
  blank = number (of_int (pos 0))

  abbrev pub header_row : List (XlVariant Number)
  header_row =
      string (codes "Unadj_Start_Date")
      ∷ string (codes "Unadj_End_Date")
      ∷ string (codes "Start_Date")
      ∷ string (codes "End_Date")
      ∷ string (codes "Fixing_Date")
      ∷ string (codes "Payment_Date")
      ∷ string (codes "Notional")
      ∷ string (codes "Rate")
      ∷ string (codes "Fwd_Cashflow_PV")
      ∷ string (codes "Cashflow_NPV")
      ∷ string (codes "Day_Count")
      ∷ string (codes "Day_Count_Fraction")
      ∷ string (codes "Currency")
      ∷ string (codes "Cashflow_Type")
      ∷ []

  abbrev pub cells_of : CashflowStruct Number → Text → Text → List (XlVariant Number)
  cells_of cf currency kind =
      number (to_excel_date double cf.unadj_start_date)
      ∷ number (to_excel_date double cf.unadj_end_date)
      ∷ number (to_excel_date double cf.start_date)
      ∷ number (to_excel_date double cf.end_date)
      ∷ number (to_excel_date double cf.fixing_date)
      ∷ number (to_excel_date double cf.payment_date)
      ∷ number cf.notional
      ∷ number cf.rate
      ∷ number cf.cashflow_amount
      ∷ number cf.npv_cashflow_amount
      ∷ number (of_int cf.days)
      ∷ number cf.day_count_fraction
      ∷ string currency
      ∷ string kind
      ∷ []

  -- magic_enum's `enum_name` for the two enumerations is a parameter.
  module _ (currency_name : Currency → Text) (type_name : CashflowType → Text) where
    unfoldable pub cashflow_row : CashflowStruct Number → Result (List (XlVariant Number))
    cashflow_row cf = clean_name (currency_name cf.cf_curr) >>= λ currency.
        clean_name (type_name cf.cf_type) >>= λ kind. ok (cells_of cf currency kind)

    -- The loop over the rows, from an index on.
    unfoldable pub fill_rows :
        List (CashflowStruct Number) → ℕ → XlArray Number → Result (XlArray Number)
    fill_rows [] i xl_results = ok xl_results
    fill_rows (cf ∷ cfs) i xl_results = cashflow_row cf >>= λ cells.
        assign_row xl_results i cells >>= λ next. fill_rows cfs (suc i) next

    -- `ConvertCFStructToXlArray` for fixed cash flows, and for the other types.
    fixed_array : List (CashflowStruct Number) → Result (XlArray Number)
    fixed_array cfs = assign_row (filled (suc (length cfs)) 14 blank) 0 header_row >>= λ headed.
        fill_rows cfs 1 headed

    other_array : Result (XlArray Number)
    other_array = assign_cell (filled 1 1 blank) 0 0 (string (codes "Invalid input was given"))

    unfoldable pub convert_cf_struct_to_xl_array :
        List (CashflowStruct Number) → CashflowType → Result (XlArray Number)
    unfolding fixed_array other_array
    convert_cf_struct_to_xl_array cfs fixed = fixed_array cfs
    convert_cf_struct_to_xl_array cfs floating = other_array
    convert_cf_struct_to_xl_array cfs principal = other_array
    convert_cf_struct_to_xl_array cfs equity = other_array
