-- ===== src/Oxl/Dates.antt =====
-- src/oxl/xl_api/xl_utils.h and the functions of dates in src/oxl/time_xl.cpp. The cache of
-- calendars is handed through; after an exception nothing is said of it.
mod Days
pub mod Questions
mod Examples
use odin_analytics.Prelude.{
  ℕ, Bool, true, false, not, Option, Result, ok, err, ◌>>=◌, if◌then◌else◌, invalid_argument,
  undefined,
}
use odin_analytics.Prelude.Int.{ℤ, pos, ◌+ℤ◌, ◌-ℤ◌}
use odin_analytics.Prelude.Double.{Double}
use odin_analytics.Prelude.Text.{Text, codes}
use odin_analytics.Time.Enums.{DayCountRule}
use odin_analytics.Time.Date.{Date, from_julian, add_tenor}
use odin_analytics.Time.Date.Parse.{from_string}
use odin_analytics.Time.Tenor.Parse.{tenor_from_string}
use odin_analytics.Time.Calendar.{Calendar, is_business_day, is_holiday}
use odin_analytics.Time.Mappers.{map_input_to_day_count_enum}
use odin_analytics.Time.DayCount.{day_count, year_fraction, generate_day_counter}
use odin_analytics.DerivedTime.Formula.{BusinessDateFormula, adjust_business, adjust_formula}
use odin_analytics.DerivedTime.CachedFormula.{business_date_formula, date_formula_of_names}
use odin_analytics.DerivedTime.CashflowGen.Coupon.{dereference}
use odin_analytics.StaticDataCache.CalendarCache.{Cache}
use odin_analytics.StaticDataCache.Services.{Services, request}
use odin_analytics.Oxl.Variant.{XlVariant, number, string, boolean, get_number, get_string}
use odin_analytics.Oxl.Dictionary.{XlDictionary, at}

-- `kXlJulianOffSet`.
abbrev pub xl_julian_offset : ℤ
xl_julian_offset = pos 2415019

-- What is read of an `xloper12`: the number, the text that `LPXloperToStr` makes of its string, or
-- that it is of another type.
pub data Xloper {ℓ} (N : Type ℓ) : Type ℓ where
  xltype_num : N → Xloper N
  xltype_str : Text → Xloper N
  xltype_other : Xloper N

unfoldable pub lpxloper_to_str {ℓ} : {N : Type ℓ} → Xloper N → Result Text
lpxloper_to_str (xltype_num x) = err invalid_argument
lpxloper_to_str (xltype_str s) = ok s
lpxloper_to_str xltype_other = err invalid_argument

-- `centers->xltype != xltypeStr`, negated.
unfoldable pub is_xltype_str {ℓ} : {N : Type ℓ} → Xloper N → Bool
is_xltype_str (xltype_num x) = false
is_xltype_str (xltype_str s) = true
is_xltype_str xltype_other = false

module _ (double : Double) where
  open double use {Number, of_int, to_int}

  -- `ToExcelDate`.
  unfoldable pub to_excel_date : Date → Number
  to_excel_date date = of_int (date.julian -ℤ xl_julian_offset)

  -- `XlVarToDateVisitor`, through `ToDateObj`.
  unfoldable pub to_date_obj : XlVariant Number → Result Date
  to_date_obj (number x) = ok (from_julian (to_int x +ℤ xl_julian_offset))
  to_date_obj (string s) = from_string s
  to_date_obj (boolean b) = err invalid_argument

  unfoldable pub xloper_to_date_obj : Xloper Number → Result Date
  xloper_to_date_obj (xltype_num x) = ok (from_julian (to_int x +ℤ xl_julian_offset))
  xloper_to_date_obj (xltype_str s) = from_string s
  xloper_to_date_obj xltype_other = err invalid_argument

  unfoldable pub xloper_to_julian_int : Xloper Number → Result ℤ
  xloper_to_julian_int (xltype_num x) = ok (xl_julian_offset +ℤ to_int x)
  xloper_to_julian_int (xltype_str s) =
      from_string s >>= λ date. ok (xl_julian_offset +ℤ date.julian)
  xloper_to_julian_int xltype_other = err invalid_argument

  module _ (services : Services) where
    -- A text under "Mat_Date" is a tenor from the start date on.
    unfoldable pub mat_date_from : XlDictionary Number → XlVariant Number → Result Date
    mat_date_from dict (string s) = at (codes "Start_Date") dict >>= λ cell.
        to_date_obj cell >>= λ start_date.
        tenor_from_string services.unit_cast s >>= λ t. add_tenor start_date t
    mat_date_from dict (number x) = to_date_obj (number x)
    mat_date_from dict (boolean b) = to_date_obj (boolean b)

    unfoldable pub handle_mat_date : XlDictionary Number → Result Date
    handle_mat_date dict = at (codes "Mat_Date") dict >>= λ cell. mat_date_from dict cell

    unfoldable pub oxl_is_biz_day : Xloper Number → Xloper Number → Cache → Result (Bool × Cache)
    oxl_is_biz_day date centers cache = xloper_to_julian_int date >>= λ date_obj.
        if not (is_xltype_str centers)
        then err invalid_argument
        else (lpxloper_to_str centers >>= λ centers_input.
            request services centers_input cache >>= λ center.
            is_business_day center.0 date_obj >>= λ b. ok (b, center.1))

    unfoldable pub oxl_is_hol_day : Xloper Number → Xloper Number → Cache → Result (Bool × Cache)
    oxl_is_hol_day date centers cache = xloper_to_julian_int date >>= λ date_obj.
        if not (is_xltype_str centers)
        then err invalid_argument
        else (lpxloper_to_str centers >>= λ centers_input.
            request services centers_input cache >>= λ center.
            is_holiday center.0 date_obj >>= λ b. ok (b, center.1))

    unfoldable pub oxl_add_business_days : XlDictionary Number → Cache → Result (Number × Cache)
    oxl_add_business_days dictionary cache = at (codes "Base_Date") dictionary >>= λ base_cell.
        to_date_obj base_cell >>= λ base_date. at (codes "Days") dictionary >>= λ days_cell.
        get_number days_cell >>= λ days. at (codes "Calendar") dictionary >>= λ calendar_cell.
        get_string calendar_cell >>= λ calendar.
        business_date_formula services (to_int days) calendar cache >>= λ got.
        adjust_business got.0 base_date >>= λ date. ok (to_excel_date date, got.1)

    unfoldable pub oxl_compute_date : XlDictionary Number → Cache → Result (Number × Cache)
    oxl_compute_date dictionary cache = at (codes "Base_Date") dictionary >>= λ base_cell.
        to_date_obj base_cell >>= λ base_date. at (codes "Tenor") dictionary >>= λ tenor_cell.
        get_string tenor_cell >>= λ tenor. at (codes "Adjustment_Rule") dictionary >>= λ rule_cell.
        get_string rule_cell >>= λ rule. at (codes "Calendar") dictionary >>= λ calendar_cell.
        get_string calendar_cell >>= λ calendar.
        date_formula_of_names services tenor rule calendar cache >>= λ got.
        adjust_formula got.0 base_date >>= λ date. ok (to_excel_date date, got.1)

  unfoldable pub oxl_compute_day_count : Xloper Number → Xloper Number → Xloper Number → Result ℤ
  oxl_compute_day_count start_date end_date rule = xloper_to_date_obj start_date >>= λ from.
      xloper_to_date_obj end_date >>= λ to. lpxloper_to_str rule >>= λ name.
      map_input_to_day_count_enum name >>= λ convention.
      dereference (generate_day_counter convention) >>= λ counter. day_count counter from to

  unfoldable pub oxl_compute_year_fraction :
      Xloper Number → Xloper Number → Xloper Number → Result Number
  oxl_compute_year_fraction start_date end_date rule = xloper_to_date_obj start_date >>= λ from.
      xloper_to_date_obj end_date >>= λ to. lpxloper_to_str rule >>= λ name.
      map_input_to_day_count_enum name >>= λ convention.
      dereference (generate_day_counter convention) >>= λ counter.
      year_fraction double counter from to
