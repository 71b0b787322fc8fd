-- ===== src/Oxl/Dates/Days.antt =====
-- The functions of dates of src/oxl/time_xl.cpp: the days that they return.
use odin_analytics.Prelude.{◌≡◌, ap, ok}
use odin_analytics.Prelude.Int.{ℤ, pos, ◌+ℤ◌, ◌-ℤ◌, int_laws}
use odin_analytics.Prelude.Double.{Double}
use odin_analytics.Prelude.Text.{Text}
use odin_analytics.Time.Date.{Date, from_julian}
use odin_analytics.Time.Calendar.{Calendar}
use odin_analytics.StaticDataCache.Services.{Services}
use odin_analytics.Oxl.Variant.{number}
use odin_analytics.Oxl.Dates.{xl_julian_offset, to_excel_date, to_date_obj}

there_and_back : (j : ℤ) → (j -ℤ pos 2415019) +ℤ pos 2415019 ≡ j
there_and_back j = omega int_laws

module _ (double : Double) where
  open double use {Number, of_int, to_int}

  -- A date is read back from the number that stands for it in Excel, where an integer is read back
  -- from its floating-point number.
  pub to_date_obj-to_excel_date :
      ((n : ℤ) → to_int (of_int n) ≡ n)
      → (date : Date) → to_date_obj double (number (to_excel_date double date)) ≡ ok date
  unfolding to_date_obj to_excel_date
  to_date_obj-to_excel_date exact date =
      rw (exact (date.julian -ℤ xl_julian_offset))
        (ap (λ j. ok (from_julian j)) (there_and_back date.julian))
