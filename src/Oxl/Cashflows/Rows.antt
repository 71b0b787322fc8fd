-- ===== src/Oxl/Cashflows/Rows.antt =====
-- The array of cash flows that `ConvertCFStructToXlArray` (src/oxl/xl_api/excel_base.cpp) makes.
use odin_analytics.Prelude.{
  Option, none, some, if◌then◌else◌, subst, get_elem?-middle, set-middle, pass_back, chain_step,
  ◌==◌, true, ℕ, suc, ◌≡◌, refl, ap, sym, ◌∙◌, arith, List, [], ◌∷◌, ◌++◌, length, replicate,
  append-cons, ok, chain_ok, ok-injective,
}
use odin_analytics.Prelude.Double.{Double}
use odin_analytics.Prelude.Text.{Text, codes, eqb_text}
use odin_analytics.Oxl.Dates.{to_excel_date}
use odin_analytics.DerivedTime.Enums.{Currency, CashflowType, fixed}
use odin_analytics.DerivedTime.CashflowGen.Coupon.{CashflowStruct}
use odin_analytics.Oxl.Variant.{XlVariant, number, string, boolean}
use odin_analytics.Oxl.Array.{XlArray, xl_array, vector_at, row_at, assign_row}
use odin_analytics.Oxl.Cashflows.{
  blank, header_row, clean_name, cashflow_row, fill_rows, fixed_array,
  convert_cf_struct_to_xl_array,
}

module _ (double : Double) (currency_name : Currency → Text) (type_name : CashflowType → Text) where
  open double use {Number, of_int}

  -- The cell of a row under the column that the header names.
  abbrev pub cell_under :
      Text → List (XlVariant Number) → List (XlVariant Number) → Option (XlVariant Number)
  cell_under column [] cells = none
  cell_under column (h ∷ hs) [] = none
  cell_under column (number x ∷ hs) (cell ∷ cells) = cell_under column hs cells
  cell_under column (boolean b ∷ hs) (cell ∷ cells) = cell_under column hs cells
  cell_under column (string s ∷ hs) (cell ∷ cells) =
      let later = cell_under column hs cells in if eqb_text s column then some cell else later

  abbrev HasCell : List (XlVariant Number) → Text → XlVariant Number → Type 0
  HasCell cells column cell = cell_under column (header_row double) cells ≡ some cell

  -- A row has a cash flow's members under their names, dates as Excel's numbers; the names of the
  -- currency and of the type are without their first character.
  pub record IsRow (cf : CashflowStruct Number) (cells : List (XlVariant Number)) : Type 0 where
    pub fourteen : length cells ≡ 14
    pub unadj_start :
        HasCell cells (codes "Unadj_Start_Date") (number (to_excel_date double cf.unadj_start_date))
    pub unadj_end :
        HasCell cells (codes "Unadj_End_Date") (number (to_excel_date double cf.unadj_end_date))
    pub starts : HasCell cells (codes "Start_Date") (number (to_excel_date double cf.start_date))
    pub ends : HasCell cells (codes "End_Date") (number (to_excel_date double cf.end_date))
    pub fixed_on :
        HasCell cells (codes "Fixing_Date") (number (to_excel_date double cf.fixing_date))
    pub paid : HasCell cells (codes "Payment_Date") (number (to_excel_date double cf.payment_date))
    pub on_notional : HasCell cells (codes "Notional") (number cf.notional)
    pub at_rate : HasCell cells (codes "Rate") (number cf.rate)
    pub amount : HasCell cells (codes "Fwd_Cashflow_PV") (number cf.cashflow_amount)
    pub npv : HasCell cells (codes "Cashflow_NPV") (number cf.npv_cashflow_amount)
    pub counted : HasCell cells (codes "Day_Count") (number (of_int cf.days))
    pub part : HasCell cells (codes "Day_Count_Fraction") (number cf.day_count_fraction)
    pub prefix : ℕ
    pub currency : Text
    pub currency_is : currency_name cf.cf_curr ≡ prefix ∷ currency
    pub in_currency : HasCell cells (codes "Currency") (string currency)
    pub kind_prefix : ℕ
    pub kind : Text
    pub kind_is : type_name cf.cf_type ≡ kind_prefix ∷ kind
    pub of_type : HasCell cells (codes "Cashflow_Type") (string kind)

  clean_name-rest : (name s : Text) → clean_name name ≡ ok s → (c : ℕ) × (name ≡ c ∷ s)
  unfolding clean_name
  clean_name-rest [] s h = absurd (ground arith)
  clean_name-rest (c ∷ cs) s h = (c, ap (λ t. c ∷ t) (ok-injective h))

  cashflow_row-IsRow :
      (cf : CashflowStruct Number) (cells : List (XlVariant Number))
      → cashflow_row double currency_name type_name cf ≡ ok cells
      → IsRow cf cells
  unfolding cashflow_row
  cashflow_row-IsRow cf cells h =
      let (currency, e₁, h₂) = chain_ok (clean_name (currency_name cf.cf_curr)) _ cells h in
      let (kind, e₂, h₃) = chain_ok (clean_name (type_name cf.cf_type)) _ cells h₂ in
      let (c, currency_is) = clean_name-rest (currency_name cf.cf_curr) currency e₁ in
      let (k, kind_is) = clean_name-rest (type_name cf.cf_type) kind e₂ in
      subst (IsRow cf) (ok-injective h₃) (record {
        fourteen = refl;
        unadj_start = refl;
        unadj_end = refl;
        starts = refl;
        ends = refl;
        fixed_on = refl;
        paid = refl;
        on_notional = refl;
        at_rate = refl;
        amount = refl;
        npv = refl;
        counted = refl;
        part = refl;
        prefix = c;
        currency = currency;
        currency_is = currency_is;
        in_currency = refl;
        kind_prefix = k;
        kind = kind;
        kind_is = kind_is;
        of_type = refl;
      })

  -- The rows of cash flows, one by one.
  pub data AreRows : List (CashflowStruct Number) → List (List (XlVariant Number)) → Type 0 where
    no_rows : AreRows [] []
    next_row :
        (cf : CashflowStruct Number) (cfs : List (CashflowStruct Number))
        (cells : List (XlVariant Number)) (rows : List (List (XlVariant Number)))
        → IsRow cf cells
        → AreRows cfs rows
        → AreRows (cf ∷ cfs) (cells ∷ rows)

  cashflow_row-length :
      (cf : CashflowStruct Number) (cells : List (XlVariant Number))
      → cashflow_row double currency_name type_name cf ≡ ok cells
      → length cells ≡ 14
  unfolding cashflow_row
  cashflow_row-length cf cells h =
      let (currency, _, h₂) = chain_ok (clean_name (currency_name cf.cf_curr)) _ cells h in
      let (kind, _, h₃) = chain_ok (clean_name (type_name cf.cf_type)) _ cells h₂ in
      ap (λ xs. length xs) (sym (ok-injective h₃))

  assign_row-middle :
      (r : ℕ) (before rest : List (List (XlVariant Number))) (old cells : List (XlVariant Number))
      → length cells ≡ length old
      → assign_row (xl_array r 14 (before ++ old ∷ rest)) (length before) cells
        ≡ ok (xl_array r 14 (before ++ cells ∷ rest))
  unfolding assign_row row_at vector_at
  assign_row-middle r before rest old cells h =
      let same : (length cells == length old) ≡ true = ground (arith, h) in
      rw (get_elem?-middle before rest old, same, set-middle before rest old cells)

  -- The loop that fills the array has `before` behind it and untouched rows ahead.
  fill_rows-AreRows :
      (r : ℕ) (cfs : List (CashflowStruct Number)) (before : List (List (XlVariant Number)))
      (got : XlArray Number)
      → fill_rows double currency_name type_name cfs
          (length before)
          (xl_array r 14 (before ++ replicate (length cfs) (replicate 14 (blank double))))
        ≡ ok got
      → (rows : List (List (XlVariant Number))) × (got ≡ xl_array r 14 (before ++ rows))
        × AreRows cfs rows
  unfolding fill_rows
  fill_rows-AreRows r [] before got h = ([], sym (ok-injective h), no_rows)
  fill_rows-AreRows r (cf ∷ cfs) before got h =
      let ahead = replicate (length cfs) (replicate 14 (blank double)) in
      let (cells, made, h₂) = chain_ok (cashflow_row double currency_name type_name cf) _ got h in
      let put =
        assign_row-middle r before ahead (replicate 14 (blank double)) cells
          (cashflow_row-length cf cells made) in
      let h₃ =
        sym (
          chain_step _
            (λ next. fill_rows double currency_name type_name cfs (suc (length before)) next) _ put)
        ∙ h₂ in
      let (rows, e, are_rows) = fill_rows-AreRows r cfs (before ++ cells ∷ []) got (
        pass_back before ahead cells
          (λ n xss. fill_rows double currency_name type_name cfs n (xl_array r 14 xss) ≡ ok got)
          h₃) in
      (
        cells ∷ rows,
        e ∙ ap (xl_array r 14) (append-cons before rows cells),
        next_row cf cfs cells rows (cashflow_row-IsRow cf cells made) are_rows,
      )

  -- What is returned for fixed cash flows is the array of the header and of a row of fourteen cells
  -- for each cash flow, in order.
  pub convert_cf_struct_to_xl_array-AreRows :
      (cfs : List (CashflowStruct Number)) (got : XlArray Number)
      → convert_cf_struct_to_xl_array double currency_name type_name cfs fixed ≡ ok got
      → (rows : List (List (XlVariant Number))) × (got
          ≡ xl_array (suc (length cfs)) 14 (header_row double ∷ rows))
        × AreRows cfs rows
  unfolding convert_cf_struct_to_xl_array fixed_array
  convert_cf_struct_to_xl_array-AreRows cfs got h =
      let ahead = replicate (length cfs) (replicate 14 (blank double)) in
      let put =
        assign_row-middle (suc (length cfs)) [] ahead (replicate 14 (blank double))
          (header_row double) refl in
      fill_rows-AreRows (suc (length cfs)) cfs (header_row double ∷ []) got
        (sym (chain_step _ (λ next. fill_rows double currency_name type_name cfs 1 next) _ put) ∙ h)
