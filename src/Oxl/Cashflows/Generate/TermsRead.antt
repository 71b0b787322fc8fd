-- ===== src/Oxl/Cashflows/Generate/TermsRead.antt =====
-- `OxlGenerateCashflow` (src/oxl/time_xl.cpp) reads the terms of a bond from a dictionary.
use odin_analytics.Prelude.{
  ◌≡◌, sym, ap, ◌∙◌, subst, Bool-cases, inl, inr, some, ok, if_true, if_false, chain_ok, chain_step,
  ok-injective, arith,
}
use odin_analytics.Prelude.Double.{Double}
use odin_analytics.Prelude.Text.{Text, codes}
use odin_analytics.Time.Date.{Date}
use odin_analytics.Time.Tenor.{Tenor}
use odin_analytics.Time.Tenor.Parse.{check_tenor_str, tenor_from_string}
use odin_analytics.Time.Mappers.{map_input_to_day_count_enum}
use odin_analytics.DerivedTime.Mappers.{map_input_to_freq}
use odin_analytics.StaticDataCache.Services.{Services}
use odin_analytics.Oxl.Variant.{XlVariant, number, string, boolean, get_number, get_string}
use odin_analytics.Oxl.StdMap.{find_key}
use odin_analytics.Oxl.Dictionary.{XlDictionary, at}
use odin_analytics.Oxl.Dates.{to_date_obj, handle_mat_date, mat_date_from}
use odin_analytics.Oxl.Cashflows.Generate.Readings.{at-find_key, text_at, number_at}
use odin_analytics.Oxl.Cashflows.Generate.{Terms, freq_from, terms_from}
use odin_analytics.Oxl.Cashflows.Generate.Described.{
  IsDateCell, excel_date, date_text, IsMaturity, on_date, after_tenor, IsFrequency, as_tenor,
  as_name, AreTerms,
}

module _ (double : Double) (services : Services) (dictionary : XlDictionary (double.Number)) where
  open double use {Number, to_int}

  to_date_obj-IsDateCell :
      (cell : XlVariant Number) (date : Date)
      → to_date_obj double cell ≡ ok date
      → IsDateCell double services dictionary cell date
  unfolding to_date_obj
  to_date_obj-IsDateCell (number x) date h =
      excel_date x date (ap (λ d. d.julian) (sym (ok-injective h)))
  to_date_obj-IsDateCell (string s) date h = date_text s date h
  to_date_obj-IsDateCell (boolean b) date h = absurd (ground arith)

  freq_from-IsFrequency :
      (s : Text) (t : Tenor)
      → freq_from services s ≡ ok t
      → IsFrequency double services dictionary s t
  unfolding freq_from
  freq_from-IsFrequency s t h = elim (Bool-cases (check_tenor_str s)) [
    | inl tenor_text ↦ as_tenor tenor_text (sym (if_true _ _ _ tenor_text) ∙ h)
    | inr named ↦
        let (freq, e, h₁) = chain_ok (map_input_to_freq s) _ t (sym (if_false _ _ _ named) ∙ h) in
        as_name freq named e h₁
  ]

  handle_mat_date-IsMaturity :
      (start_cell : XlVariant Number) (start_date mat_date : Date)
      → at (codes "Start_Date") dictionary ≡ ok start_cell
      → to_date_obj double start_cell ≡ ok start_date
      → handle_mat_date double services dictionary ≡ ok mat_date
      → IsMaturity double services dictionary start_date mat_date
  unfolding handle_mat_date mat_date_from to_date_obj
  handle_mat_date-IsMaturity start_cell start_date mat_date found is_date h =
      let (cell, there, h₁) = chain_ok (at (codes "Mat_Date") dictionary) _ mat_date h in
      split cell (at-find_key (codes "Mat_Date") dictionary cell there) h₁
    where
      split :
          (cell : XlVariant Number)
          → find_key (codes "Mat_Date") dictionary ≡ some cell
          → mat_date_from double services dictionary cell ≡ ok mat_date
          → IsMaturity double services dictionary start_date mat_date
      split (number x) e k =
          on_date x start_date mat_date e (ap (λ d. d.julian) (sym (ok-injective k)))
      split (string s) e k =
          let k₁ = sym (chain_step (at (codes "Start_Date") dictionary) _ start_cell found) ∙ k in
          let k₂ = sym (chain_step (to_date_obj double start_cell) _ start_date is_date) ∙ k₁ in
          let (t, e₁, k₃) = chain_ok (tenor_from_string services.unit_cast s) _ mat_date k₂ in
          after_tenor s t start_date mat_date e e₁ k₃
      split (boolean b) e k = absurd (ground arith)

  pub terms_from-AreTerms :
      (terms : Terms Number)
      → terms_from double services dictionary ≡ ok terms
      → AreTerms double services dictionary terms
  unfolding terms_from
  terms_from-AreTerms terms h =
      let (start_cell, e₁, h₁) = chain_ok (at (codes "Start_Date") dictionary) _ terms h in
      let (start_date, e₂, h₂) = chain_ok (to_date_obj double start_cell) _ terms h₁ in
      let (mat_date, e₃, h₃) = chain_ok (handle_mat_date double services dictionary) _ terms h₂ in
      let (notional_cell, e₄, h₄) = chain_ok (at (codes "Notional") dictionary) _ terms h₃ in
      let (notional, e₅, h₅) = chain_ok (get_number notional_cell) _ terms h₄ in
      let (rate_cell, e₆, h₆) = chain_ok (at (codes "Rate") dictionary) _ terms h₅ in
      let (rate, e₇, h₇) = chain_ok (get_number rate_cell) _ terms h₆ in
      let (rule_cell, e₈, h₈) = chain_ok (at (codes "Day_Count_Frac") dictionary) _ terms h₇ in
      let (rule_name, e₉, h₉) = chain_ok (get_string rule_cell) _ terms h₈ in
      let (rule, e₁₀, h₁₀) = chain_ok (map_input_to_day_count_enum rule_name) _ terms h₉ in
      let (freq_cell, e₁₁, h₁₁) = chain_ok (at (codes "Frequency") dictionary) _ terms h₁₀ in
      let (freq_name, e₁₂, h₁₂) = chain_ok (get_string freq_cell) _ terms h₁₁ in
      let (freq, e₁₃, h₁₃) = chain_ok (freq_from services freq_name) _ terms h₁₂ in
      subst (AreTerms double services dictionary) (ok-injective h₁₃) (record {
        start_cell = start_cell;
        start_found = at-find_key (codes "Start_Date") dictionary start_cell e₁;
        starts = to_date_obj-IsDateCell start_cell start_date e₂;
        matures = handle_mat_date-IsMaturity start_cell start_date mat_date e₁ e₂ e₃;
        notional_found = number_at (codes "Notional") notional dictionary notional_cell e₄ e₅;
        rate_found = number_at (codes "Rate") rate dictionary rate_cell e₆ e₇;
        rule_name = rule_name;
        rule_found = text_at (codes "Day_Count_Frac") rule_name dictionary rule_cell e₈ e₉;
        counted = e₁₀;
        freq_name = freq_name;
        freq_found = text_at (codes "Frequency") freq_name dictionary freq_cell e₁₁ e₁₂;
        resets = freq_from-IsFrequency freq_name freq e₁₃;
      })
