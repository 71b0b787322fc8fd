-- ===== src/Oxl/Cashflows/Generate/RulesRead.antt =====
-- `OxlGenerateCashflow` (src/oxl/time_xl.cpp) reads the rules of adjustments from a dictionary.
use odin_analytics.Prelude.{Bool, arith, true, false, not, ◌&&◌, runtime_error, guard_ok}
use odin_analytics.StaticDataCache.Services.{request}
use odin_analytics.DerivedTime.CachedFormula.{business_date_formula}
use odin_analytics.Oxl.Dictionary.{check_key, subscript}
use odin_analytics.Oxl.StdMap.{find_key, assign, has_value}
use odin_analytics.Oxl.Variant.{XlVariant, get_number, get_string}
use odin_analytics.Oxl.Cashflows.{blank, retrieve_xl_dict, valid_business_date_dictionary}
use odin_analytics.Prelude.{
  ◌≡◌, refl, sym, ap, ◌∙◌, subst, Bool-cases, inl, inr, Option, none, some, ok, if_true, if_false,
  chain_ok, ok-injective,
}
use odin_analytics.Prelude.Double.{Double}
use odin_analytics.Prelude.Text.{Text, codes}
use odin_analytics.DerivedTime.Formula.{BusinessDateFormula}
use odin_analytics.DerivedTime.CashflowGen.{Options}
use odin_analytics.DerivedTime.CashflowGen.Setters.{set_start_adjustment, set_end_adjustment}
use odin_analytics.StaticDataCache.CalendarCache.{Cache}
use odin_analytics.StaticDataCache.Services.{Services}
use odin_analytics.Oxl.StdMap.{contains}
use odin_analytics.Oxl.Dictionary.{XlDictionary}
use odin_analytics.Oxl.Cache.{CacheMap}
use odin_analytics.Oxl.Cashflows.Generate.Readings.{
  get_number-number, get_string-string, or_else, contains-find_key,
}
use odin_analytics.Oxl.Cashflows.Generate.{
  get_business_date_formula_from_dict, apply_rule, set_rule, set_accrual_rules,
}
use odin_analytics.Oxl.Cashflows.Generate.Described.{IsRule, no_rule, by_rule, accrual_key}

module _ {N : Type 0} where
  -- The subscript of a key that is there finds its value and changes nothing.
  subscript-there :
      (default : XlVariant N) (key : Text) (d : XlDictionary N) (got : XlVariant N × XlDictionary N)
      → contains key d ≡ true
      → subscript default key d ≡ ok got
      → (find_key key d ≡ some got.0) × (got.1 ≡ d)
  unfolding subscript contains has_value
  subscript-there default key d got there h =
      let (checked, e, k) = chain_ok (check_key key) _ got h in split (find_key key d) there k
    where
      split :
          (o : Option (XlVariant N))
          → has_value o ≡ true
          → (elim o [ none ↦ ok (default, assign key default d) | some value ↦ ok (value, d) ])
            ≡ ok got
          → (o ≡ some got.0) × (got.1 ≡ d)
      split none t k = absurd (ground arith)
      split (some value) t k =
          (ap (λ p. some p.0) (ok-injective k), ap (λ p. p.1) (sym (ok-injective k)))

  both_keys :
      (d : XlDictionary N)
      → not (valid_business_date_dictionary d) ≡ false
      → (contains (codes "Days") d ≡ true) × (contains (codes "Calendar") d ≡ true)
  unfolding valid_business_date_dictionary
  both_keys d h = split (contains (codes "Days") d) (contains (codes "Calendar") d) h
    where
      split : (a b : Bool) → not (a && b) ≡ false → (a ≡ true) × (b ≡ true)
      split true true h = (refl, refl)
      split true false h = absurd (ground arith)
      split false b h = absurd (ground arith)

module _ (double : Double) (services : Services) (dictionary : XlDictionary (double.Number)) where
  open double use {Number, to_int}

  formula-IsRule :
      (objects : CacheMap Number) (key : Text) (cache : Cache) (got : BusinessDateFormula × Cache)
      → get_business_date_formula_from_dict double services dictionary key objects cache ≡ ok got
      → IsRule double services dictionary objects key (some got.0)
  unfolding get_business_date_formula_from_dict business_date_formula
  formula-IsRule objects key cache got h =
      let (rules, e₁, h₁) = chain_ok (retrieve_xl_dict dictionary key objects) _ got h in
      let (valid, h₂) =
        guard_ok (not (valid_business_date_dictionary rules)) runtime_error _ got h₁ in
      let (has_days, has_calendar) = both_keys rules valid in
      let (days_read, e₂, h₃) = chain_ok (subscript (blank double) (codes "Days") rules) _ got h₂ in
      let (days_found, kept) =
        subscript-there (blank double) (codes "Days") rules days_read has_days e₂ in
      let (days, e₃, h₄) = chain_ok (get_number days_read.0) _ got h₃ in
      let (calendar_read, e₄, h₅) =
        chain_ok (subscript (blank double) (codes "Calendar") days_read.1) _ got h₄ in
      let (calendar_found, _) =
        subscript-there (blank double) (codes "Calendar") rules calendar_read has_calendar
          (ap (subscript (blank double) (codes "Calendar")) (sym kept) ∙ e₄) in
      let (centers, e₅, h₆) = chain_ok (get_string calendar_read.0) _ got h₅ in
      let (answer, e₆, h₇) = chain_ok (request services centers cache) _ got h₆ in
      by_rule got.0 rules days centers answer.0 cache answer.1 e₁
        (days_found ∙ ap some (get_number-number days_read.0 days e₃))
        (calendar_found ∙ ap some (get_string-string calendar_read.0 centers e₅)) e₆
        (ap (λ p. p.0.num_of_business_days) (sym (ok-injective h₇)))
        (ap (λ p. p.0.calendar) (sym (ok-injective h₇)))

  apply_rule-IsRule :
      (objects : CacheMap Number) (key : Text) (setter : BusinessDateFormula → Options → Options)
      (state got : Options × Cache)
      → apply_rule double services key setter dictionary objects state ≡ ok got
      → (f : BusinessDateFormula) × IsRule double services dictionary objects key (some f)
        × (got.0 ≡ setter f state.0)
  unfolding apply_rule
  apply_rule-IsRule objects key setter state got h =
      let (read, e, k) =
        chain_ok
          (get_business_date_formula_from_dict double services dictionary key objects state.1) _ got
          h in
      (read.0, formula-IsRule objects key state.1 read e, ap (λ p. p.0) (sym (ok-injective k)))

  -- One step of the reading of the rules: a member is set by the rule under a key, or kept.
  pub set_rule-IsRule :
      (objects : CacheMap Number) (key : Text) (setter : BusinessDateFormula → Options → Options)
      (member : Options → BusinessDateFormula) (state got : Options × Cache)
      → setter (member state.0) state.0 ≡ state.0
      → set_rule double services key setter dictionary objects state ≡ ok got
      → (v : Option BusinessDateFormula) × IsRule double services dictionary objects key v
        × (got.0 ≡ setter (or_else v (member state.0)) state.0)
  unfolding set_rule
  set_rule-IsRule objects key setter member state got same h =
      elim (Bool-cases (contains key dictionary)) [
        | inl there ↦
            let (f, r, q) =
              apply_rule-IsRule objects key setter state got (sym (if_true _ _ _ there) ∙ h) in
            (some f, r, q)
        | inr lacking ↦ (
          none,
          no_rule (contains-find_key key dictionary lacking),
          ap (λ p. p.0) (sym (ok-injective (sym (if_false _ _ _ lacking) ∙ h))) ∙ sym same,
        )
      ]

  pub accrual-both :
      (objects : CacheMap Number) (state got : Options × Cache)
      → set_accrual_rules double services dictionary objects state ≡ ok got
      → (starting : Option BusinessDateFormula) × (ending : Option BusinessDateFormula) × IsRule
          double services dictionary objects
          (accrual_key double services dictionary (codes "Start_Adj_Rule"))
          starting
        × IsRule double services dictionary objects
            (accrual_key double services dictionary (codes "End_Adj_Rule"))
            ending
        × (got.0
            ≡ set_start_adjustment
                (or_else starting state.0.start_adjustment)
                (set_end_adjustment (or_else ending state.0.end_adjustment) state.0))
  unfolding set_accrual_rules
  accrual-both objects state got h =
      elim (Bool-cases (contains (codes "Acc_Adj_Rule") dictionary)) [
        | inl both ↦
            let (started, e₁, k₁) =
              chain_ok
                (apply_rule double services (codes "Acc_Adj_Rule") set_start_adjustment dictionary
                  objects state)
                _ got (sym (if_true _ _ _ both) ∙ h) in
            let (f, r₁, q₁) =
              apply_rule-IsRule objects (codes "Acc_Adj_Rule") set_start_adjustment state started
                e₁ in
            let (g, r₂, q₂) =
              apply_rule-IsRule objects (codes "Acc_Adj_Rule") set_end_adjustment started got k₁ in
            (
              some f,
              some g,
              subst (λ k. IsRule double services dictionary objects k (some f))
                  (sym (if_true _ _ _ both)) r₁,
              subst (λ k. IsRule double services dictionary objects k (some g))
                  (sym (if_true _ _ _ both)) r₂,
              q₂ ∙ ap (set_end_adjustment g) q₁,
            )
        | inr each ↦
            let (ended, e₁, k₁) =
              chain_ok
                (set_rule double services (codes "End_Adj_Rule") set_end_adjustment dictionary
                  objects state)
                _ got (sym (if_false _ _ _ each) ∙ h) in
            let (ending, r₁, q₁) =
              set_rule-IsRule objects (codes "End_Adj_Rule") set_end_adjustment
                (λ o. o.end_adjustment) state ended refl e₁ in
            let (starting, r₂, q₂) =
              set_rule-IsRule objects (codes "Start_Adj_Rule") set_start_adjustment
                (λ o. o.start_adjustment) ended got refl k₁ in
            (
              starting,
              ending,
              subst (λ k. IsRule double services dictionary objects k starting)
                  (sym (if_false _ _ _ each)) r₂,
              subst (λ k. IsRule double services dictionary objects k ending)
                  (sym (if_false _ _ _ each)) r₁,
              q₂ ∙ ap (λ o. set_start_adjustment (or_else starting o.start_adjustment) o) q₁,
            )
      ]
