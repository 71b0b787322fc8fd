-- ===== src/Oxl/Cashflows/Generate/OptionsRead.antt =====
-- `OxlGenerateCashflow` (src/oxl/time_xl.cpp) reads the options of a schedule from a dictionary.
use odin_analytics.Oxl.Cashflows.Generate.RulesRead.{set_rule-IsRule, accrual-both}
use odin_analytics.Prelude.{
  ◌≡◌, refl, sym, ap, ◌∙◌, subst, Option, ok, ◌>>=◌, chain_ok, ok-injective,
}
use odin_analytics.Prelude.Double.{Double}
use odin_analytics.Prelude.Text.{Text, codes}
use odin_analytics.DerivedTime.Enums.{DateDirection, StubType, CalcType, no_stub}
use odin_analytics.DerivedTime.Mappers.{
  map_input_to_date_dir, map_input_to_stub, map_input_to_calc_type,
}
use odin_analytics.DerivedTime.Formula.{BusinessDateFormula}
use odin_analytics.DerivedTime.CashflowGen.{Options, default_options}
use odin_analytics.DerivedTime.CashflowGen.Setters.{
  set_date_direction, set_front_stub_type, set_back_stub_type, set_fix_adjustment,
  set_pay_adjustment, set_start_adjustment, set_end_adjustment, set_calc_type,
}
use odin_analytics.StaticDataCache.CalendarCache.{Cache}
use odin_analytics.StaticDataCache.Services.{Services}
use odin_analytics.Oxl.Variant.{get_string}
use odin_analytics.Oxl.Dictionary.{XlDictionary, at}
use odin_analytics.Oxl.Cache.{CacheMap}
use odin_analytics.Oxl.Cashflows.{set_named}
use odin_analytics.Oxl.Cashflows.Generate.Readings.{
  or_else, HasText, IsNamed, text_at, set_named-IsNamed,
}
use odin_analytics.Oxl.Cashflows.Generate.{set_rule, set_accrual_rules, options_from}
use odin_analytics.Oxl.Cashflows.Generate.Described.{IsRule, accrual_key, AreOptions}

module _ (double : Double) (services : Services) (dictionary : XlDictionary (double.Number)) where
  open double use {Number, to_int}

  -- The options with the rules and the calculation set, and all else kept.
  abbrev with_rules :
      Option BusinessDateFormula
      → Option BusinessDateFormula
      → Option BusinessDateFormula
      → Option BusinessDateFormula
      → Option CalcType
      → Options
      → Options
  with_rules fixing paying starting ending calculation opts = record opts {
    calc_type = or_else calculation opts.calc_type;
    start_adjustment = or_else starting opts.start_adjustment;
    end_adjustment = or_else ending opts.end_adjustment;
    pay_adjustment = or_else paying opts.pay_adjustment;
    fix_adjustment = or_else fixing opts.fix_adjustment;
  }

  all_set :
      (fixing paying starting ending : Option BusinessDateFormula) (calculation : Option CalcType)
      (o o₃ o₄ o₅ o₆ : Options)
      → o₃ ≡ set_fix_adjustment (or_else fixing o.fix_adjustment) o
      → o₄ ≡ set_pay_adjustment (or_else paying o₃.pay_adjustment) o₃
      → o₅
        ≡ set_start_adjustment
            (or_else starting o₄.start_adjustment)
            (set_end_adjustment (or_else ending o₄.end_adjustment) o₄)
      → o₆ ≡ set_calc_type (or_else calculation o₅.calc_type) o₅
      → o₆ ≡ with_rules fixing paying starting ending calculation o
  all_set fixing paying starting ending calculation o o₃ o₄ o₅ o₆ q₃ q₄ q₅ q₆ =
      q₆
      ∙ ap (λ o. set_calc_type (or_else calculation o.calc_type) o)
          (q₅
            ∙ ap
                (λ o.
                  set_start_adjustment (or_else starting o.start_adjustment)
                    (set_end_adjustment (or_else ending o.end_adjustment) o))
                (q₄ ∙ ap (λ o. set_pay_adjustment (or_else paying o.pay_adjustment) o) q₃))

  -- The last four steps of the reading.
  data AreRules (objects : CacheMap Number) (o : Options) (got : Options × Cache) : Type 0 where
    rules :
        (fixing paying starting ending : Option BusinessDateFormula) (calculation : Option CalcType)
        → IsRule double services dictionary objects (codes "Fixing_Date_Rule") fixing
        → IsRule double services dictionary objects (codes "Payment_Date_Rule") paying
        → IsRule double services dictionary objects
            (accrual_key double services dictionary (codes "Start_Adj_Rule"))
            starting
        → IsRule double services dictionary objects
            (accrual_key double services dictionary (codes "End_Adj_Rule"))
            ending
        → IsNamed dictionary (codes "Calc_Type") map_input_to_calc_type calculation
        → got.0 ≡ with_rules fixing paying starting ending calculation o
        → AreRules objects o got

  rules_from-AreRules :
      (objects : CacheMap Number) (o : Options) (cache : Cache) (got : Options × Cache)
      → (set_rule double services
            (codes "Fixing_Date_Rule")
            set_fix_adjustment
            dictionary
            objects
            (o, cache)
          >>= λ fixing.
              set_rule double services
                (codes "Payment_Date_Rule")
                set_pay_adjustment
                dictionary
                objects
                fixing
              >>= λ paying.
                  set_accrual_rules double services dictionary objects paying >>= λ accruing.
                  set_named
                    (codes "Calc_Type")
                    map_input_to_calc_type
                    set_calc_type
                    dictionary
                    accruing.0
                  >>= λ opts. ok (opts, accruing.1))
        ≡ ok got
      → AreRules objects o got
  rules_from-AreRules objects o cache got h =
      let (s₃, e₁, h₁) =
        chain_ok
          (set_rule double services (codes "Fixing_Date_Rule") set_fix_adjustment dictionary objects
            (o, cache))
          _ got h in
      let (s₄, e₂, h₂) =
        chain_ok
          (set_rule double services (codes "Payment_Date_Rule") set_pay_adjustment dictionary
            objects s₃)
          _ got h₁ in
      let (s₅, e₃, h₃) =
        chain_ok (set_accrual_rules double services dictionary objects s₄) _ got h₂ in
      let (o₆, e₄, h₄) =
        chain_ok
          (set_named (codes "Calc_Type") map_input_to_calc_type set_calc_type dictionary s₅.0) _ got
          h₃ in
      let (fixing, r₁, q₁) =
        set_rule-IsRule double services dictionary objects (codes "Fixing_Date_Rule")
          set_fix_adjustment (λ o. o.fix_adjustment) (o, cache) s₃ refl e₁ in
      let (paying, r₂, q₂) =
        set_rule-IsRule double services dictionary objects (codes "Payment_Date_Rule")
          set_pay_adjustment (λ o. o.pay_adjustment) s₃ s₄ refl e₂ in
      let (starting, ending, r₃, r₄, q₃) =
        accrual-both double services dictionary objects s₄ s₅ e₃ in
      let (calculation, n, q₄) =
        set_named-IsNamed (codes "Calc_Type") map_input_to_calc_type set_calc_type
          (λ o. o.calc_type) dictionary s₅.0 o₆ refl e₄ in
      rules fixing paying starting ending calculation r₁ r₂ r₃ r₄ n (
        ap (λ p. p.0) (sym (ok-injective h₄))
        ∙ all_set fixing paying starting ending calculation o s₃.0 s₄.0 s₅.0 o₆ q₁ q₂ q₃ q₄)

  rules-AreOptions :
      (objects : CacheMap Number) (direction_name : Text) (direction : DateDirection)
      (front back : Option StubType) (o : Options) (got : Options × Cache)
      → HasText dictionary (codes "Date_Dir") direction_name
      → map_input_to_date_dir direction_name ≡ ok direction
      → IsNamed dictionary (codes "Front_Stub_Type") map_input_to_stub front
      → IsNamed dictionary (codes "Back_Stub_Type") map_input_to_stub back
      → o
        ≡ set_back_stub_type (or_else back no_stub) (
            set_front_stub_type
              (or_else front no_stub)
              (set_date_direction direction default_options))
      → AreRules objects o got
      → AreOptions double services dictionary objects got.0
  rules-AreOptions objects direction_name direction front back o got found goes n₁ n₂ q
        (rules fixing paying starting ending calculation r₁ r₂ r₃ r₄ n₃ e) =
      let made = e ∙ ap (with_rules fixing paying starting ending calculation) q in
      subst (AreOptions double services dictionary objects) (sym made) (record {
        direction_name = direction_name;
        direction_found = found;
        goes = goes;
        front = front;
        back = back;
        front_named = n₁;
        front_set = refl;
        back_named = n₂;
        back_set = refl;
        fixing = fixing;
        fixing_rule = r₁;
        fixing_set = refl;
        paying = paying;
        paying_rule = r₂;
        paying_set = refl;
        starting = starting;
        starting_rule = r₃;
        starting_set = refl;
        ending = ending;
        ending_rule = r₄;
        ending_set = refl;
        calculation = calculation;
        calculation_named = n₃;
        calculation_set = refl;
        in_dollars = refl;
        of_fixed = refl;
        reset_first = refl;
      })

  pub options_from-AreOptions :
      (objects : CacheMap Number) (cache : Cache) (got : Options × Cache)
      → options_from double services dictionary objects cache ≡ ok got
      → AreOptions double services dictionary objects got.0
  unfolding options_from
  options_from-AreOptions objects cache got h =
      let (cell, e₁, h₁) = chain_ok (at (codes "Date_Dir") dictionary) _ got h in
      let (direction_name, e₂, h₂) = chain_ok (get_string cell) _ got h₁ in
      let (direction, e₃, h₃) = chain_ok (map_input_to_date_dir direction_name) _ got h₂ in
      let start : Options = set_date_direction direction default_options in
      let (o₁, e₄, h₄) =
        chain_ok
          (set_named (codes "Front_Stub_Type") map_input_to_stub set_front_stub_type dictionary
            start)
          _ got h₃ in
      let (front, n₁, q₁) =
        set_named-IsNamed (codes "Front_Stub_Type") map_input_to_stub set_front_stub_type
          (λ o. o.front_stub_type) dictionary start o₁ refl e₄ in
      let (o₂, e₅, h₅) =
        chain_ok
          (set_named (codes "Back_Stub_Type") map_input_to_stub set_back_stub_type dictionary o₁) _
          got h₄ in
      let (back, n₂, q₂) =
        set_named-IsNamed (codes "Back_Stub_Type") map_input_to_stub set_back_stub_type
          (λ o. o.back_stub_type) dictionary o₁ o₂ refl e₅ in
      rules-AreOptions objects direction_name direction front back o₂ got
        (text_at (codes "Date_Dir") direction_name dictionary cell e₁ e₂) e₃ n₁ n₂
        (q₂ ∙ ap (λ o. set_back_stub_type (or_else back o.back_stub_type) o) q₁)
        (rules_from-AreRules objects o₂ cache got h₅)
