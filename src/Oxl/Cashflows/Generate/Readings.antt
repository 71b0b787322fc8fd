-- ===== src/Oxl/Cashflows/Generate/Readings.antt =====
-- What `OxlGenerateCashflow` (src/oxl/time_xl.cpp) reads of a dictionary, by its keys.
use odin_analytics.Prelude.{
  ◌≡◌, refl, sym, ap, ◌∙◌, false, Bool-cases, inl, inr, Option, none, some, Result, ok, if_true,
  if_false, or_throw, out_of_range, chain_ok, ok-injective, arith,
}
use odin_analytics.Prelude.Text.{Text}
use odin_analytics.DerivedTime.CashflowGen.{Options}
use odin_analytics.Oxl.Variant.{XlVariant, number, string, boolean, get_number, get_string}
use odin_analytics.Oxl.StdMap.{contains, find_key, has_value}
use odin_analytics.Oxl.Dictionary.{XlDictionary, at}
use odin_analytics.Oxl.Cashflows.{set_named}

abbrev pub or_else {ℓ} : {A : Type ℓ} → Option A → A → A
or_else none other = other
or_else (some a) other = a

module _ {N : Type 0} where
  -- The text under a key.
  abbrev pub HasText : XlDictionary N → Text → Text → Type 0
  HasText dictionary key s = find_key key dictionary ≡ some (string s)

  -- What the text under a key names, if the key is there.
  pub data IsNamed {A : Type 0} (dictionary : XlDictionary N) (key : Text) (named : Text → Result A)
      : Option A → Type 0 where
    no_name : find_key key dictionary ≡ none → IsNamed dictionary key named none
    name :
        (s : Text) (value : A)
        → HasText dictionary key s
        → named s ≡ ok value
        → IsNamed dictionary key named (some value)

  pub at-find_key :
      (key : Text) (d : XlDictionary N) (cell : XlVariant N)
      → at key d ≡ ok cell
      → find_key key d ≡ some cell
  unfolding at
  at-find_key key d cell h = split (find_key key d) h
    where
      split : (o : Option (XlVariant N)) → or_throw out_of_range o ≡ ok cell → o ≡ some cell
      split none h = absurd (ground arith)
      split (some v) h = ap some (ok-injective h)

  pub get_string-string : (cell : XlVariant N) (s : Text) → get_string cell ≡ ok s → cell ≡ string s
  unfolding get_string
  get_string-string (number x) s h = absurd (ground arith)
  get_string-string (string t) s h = ap string (ok-injective h)
  get_string-string (boolean b) s h = absurd (ground arith)

  pub get_number-number : (cell : XlVariant N) (x : N) → get_number cell ≡ ok x → cell ≡ number x
  unfolding get_number
  get_number-number (number y) x h = ap number (ok-injective h)
  get_number-number (string t) x h = absurd (ground arith)
  get_number-number (boolean b) x h = absurd (ground arith)

  pub text_at :
      (key s : Text) (d : XlDictionary N) (cell : XlVariant N)
      → at key d ≡ ok cell
      → get_string cell ≡ ok s
      → HasText d key s
  text_at key s d cell h k = at-find_key key d cell h ∙ ap some (get_string-string cell s k)

  pub number_at :
      (key : Text) (x : N) (d : XlDictionary N) (cell : XlVariant N)
      → at key d ≡ ok cell
      → get_number cell ≡ ok x
      → find_key key d ≡ some (number x)
  number_at key x d cell h k = at-find_key key d cell h ∙ ap some (get_number-number cell x k)

  pub contains-find_key :
      (key : Text) (d : XlDictionary N) → contains key d ≡ false → find_key key d ≡ none
  unfolding contains has_value
  contains-find_key key d h = split (find_key key d) h
    where
      split : (o : Option (XlVariant N)) → has_value o ≡ false → o ≡ none
      split none h = refl
      split (some v) h = absurd (ground arith)

  -- An option that a text names is set to what it names, and else kept.
  pub set_named-IsNamed :
      {A : Type 0} (key : Text) (named : Text → Result A) (setter : A → Options → Options)
      (member : Options → A) (d : XlDictionary N) (opts got : Options)
      → setter (member opts) opts ≡ opts
      → set_named key named setter d opts ≡ ok got
      → (v : Option A) × IsNamed d key named v × (got ≡ setter (or_else v (member opts)) opts)
  unfolding set_named
  set_named-IsNamed key named setter member d opts got same h = elim (Bool-cases (contains key d)) [
    | inl there ↦
        let (cell, found, h₁) = chain_ok (at key d) _ got (sym (if_true _ _ _ there) ∙ h) in
        let (s, text, h₂) = chain_ok (get_string cell) _ got h₁ in
        let (value, names, h₃) = chain_ok (named s) _ got h₂ in
        (some value, name s value (text_at key s d cell found text) names, sym (ok-injective h₃))
    | inr lacking ↦ (
      none,
      no_name (contains-find_key key d lacking),
      sym (ok-injective (sym (if_false _ _ _ lacking) ∙ h)) ∙ sym same,
    )
  ]
