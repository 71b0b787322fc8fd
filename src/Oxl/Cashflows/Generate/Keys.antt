-- ===== src/Oxl/Cashflows/Generate/Keys.antt =====
-- The keys that `OxlGenerateCashflow` (src/oxl/time_xl.cpp) asks a dictionary for.
use odin_analytics.Prelude.{
  ℕ, suc, ◌≡◌, refl, arith, Bool, true, false, ◌&&◌, ◌||◌, ◌⊎◌, inl, inr, get_elem?, List, [], ◌∷◌,
  none, some,
}
use odin_analytics.Prelude.Text.{Text, codes}
use odin_analytics.Oxl.StdMap.{contains, find_key}
use odin_analytics.Oxl.Dictionary.{XlDictionary}
use odin_analytics.Oxl.Cashflows.{valid_cashflow_gen_dictionary}
use odin_analytics.Oxl.Cashflows.Generate.Readings.{contains-find_key}

abbrev pub required_message : Text
required_message =
    codes
      "Invalid Dictionary. Required: Start_Date, Mat_Date, Notional, Rate, Day_Count_Frac, Date_Dir, Front/Back_Stub_Type, and Frequency!"

-- The keys that a bond must have, and one of the two for the types of its stubs.
abbrev pub bond_keys : List Text
bond_keys =
    codes "Start_Date"
    ∷ codes "Mat_Date"
    ∷ codes "Notional"
    ∷ codes "Rate"
    ∷ codes "Day_Count_Frac"
    ∷ codes "Frequency"
    ∷ codes "Date_Dir"
    ∷ []

module _ {N : Type 0} (dictionary : XlDictionary N) where
  pub data LacksKey : Type 0 where
    lacks_term :
        (i : ℕ) (key : Text)
        → get_elem? bond_keys i ≡ some key
        → find_key key dictionary ≡ none
        → LacksKey
    lacks_stubs :
        find_key (codes "Front_Stub_Type") dictionary ≡ none
        → find_key (codes "Back_Stub_Type") dictionary ≡ none
        → LacksKey

  has_keys : Bool → List Text → Bool
  has_keys before [] = before
  has_keys before (key ∷ keys) = has_keys (before && contains key dictionary) keys

  and_false : (a b : Bool) → (a && b) ≡ false → (a ≡ false) ⊎ (b ≡ false)
  and_false true b h = inr h
  and_false false b h = inl refl

  or_false : (a b : Bool) → (a || b) ≡ false → (a ≡ false) × (b ≡ false)
  or_false true b h = absurd (ground arith)
  or_false false b h = (refl, h)

  has_keys-false :
      (before : Bool) (keys : List Text)
      → has_keys before keys ≡ false
      → (before ≡ false)
        ⊎ ((i : ℕ) × (key : Text) × (get_elem? keys i ≡ some key)
            × (find_key key dictionary ≡ none))
  unfolding has_keys
  has_keys-false before [] h = inl h
  has_keys-false before (key ∷ keys) h =
      elim (has_keys-false (before && contains key dictionary) keys h) [
        | inl here ↦ elim (and_false before (contains key dictionary) here) [
          | inl earlier ↦ inl earlier
          | inr lacking ↦ inr (0, key, refl, contains-find_key key dictionary lacking)
        ]
        | inr found ↦ inr (suc found.0, found.1, found.2, found.3)
      ]

  pub lacking-LacksKey : valid_cashflow_gen_dictionary dictionary ≡ false → LacksKey
  unfolding valid_cashflow_gen_dictionary has_keys
  lacking-LacksKey h = elim (and_false (has_keys true bond_keys) _ h) [
    | inl term ↦ elim (has_keys-false true bond_keys term) [
      | inl never ↦ absurd (ground arith)
      | inr (i, key, listed, absent) ↦ lacks_term i key listed absent
    ]
    | inr stubs ↦
        let (front, back) = or_false _ _ stubs in
        lacks_stubs (contains-find_key _ dictionary front) (contains-find_key _ dictionary back)
  ]
