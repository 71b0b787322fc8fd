-- ===== src/Oxl/Dictionary/Examples.antt =====
-- Dictionaries of src/oxl/xl_api/xl_dictionary.cpp at concrete entries.
use odin_analytics.Prelude.{◌≡◌, refl, [], ◌∷◌, some, ok, err, invalid_argument, bad_variant_access}
use odin_analytics.Prelude.Int.{ℤ, pos}
use odin_analytics.Prelude.Text.{codes}
use odin_analytics.Oxl.Variant.{number, get_string}
use odin_analytics.Oxl.StdMap.{find_key, assign}
use odin_analytics.Oxl.Dictionary.{
  XlDictionary, check_key, check_sizes, is_space, last_char, assign_at, insert_pairs,
  insert_variants, from_pairs, from_variants, apply_overrides,
}
use odin_analytics.Oxl.Dictionary.Invariant.{
  IsMade, made_from_pairs, made_apply_overrides, IsDictionary, IsMade-IsDictionary,
}
use odin_analytics.Oxl.Dictionary.Overrides.{find_key-apply_overrides}

abbrev bond : XlDictionary ℤ
bond = (codes "Notional", number (pos 100)) ∷ (codes "Rate", number (pos 5)) ∷ []

abbrev change : XlDictionary ℤ
change = (codes "Rate", number (pos 4)) ∷ []

bond_made :
    from_pairs ((codes "Rate", number (pos 5)) ∷ (codes "Notional", number (pos 100)) ∷ [])
    ≡ ok bond
unfolding from_pairs insert_pairs assign_at check_key is_space last_char assign
bond_made = refl

change_made : from_pairs change ≡ ok change
unfolding from_pairs insert_pairs assign_at check_key is_space last_char assign
change_made = refl

key_with_space : from_pairs {N = ℤ} ((codes "Rate ", number (pos 5)) ∷ []) ≡ err invalid_argument
unfolding from_pairs insert_pairs assign_at check_key is_space last_char
key_with_space = refl

key_of_number : from_variants (number (pos 1) ∷ []) (number (pos 2) ∷ []) ≡ err bad_variant_access
unfolding from_variants check_sizes insert_variants get_string
key_of_number = refl

bond-IsMade : IsMade bond
bond-IsMade = made_from_pairs _ bond bond_made

change-IsMade : IsMade change
change-IsMade = made_from_pairs _ change change_made

IsMade-IsDictionary_example : IsDictionary (apply_overrides bond change)
IsMade-IsDictionary_example =
    IsMade-IsDictionary (made_apply_overrides bond change bond-IsMade change-IsMade)

find_key-apply_overrides_example :
    find_key (codes "Rate") (apply_overrides bond change) ≡ some (number (pos 4))
unfolding find_key
find_key-apply_overrides_example = find_key-apply_overrides (codes "Rate") bond change change-IsMade
