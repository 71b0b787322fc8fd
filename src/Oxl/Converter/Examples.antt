-- ===== src/Oxl/Converter/Examples.antt =====
-- The conversions of src/oxl/xl_api/xl_converter_funcs.cpp at concrete entries.
use odin_analytics.Prelude.{◌≡◌, refl, [], ◌∷◌, ok, err, ◌>>=◌, invalid_argument}
use odin_analytics.Prelude.Int.{ℤ, pos}
use odin_analytics.Prelude.Text.{codes}
use odin_analytics.Oxl.Variant.{number}
use odin_analytics.Oxl.StdMap.{assign}
use odin_analytics.Oxl.Array.{filled}
use odin_analytics.Oxl.Dictionary.{
  XlDictionary, check_key, is_space, last_char, assign_at, insert_pairs, from_pairs,
}
use odin_analytics.Oxl.Dictionary.Invariant.{made_from_pairs}
use odin_analytics.Oxl.Converter.{array_to_dictionary, dictionary_to_array}
use odin_analytics.Oxl.Converter.RoundTrip.{array_to_dictionary-dictionary_to_array}

abbrev bond : XlDictionary ℤ
bond = (codes "Notional", number (pos 100)) ∷ (codes "Rate", number (pos 5)) ∷ []

bond_made : from_pairs bond ≡ ok bond
unfolding from_pairs insert_pairs assign_at check_key is_space last_char assign
bond_made = refl

three_by_three : array_to_dictionary (filled 3 3 (number (pos 0))) ≡ err invalid_argument
unfolding array_to_dictionary
three_by_three = refl

array_to_dictionary-dictionary_to_array_example :
    (dictionary_to_array (number (pos 0)) bond >>= λ a. array_to_dictionary a) ≡ ok bond
array_to_dictionary-dictionary_to_array_example =
    array_to_dictionary-dictionary_to_array (number (pos 0)) bond
      (made_from_pairs bond bond bond_made)
