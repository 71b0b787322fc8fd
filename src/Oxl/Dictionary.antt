-- ===== src/Oxl/Dictionary.antt =====
-- src/oxl/xl_api/xl_dictionary.cpp: dictionaries of cells, behind a check of the keys.
mod Examples
pub mod Invariant
mod Overrides
use odin_analytics.Prelude.{
  ℕ, Bool, true, false, ◌||◌, leb, ◌==◌, ◌&&◌, if◌then◌else◌, List, [], ◌∷◌, length, or_throw, none,
  some, Result, ok, err, ◌>>=◌, undefined, invalid_argument, out_of_range,
}
use odin_analytics.Prelude.Text.{Text}
use odin_analytics.Oxl.Variant.{XlVariant, get_string}
use odin_analytics.Oxl.StdMap.{StdMap, find_key, assign, assign_all, contains}

abbrev pub XlDictionary {ℓ} : Type ℓ → Type ℓ
XlDictionary N = StdMap (XlVariant N)

-- `std::isspace` in the "C" locale.
unfoldable pub is_space : ℕ → Bool
is_space c = c == 32 || (leb 9 c && leb c 13)

unfoldable pub last_char : ℕ → Text → ℕ
last_char c [] = c
last_char c (d ∷ ds) = last_char d ds

unfoldable pub check_key : Text → Result {0} Unit
unfolding last_char
check_key [] = err invalid_argument
check_key (c ∷ cs) = if is_space c || is_space (last_char c cs) then err invalid_argument else ok tt

unfoldable pub check_sizes : ℕ → ℕ → Result {0} Unit
check_sizes n_keys n_values = if n_keys == n_values then ok tt else err invalid_argument

module _ {ℓ} {N : Type ℓ} where
  -- `dictionary[key] = value`.
  unfoldable pub assign_at : Text → XlVariant N → XlDictionary N → Result (XlDictionary N)
  assign_at key value d = check_key key >>= λ checked. ok (assign key value d)

  -- The loops of the constructors. A key without a value is not met, as the sizes are the same.
  unfoldable pub insert_keys :
      List Text → List (XlVariant N) → XlDictionary N → Result (XlDictionary N)
  insert_keys [] values d = ok d
  insert_keys (key ∷ keys) [] d = err undefined
  insert_keys (key ∷ keys) (value ∷ values) d =
      assign_at key value d >>= λ next. insert_keys keys values next

  unfoldable pub insert_variants :
      List (XlVariant N) → List (XlVariant N) → XlDictionary N → Result (XlDictionary N)
  insert_variants [] values d = ok d
  insert_variants (key ∷ keys) [] d = err undefined
  insert_variants (key ∷ keys) (value ∷ values) d =
      get_string key >>= λ name. assign_at name value d >>= λ next. insert_variants keys values next

  unfoldable pub insert_pairs : List (Text × XlVariant N) → XlDictionary N → Result (XlDictionary N)
  insert_pairs [] d = ok d
  insert_pairs (pair ∷ pairs) d = assign_at pair.0 pair.1 d >>= λ next. insert_pairs pairs next

  -- The three constructors.
  unfoldable pub from_keys : List Text → List (XlVariant N) → Result (XlDictionary N)
  from_keys keys values =
      check_sizes (length keys) (length values) >>= λ checked. insert_keys keys values []

  unfoldable pub from_variants : List (XlVariant N) → List (XlVariant N) → Result (XlDictionary N)
  from_variants keys values =
      check_sizes (length keys) (length values) >>= λ checked. insert_variants keys values []

  unfoldable pub from_pairs : List (Text × XlVariant N) → Result (XlDictionary N)
  from_pairs pairs = insert_pairs pairs []

  -- A read with the subscript of a dictionary that may change: the value, and the dictionary, which
  -- gets the default value under a key that it does not have.
  unfoldable pub subscript :
      XlVariant N → Text → XlDictionary N → Result (XlVariant N × XlDictionary N)
  subscript default key d = check_key key >>= λ checked. elim (find_key key d) [
    | none ↦ ok (default, assign key default d)
    | some value ↦ ok (value, d)
  ]

  -- The subscript of a constant dictionary.
  unfoldable pub at : Text → XlDictionary N → Result (XlVariant N)
  at key d = or_throw out_of_range (find_key key d)

  -- `ApplyOverrides` runs over the other dictionary in the order of its keys.
  unfoldable pub apply_overrides : XlDictionary N → XlDictionary N → XlDictionary N
  apply_overrides d overrides_dict = assign_all overrides_dict d

  unfoldable pub size : XlDictionary N → ℕ
  size d = length d

  unfoldable pub is_empty : XlDictionary N → Bool
  is_empty [] = true
  is_empty (entry ∷ rest) = false
