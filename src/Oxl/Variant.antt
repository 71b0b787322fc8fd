-- ===== src/Oxl/Variant.antt =====
-- src/oxl/xl_api/xl_variant.h: the values of cells, with `double` as a parameter.
use odin_analytics.Prelude.{Bool, Result, ok, err, bad_variant_access}
use odin_analytics.Prelude.Text.{Text}

pub data XlVariant {ℓ} (N : Type ℓ) : Type ℓ where
  number : N → XlVariant N
  string : Text → XlVariant N
  boolean : Bool → XlVariant N

module _ {ℓ} {N : Type ℓ} where
  -- `std::get` for the alternatives that are asked for.
  unfoldable pub get_number : XlVariant N → Result N
  get_number (number x) = ok x
  get_number (string s) = err bad_variant_access
  get_number (boolean b) = err bad_variant_access

  unfoldable pub get_string : XlVariant N → Result Text
  get_string (number x) = err bad_variant_access
  get_string (string s) = ok s
  get_string (boolean b) = err bad_variant_access
