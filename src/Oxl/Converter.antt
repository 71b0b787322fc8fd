-- ===== src/Oxl/Converter.antt =====
-- src/oxl/xl_api/xl_converter_funcs.cpp: arrays of two columns or two rows, and dictionaries.
mod Examples
pub mod RoundTrip
use odin_analytics.Prelude.{
  ℕ, zero, suc, Bool, not, ◌&&◌, ◌==◌, if◌then◌else◌, List, [], ◌∷◌, Result, ok, err, ◌>>=◌,
  invalid_argument, length,
}
use odin_analytics.Prelude.Text.{Text}
use odin_analytics.Oxl.Variant.{XlVariant, string, get_string}
use odin_analytics.Oxl.Dictionary.{XlDictionary, assign_at}
use odin_analytics.Oxl.Array.{XlArray, filled, cell_at, assign_cell}

module _ {ℓ} {N : Type ℓ} where
  -- The loops over the rows or the columns, from an index on for a number of rounds. The value of
  -- an assignment is read before its target.
  unfoldable pub fill_dictionary :
      (ℕ → Result (XlVariant N))
      → (ℕ → Result (XlVariant N))
      → ℕ
      → ℕ
      → XlDictionary N
      → Result (XlDictionary N)
  fill_dictionary key_cell value_cell i zero d = ok d
  fill_dictionary key_cell value_cell i (suc rounds) d = key_cell i >>= λ cell.
      get_string cell >>= λ key. value_cell i >>= λ value.
      assign_at key value d >>= λ next. fill_dictionary key_cell value_cell (suc i) rounds next

  unfoldable pub array_to_dictionary : XlArray N → Result (XlDictionary N)
  array_to_dictionary a =
      if not (a.rows == 2) && not (a.cols == 2)
      then err invalid_argument
      else if a.cols == 2
      then fill_dictionary (λ i. cell_at a i 0) (λ i. cell_at a i 1) 0 a.rows []
      else fill_dictionary (λ j. cell_at a 0 j) (λ j. cell_at a 1 j) 0 a.cols []

  unfoldable pub fill_array : List (Text × XlVariant N) → ℕ → XlArray N → Result (XlArray N)
  fill_array [] i a = ok a
  fill_array (pair ∷ pairs) i a = assign_cell a i 0 (string pair.0) >>= λ named.
      assign_cell named i 1 pair.1 >>= λ filled_row. fill_array pairs (suc i) filled_row

  -- The parameter is the value of a cell that nothing was assigned to.
  unfoldable pub dictionary_to_array : XlVariant N → XlDictionary N → Result (XlArray N)
  dictionary_to_array default d = fill_array d 0 (filled (length d) 2 default)
