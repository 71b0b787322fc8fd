-- ===== src/Oxl/Array/Examples.antt =====
-- Arrays of src/oxl/xl_api/xl_array.cpp at concrete cells.
use odin_analytics.Prelude.{◌≡◌, refl, [], ◌∷◌, ok, err, invalid_argument, runtime_error}
use odin_analytics.Prelude.Int.{ℤ, pos}
use odin_analytics.Prelude.Text.{codes}
use odin_analytics.Oxl.Variant.{number, string}
use odin_analytics.Oxl.Array.{
  XlArray, xl_array, is_ragged, from_lists, cell_at, to_vector, row_at, vector_at, collect,
}
use odin_analytics.Oxl.Array.Shape.{built_from_lists, IsShaped, IsBuilt-IsShaped, cell_at-bounds}

abbrev two_rows : XlArray ℤ
two_rows =
    xl_array 2 2
      ((string (codes "a") ∷ number (pos 1) ∷ []) ∷ (string (codes "b") ∷ number (pos 2) ∷ []) ∷ [])

two_rows_made :
    from_lists
      ((string (codes "a") ∷ number (pos 1) ∷ []) ∷ (string (codes "b") ∷ number (pos 2) ∷ []) ∷ [])
    ≡ ok two_rows
unfolding from_lists is_ragged
two_rows_made = refl

ragged : from_lists {N = ℤ} ((number (pos 1) ∷ []) ∷ [] ∷ []) ≡ err invalid_argument
unfolding from_lists is_ragged
ragged = refl

neither_row_nor_column : to_vector two_rows ≡ err runtime_error
unfolding to_vector
neither_row_nor_column = refl

a_row :
    to_vector (xl_array 1 2 ((number (pos 1) ∷ number (pos 2) ∷ []) ∷ []))
    ≡ ok (number (pos 1) ∷ number (pos 2) ∷ [])
unfolding to_vector collect cell_at row_at vector_at
a_row = refl

IsBuilt-IsShaped_example : IsShaped two_rows
IsBuilt-IsShaped_example = IsBuilt-IsShaped (built_from_lists _ two_rows two_rows_made)

cell_at-bounds_example : cell_at two_rows 1 1 ≡ ok (number (pos 2))
cell_at-bounds_example =
    cell_at-bounds two_rows 1 1 (number (pos 0)) (built_from_lists _ two_rows two_rows_made)
