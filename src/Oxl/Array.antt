-- ===== src/Oxl/Array.antt =====
-- src/oxl/xl_api/xl_array.cpp: arrays of cells. A view of a row is the index of the row.
mod Examples
pub mod Shape
use odin_analytics.Prelude.{
  ℕ, zero, suc, Bool, true, false, not, ◌||◌, ◌&&◌, ltb, ◌==◌, if◌then◌else◌, List, [], ◌∷◌, length,
  set, get_elem?, replicate, or_throw, Result, ok, err, ◌>>=◌, invalid_argument, out_of_range,
  runtime_error,
}
use odin_analytics.Oxl.Variant.{XlVariant}

pub record XlArray {ℓ} (N : Type ℓ) : Type ℓ where
  pub rows : ℕ
  pub cols : ℕ
  pub data_rows : List (List (XlVariant N))

-- `std::vector::at`.
unfoldable pub vector_at {ℓ} : {A : Type ℓ} → List A → ℕ → Result A
vector_at xs i = or_throw out_of_range (get_elem? xs i)

module _ {ℓ} {N : Type ℓ} where
  abbrev pub xl_array : ℕ → ℕ → List (List (XlVariant N)) → XlArray N
  xl_array r c xss = record { rows = r; cols = c; data_rows = xss }

  -- The constructor from the dimensions and one value.
  abbrev pub filled : ℕ → ℕ → XlVariant N → XlArray N
  filled r c var = xl_array r c (replicate r (replicate c var))

  -- The test of the rows of a list of lists.
  unfoldable pub is_ragged : ℕ → List (List (XlVariant N)) → Bool
  is_ragged c [] = false
  is_ragged c (row ∷ rest) = not (length row == c) || is_ragged c rest

  -- The constructor from a list of lists.
  unfoldable pub from_lists : List (List (XlVariant N)) → Result (XlArray N)
  from_lists [] = err invalid_argument
  from_lists (first ∷ rest) =
      if ltb (length first) 1
      then err invalid_argument
      else if is_ragged (length first) (first ∷ rest)
      then err invalid_argument
      else ok (xl_array (length (first ∷ rest)) (length first) (first ∷ rest))

  -- `operator[]` and the subscript of the row.
  unfoldable pub row_at : XlArray N → ℕ → Result (List (XlVariant N))
  row_at a i = vector_at a.data_rows i

  -- `operator()`.
  unfoldable pub cell_at : XlArray N → ℕ → ℕ → Result (XlVariant N)
  cell_at a row col = row_at a row >>= λ cells. vector_at cells col

  -- `array(row, col) = value`.
  unfoldable pub assign_cell : XlArray N → ℕ → ℕ → XlVariant N → Result (XlArray N)
  assign_cell a row col value = row_at a row >>= λ cells. vector_at cells col >>= λ old.
      ok (xl_array a.rows a.cols (set a.data_rows row (set cells col value)))

  -- `array[row] = data`, which keeps the number of columns.
  unfoldable pub assign_row : XlArray N → ℕ → List (XlVariant N) → Result (XlArray N)
  assign_row a row cells = row_at a row >>= λ old.
      if not (length cells == length old)
      then err invalid_argument
      else ok (xl_array a.rows a.cols (set a.data_rows row cells))

  -- The loops of `ToVector`, from an index on for a number of rounds.
  unfoldable pub collect : (ℕ → Result (XlVariant N)) → ℕ → ℕ → Result (List (XlVariant N))
  collect cell i zero = ok []
  collect cell i (suc rounds) =
      cell i >>= λ value. collect cell (suc i) rounds >>= λ rest. ok (value ∷ rest)

  unfoldable pub to_vector : XlArray N → Result (List (XlVariant N))
  to_vector a =
      if not (a.rows == 1) && not (a.cols == 1)
      then err runtime_error
      else if a.cols == 1
      then collect (λ i. cell_at a i 0) 0 a.rows
      else collect (λ j. cell_at a 0 j) 0 a.cols
