-- ===== src/Oxl/Array/Shape.antt =====
-- The shape that every array of src/oxl/xl_api/xl_array.cpp has, and what it means for its cells.
use odin_analytics.Prelude.{
  ℕ, zero, suc, ◌<◌, ◌≤◌, ◌≡◌, refl, sym, subst, ◌∙◌, arith, false, Bool-cases, inl, inr, not, ◌&&◌,
  ltb, ◌==◌, if◌then◌else◌, List, [], ◌∷◌, length, length-replicate, length-set, set, get_elem?,
  get_or, get_elem?-get_or, replicate, none, ok, err, invalid_argument, out_of_range, chain_ok,
  ok-injective, guard_ok,
}
use odin_analytics.Oxl.Variant.{XlVariant}
use odin_analytics.Oxl.Array.{
  XlArray, xl_array, filled, is_ragged, from_lists, vector_at, row_at, cell_at, assign_cell,
  assign_row,
}

vector_at-in {ℓ} :
    {A : Type ℓ} (xs : List A) (i : ℕ) (d : A) → i < length xs → vector_at xs i ≡ ok (get_or xs i d)
unfolding vector_at
vector_at-in xs i d h = rw (get_elem?-get_or xs i d h)

get_elem?-out {ℓ} : {A : Type ℓ} (xs : List A) (i : ℕ) → length xs ≤ i → get_elem? xs i ≡ none
get_elem?-out [] i h = refl
get_elem?-out (x ∷ xs) zero h = absurd (omega arith)
get_elem?-out (x ∷ xs) (suc i) h = get_elem?-out xs i (omega arith)

vector_at-out {ℓ} :
    {A : Type ℓ} (xs : List A) (i : ℕ) → length xs ≤ i → vector_at xs i ≡ err out_of_range
unfolding vector_at
vector_at-out xs i h = rw (get_elem?-out xs i h)

module _ {ℓ} {N : Type ℓ} where
  abbrev pub HaveLength : ℕ → List (List (XlVariant N)) → Type 0
  HaveLength c [] = Unit
  HaveLength c (row ∷ rest) = (length row ≡ c) × HaveLength c rest

  -- As many rows as it says, each with as many cells as it says.
  abbrev pub IsShaped : XlArray N → Type 0
  IsShaped a = (length a.data_rows ≡ a.rows) × HaveLength a.cols a.data_rows

  -- The arrays that the operations make, one after the other.
  pub data IsBuilt : XlArray N → Type ℓ where
    built_filled : (r c : ℕ) (var : XlVariant N) → IsBuilt (filled r c var)
    built_from_lists :
        (xss : List (List (XlVariant N))) (a : XlArray N) → from_lists xss ≡ ok a → IsBuilt a
    built_assign_cell :
        (a next : XlArray N) (row col : ℕ) (value : XlVariant N)
        → IsBuilt a
        → assign_cell a row col value ≡ ok next
        → IsBuilt next
    built_assign_row :
        (a next : XlArray N) (row : ℕ) (cells : List (XlVariant N))
        → IsBuilt a
        → assign_row a row cells ≡ ok next
        → IsBuilt next

  HaveLength-replicate :
      (r c : ℕ) (cells : List (XlVariant N)) → length cells ≡ c → HaveLength c (replicate r cells)
  HaveLength-replicate zero c cells h = tt
  HaveLength-replicate (suc r) c cells h = (h, HaveLength-replicate r c cells h)

  HaveLength-set :
      (xss : List (List (XlVariant N))) (i c : ℕ) (cells : List (XlVariant N))
      → length cells ≡ c
      → HaveLength c xss
      → HaveLength c (set xss i cells)
  HaveLength-set [] i c cells h s = tt
  HaveLength-set (row ∷ rest) zero c cells h s = (h, s.1)
  HaveLength-set (row ∷ rest) (suc i) c cells h s = (s.0, HaveLength-set rest i c cells h s.1)

  HaveLength-get_or :
      (xss : List (List (XlVariant N))) (i c : ℕ) (d : List (XlVariant N))
      → i < length xss
      → HaveLength c xss
      → length (get_or xss i d) ≡ c
  HaveLength-get_or [] i c d h s = absurd (omega arith)
  HaveLength-get_or (row ∷ rest) zero c d h s = s.0
  HaveLength-get_or (row ∷ rest) (suc i) c d h s = HaveLength-get_or rest i c d (omega arith) s.1

  is_ragged-HaveLength :
      (c : ℕ) (xss : List (List (XlVariant N))) → is_ragged c xss ≡ false → HaveLength c xss
  unfolding is_ragged
  is_ragged-HaveLength c [] h = tt
  is_ragged-HaveLength c (row ∷ rest) h =
      let both : (length row ≡ c) × (is_ragged c rest ≡ false) = ground (arith, h) in
      (both.0, is_ragged-HaveLength c rest both.1)

  from_lists-IsShaped :
      (xss : List (List (XlVariant N))) (a : XlArray N) → from_lists xss ≡ ok a → IsShaped a
  unfolding from_lists
  from_lists-IsShaped [] a h = absurd (ground (arith, h))
  from_lists-IsShaped (first ∷ rest) a h =
      let (wide, h₂) = guard_ok (ltb (length first) 1) invalid_argument _ a h in
      let (even, h₃) = guard_ok (is_ragged (length first) (first ∷ rest)) invalid_argument _ a h₂ in
      subst IsShaped (ok-injective h₃)
        (refl, is_ragged-HaveLength (length first) (first ∷ rest) even)

  -- A row that is found is a row.
  row_at-length :
      (a : XlArray N) (row : ℕ) (cells : List (XlVariant N))
      → IsShaped a
      → row_at a row ≡ ok cells
      → length cells ≡ a.cols
  unfolding row_at
  row_at-length a row cells s h = elim (Bool-cases (ltb row (length a.data_rows))) [
    | inl there ↦
        let lt : row < length a.data_rows = ground arith in
        let e = ok-injective (sym (vector_at-in a.data_rows row [] lt) ∙ h) in
        subst (λ cs. length cs ≡ a.cols) e (HaveLength-get_or a.data_rows row a.cols [] lt s.1)
    | inr beyond ↦
        let e = sym (vector_at-out a.data_rows row (ground arith)) ∙ h in absurd (ground (arith, e))
  ]

  set-IsShaped :
      (a : XlArray N) (row : ℕ) (cells : List (XlVariant N))
      → IsShaped a
      → length cells ≡ a.cols
      → IsShaped (xl_array a.rows a.cols (set a.data_rows row cells))
  set-IsShaped a row cells s h =
      (length-set a.data_rows row cells ∙ s.0, HaveLength-set a.data_rows row a.cols cells h s.1)

  assign_cell-IsShaped :
      (a next : XlArray N) (row col : ℕ) (value : XlVariant N)
      → IsShaped a
      → assign_cell a row col value ≡ ok next
      → IsShaped next
  unfolding assign_cell
  assign_cell-IsShaped a next row col value s h =
      let (cells, found, h₂) = chain_ok (row_at a row) _ next h in
      let (old, inside, h₃) = chain_ok (vector_at cells col) _ next h₂ in
      subst IsShaped (ok-injective h₃) (
        set-IsShaped a row (set cells col value) s
          (length-set cells col value ∙ row_at-length a row cells s found))

  assign_row-IsShaped :
      (a next : XlArray N) (row : ℕ) (cells : List (XlVariant N))
      → IsShaped a
      → assign_row a row cells ≡ ok next
      → IsShaped next
  unfolding assign_row
  assign_row-IsShaped a next row cells s h =
      let (old, found, h₂) = chain_ok (row_at a row) _ next h in
      let (same, h₃) = guard_ok (not (length cells == length old)) invalid_argument _ next h₂ in
      let e : length cells ≡ length old = ground arith in
      subst IsShaped (ok-injective h₃)
        (set-IsShaped a row cells s (e ∙ row_at-length a row old s found))

  -- Every array that the operations make has its shape.
  pub IsBuilt-IsShaped : {a : XlArray N} → IsBuilt a → IsShaped a
  IsBuilt-IsShaped (built_filled r c var) = (
    length-replicate r (replicate c var),
    HaveLength-replicate r c (replicate c var) (length-replicate c var),
  )
  IsBuilt-IsShaped (built_from_lists xss a h) = from_lists-IsShaped xss a h
  IsBuilt-IsShaped (built_assign_cell a next row col value b h) =
      assign_cell-IsShaped a next row col value (IsBuilt-IsShaped b) h
  IsBuilt-IsShaped (built_assign_row a next row cells b h) =
      assign_row-IsShaped a next row cells (IsBuilt-IsShaped b) h

  -- A cell is read exactly at the rows and columns below the array's, and else it is out of range.
  pub cell_at-bounds :
      (a : XlArray N) (row col : ℕ) (d : XlVariant N)
      → IsBuilt a
      → cell_at a row col ≡ (
          if ltb row a.rows && ltb col a.cols
          then ok (get_or (get_or a.data_rows row []) col d)
          else err out_of_range)
  unfolding cell_at row_at
  cell_at-bounds a row col d b =
      let s = IsBuilt-IsShaped b in
      elim (Bool-cases (ltb row a.rows)) [
        | inl there ↦
            let lt : row < length a.data_rows = ground arith in
            let width = HaveLength-get_or a.data_rows row a.cols [] lt s.1 in
            rw (there, vector_at-in a.data_rows row [] lt)
              (elim (Bool-cases (ltb col a.cols)) [
                | inl in_row ↦
                    rw (in_row, vector_at-in (get_or a.data_rows row []) col d (ground arith))
                | inr beyond ↦
                    rw (beyond, vector_at-out (get_or a.data_rows row []) col (ground arith))
              ])
        | inr beyond ↦ rw (beyond, vector_at-out a.data_rows row (ground arith))
      ]
