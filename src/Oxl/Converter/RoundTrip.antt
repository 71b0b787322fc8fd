-- ===== src/Oxl/Converter/RoundTrip.antt =====
-- A dictionary is read back from its array (src/oxl/xl_api/xl_converter_funcs.cpp).
use odin_analytics.Prelude.{
  get_elem?-middle, set-middle, pass_on, Bool, true, false, not, ◌&&◌, ◌==◌, ℕ, ◌≡◌, refl, ap, ◌∙◌,
  List, [], ◌∷◌, ◌++◌, length, replicate, ok, ◌>>=◌,
}
use odin_analytics.Prelude.Text.{Text}
use odin_analytics.Oxl.Variant.{XlVariant, string, get_string}
use odin_analytics.Oxl.StdMap.{assign, assign_all, assign_all-append}
use odin_analytics.Oxl.Dictionary.{XlDictionary, assign_at}
use odin_analytics.Oxl.Dictionary.Invariant.{IsMade, IsMade-IsDictionary, AreChecked}
use odin_analytics.Oxl.Array.{xl_array, vector_at, row_at, cell_at, assign_cell}
use odin_analytics.Oxl.Converter.{
  fill_dictionary, array_to_dictionary, fill_array, dictionary_to_array,
}

and_false : (b : Bool) → (b && false) ≡ false
and_false true = refl
and_false false = refl

module _ {ℓ} {N : Type ℓ} where
  -- The row of an entry.
  abbrev row_of : Text × XlVariant N → List (XlVariant N)
  row_of entry = string entry.0 ∷ entry.1 ∷ []

  -- The rows of entries.
  abbrev rows_of : XlDictionary N → List (List (XlVariant N))
  rows_of [] = []
  rows_of (entry ∷ rest) = row_of entry ∷ rows_of rest

  -- The loop that fills the array has `before` behind it and untouched rows ahead.
  fill_array-rows :
      (default : XlVariant N) (r : ℕ) (d : XlDictionary N) (before : List (List (XlVariant N)))
      → fill_array d
          (length before)
          (xl_array r 2 (before ++ replicate (length d) (replicate 2 default)))
        ≡ ok (xl_array r 2 (before ++ rows_of d))
  unfolding fill_array assign_cell row_at vector_at
  fill_array-rows default r [] before = refl
  fill_array-rows default r (entry ∷ rest) before =
      let blank = replicate (length rest) (replicate 2 default) in
      rw
        (
          get_elem?-middle before blank (replicate 2 default),
          set-middle before blank (replicate 2 default) (string entry.0 ∷ default ∷ []),
          get_elem?-middle before blank (string entry.0 ∷ default ∷ []),
          set-middle before blank (string entry.0 ∷ default ∷ []) (row_of entry),
        )
        (pass_on before blank (rows_of rest) (row_of entry)
          (λ n xss yss. fill_array rest n (xl_array r 2 xss) ≡ ok (xl_array r 2 yss))
          (fill_array-rows default r rest (before ++ row_of entry ∷ [])))

  -- The array of a dictionary has a row for each entry, in the order of the keys.
  dictionary_to_array-rows :
      (default : XlVariant N) (d : XlDictionary N)
      → dictionary_to_array default d ≡ ok (xl_array (length d) 2 (rows_of d))
  unfolding dictionary_to_array
  dictionary_to_array-rows default d = fill_array-rows default (length d) d []

  -- The loop that fills the dictionary has `before` behind it.
  fill_dictionary-rows :
      (r : ℕ) (rest : XlDictionary N) (before : List (List (XlVariant N))) (d : XlDictionary N)
      → AreChecked rest
      → fill_dictionary
          (λ i. cell_at (xl_array r 2 (before ++ rows_of rest)) i 0)
          (λ i. cell_at (xl_array r 2 (before ++ rows_of rest)) i 1)
          (length before)
          (length rest)
          d
        ≡ ok (assign_all rest d)
  unfolding fill_dictionary cell_at row_at vector_at get_string assign_at assign_all
  fill_dictionary-rows r [] before d c = refl
  fill_dictionary-rows r (entry ∷ rest) before d c =
      rw (get_elem?-middle before (rows_of rest) (row_of entry), c.0)
        (pass_on before (rows_of rest) (rows_of rest) (row_of entry)
          (λ n xss yss.
            fill_dictionary (λ i. cell_at (xl_array r 2 xss) i 0)
              (λ i. cell_at (xl_array r 2 xss) i 1) n (length rest) (assign entry.0 entry.1 d)
            ≡ ok (assign_all rest (assign entry.0 entry.1 d)))
          (fill_dictionary-rows r rest (before ++ row_of entry ∷ []) (assign entry.0 entry.1 d)
            c.1))

  read_rows :
      (d : XlDictionary N)
      → AreChecked d
      → array_to_dictionary (xl_array (length d) 2 (rows_of d)) ≡ ok (assign_all d [])
  unfolding array_to_dictionary
  read_rows d c = rw (and_false (not (length d == 2))) (fill_dictionary-rows (length d) d [] [] c)

  -- A dictionary that the operations made is read back from the array that it is written to.
  pub array_to_dictionary-dictionary_to_array :
      (default : XlVariant N) (d : XlDictionary N)
      → IsMade d
      → (dictionary_to_array default d >>= λ a. array_to_dictionary a) ≡ ok d
  array_to_dictionary-dictionary_to_array default d made =
      let i = IsMade-IsDictionary made in
      rw (dictionary_to_array-rows default d) (read_rows d i.1 ∙ ap ok (assign_all-append d [] i.0))
