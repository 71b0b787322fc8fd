-- ===== src/Oxl/Cache/Examples.antt =====
-- The cache of src/oxl/xl_api/cache_xl_obj.cpp at concrete objects.
use odin_analytics.Prelude.{◌≡◌, refl, List, [], ◌∷◌, some, ok, err, ◌>>=◌, out_of_range}
use odin_analytics.Prelude.Int.{ℤ, pos}
use odin_analytics.Prelude.Text.{Text, codes}
use odin_analytics.Oxl.Variant.{number}
use odin_analytics.Oxl.StdMap.{find_key}
use odin_analytics.Oxl.Array.{filled}
use odin_analytics.Oxl.Dictionary.Invariant.{made_empty}
use odin_analytics.Oxl.Converter.{array_to_dictionary}
use odin_analytics.Oxl.Cache.{
  CachedObjVar, cached_array, cached_dictionary, find_first, gen_handle_str, handle_prefix,
  create_object, oxl_display, get_key_from_handle,
}
use odin_analytics.Oxl.Cache.History.{run, find_key-run}
use odin_analytics.Oxl.Cache.Handles.{
  excel_name, gen_handle_str-cell, create_object-array_to_dictionary,
}

abbrev one_cell : CachedObjVar ℤ
one_cell = cached_array (filled 1 1 (number (pos 7)))

no_workbook : gen_handle_str (codes "Sheet1_$0$0") one_cell ≡ err out_of_range
unfolding gen_handle_str find_first
no_workbook = refl

colon_in_key : get_key_from_handle (codes "a:b:3") ≡ codes "a"
unfolding get_key_from_handle
colon_in_key = refl

abbrev two_writes : List (Text × CachedObjVar ℤ)
two_writes = (codes "A", one_cell) ∷ (codes "A", cached_dictionary []) ∷ []

find_key-run_example : find_key (codes "A") (run two_writes) ≡ some (one_cell, 1)
find_key-run_example = find_key-run (codes "A") two_writes

gen_handle_str-cell_example :
    gen_handle_str (excel_name (codes "Book") (codes "S_$0$0")) one_cell ≡ ok (codes "Array_S_$0$0")
unfolding handle_prefix
gen_handle_str-cell_example = gen_handle_str-cell one_cell (codes "Book") (codes "S_$0$0") refl

create_object-array_to_dictionary_example :
    (create_object (excel_name (codes "Book") (codes "S_$0$0")) (cached_dictionary []) []
      >>= λ created.
          oxl_display (number (pos 0)) created.0 created.1 >>= λ a. array_to_dictionary a)
    ≡ ok []
create_object-array_to_dictionary_example =
    create_object-array_to_dictionary (number (pos 0)) [] (codes "Book") (codes "S_$0$0") []
      made_empty refl refl
