-- ===== src/Oxl/Cache/Handles.antt =====
-- The handles of cached objects (src/oxl/xl_api/cache_xl_obj.cpp).
use odin_analytics.Prelude.{
  ℕ, suc, ◌≡◌, refl, ap, ◌∙◌, arith, Bool, true, false, chain_assoc, chain_step, out_of_range, ◌==◌,
  if◌then◌else◌, [], ◌∷◌, ◌++◌, length, some, ok, ◌>>=◌, or_throw,
}
use odin_analytics.Prelude.Text.{Text, codes, eqb_text_refl, drop_chars}
use odin_analytics.Oxl.Variant.{XlVariant}
use odin_analytics.Oxl.StdMap.{find_key, find_key-assign, has_value, contains}
use odin_analytics.Oxl.Dictionary.{XlDictionary}
use odin_analytics.Oxl.Dictionary.Invariant.{IsMade}
use odin_analytics.Oxl.Converter.{array_to_dictionary}
use odin_analytics.Oxl.Converter.RoundTrip.{array_to_dictionary-dictionary_to_array}
use odin_analytics.Oxl.Cache.{
  CachedObjVar, cached_array, cached_dictionary, CacheMap, get_key_from_handle, find_first, erase,
  next_of, insert_object, load_pair, get_variant, is_handle, cache_name, handle_prefix,
  next_version, show_version, gen_handle_str, shown, oxl_display, create_object,
}

-- Texts without a character.
abbrev pub has_char : ℕ → Text → Bool
has_char c [] = false
has_char c (d ∷ ds) = let later = has_char c ds in if d == c then true else later

-- "[book]place".
abbrev pub excel_name : Text → Text → Text
excel_name book place = 91 ∷ (book ++ 93 ∷ place)

get_key_from_handle-append :
    (key rest : Text)
    → has_char 58 key ≡ false
    → get_key_from_handle (key ++ codes ":" ++ rest) ≡ key
unfolding get_key_from_handle
get_key_from_handle-append [] rest h = refl
get_key_from_handle-append (c ∷ cs) rest h =
    let both : ((c == 58) ≡ false) × (has_char 58 cs ≡ false) = ground (arith, h) in
    rw (both.0, get_key_from_handle-append cs rest both.1)

get_key_from_handle-key : (key : Text) → has_char 58 key ≡ false → get_key_from_handle key ≡ key
unfolding get_key_from_handle
get_key_from_handle-key [] h = refl
get_key_from_handle-key (c ∷ cs) h =
    let both : ((c == 58) ≡ false) × (has_char 58 cs ≡ false) = ground (arith, h) in
    rw (both.0, get_key_from_handle-key cs both.1)

find_first-skip :
    (c : ℕ) (s rest : Text) → has_char c s ≡ false → find_first c (s ++ c ∷ rest) ≡ some (length s)
unfolding find_first
find_first-skip c [] rest h = ground arith
find_first-skip c (d ∷ ds) rest h =
    let both : ((d == c) ≡ false) × (has_char c ds ≡ false) = ground (arith, h) in
    rw (both.0, find_first-skip c ds rest both.1)

drop_chars-past : (s rest : Text) (c : ℕ) → drop_chars (suc (length s)) (s ++ c ∷ rest) ≡ rest
drop_chars-past [] rest c = refl
drop_chars-past (d ∷ ds) rest c = drop_chars-past ds rest c

has_char-append :
    (c : ℕ) (s t : Text) → has_char c s ≡ false → has_char c t ≡ false → has_char c (s ++ t) ≡ false
has_char-append c [] t h k = k
has_char-append c (d ∷ ds) t h k =
    let both : ((d == c) ≡ false) × (has_char c ds ≡ false) = ground (arith, h) in
    rw (both.0, has_char-append c ds t both.1 k)

module _ {ℓ} {N : Type ℓ} where
  -- Where Excel names a cell by its workbook in brackets and then its place, the handle of an object
  -- is the place behind the kind of the object.
  pub gen_handle_str-cell :
      (obj : CachedObjVar N) (book place : Text)
      → has_char 93 book ≡ false
      → gen_handle_str (excel_name book place) obj ≡ ok (handle_prefix obj ++ place)
  unfolding gen_handle_str next_of erase
  gen_handle_str-cell obj book place h =
      let cell_loc = excel_name book place in
      chain_step (or_throw out_of_range (find_first 91 cell_loc)) _ 0
        (ap (or_throw out_of_range) (find_first-skip 91 [] (book ++ 93 ∷ place) refl))
      ∙ ap (λ o. ok (drop_chars (next_of o) cell_loc) >>= λ base. ok (handle_prefix obj ++ base))
          (find_first-skip 93 (91 ∷ book) place h)
      ∙ ap (λ base. ok (handle_prefix obj ++ base)) (drop_chars-past book place 93)

  insert_object-found :
      (obj : CachedObjVar N) (key : Text) (cache : CacheMap N)
      → find_key key (insert_object obj key cache) ≡ some (obj, next_version (find_key key cache))
  unfolding insert_object
  insert_object-found obj key cache =
      find_key-assign key key (obj, next_version (find_key key cache)) cache
      ∙ rw (eqb_text_refl key)

  -- An object that is there is shown by every text that begins with its key and a colon.
  display_found :
      (default : XlVariant N) (obj : CachedObjVar N) (key rest : Text) (version : ℕ)
      (cache : CacheMap N)
      → has_char 58 key ≡ false
      → find_key key cache ≡ some (obj, version)
      → oxl_display default (key ++ codes ":" ++ rest) cache ≡ shown default obj
  unfolding oxl_display is_handle get_variant load_pair contains has_value
  display_found default obj key rest version cache plain h =
      rw (get_key_from_handle-append key rest plain, get_key_from_handle-key key plain, h)

  handle_prefix-plain : (obj : CachedObjVar N) → has_char 58 (handle_prefix obj) ≡ false
  unfolding handle_prefix
  handle_prefix-plain (cached_array a) = refl
  handle_prefix-plain (cached_dictionary d) = refl

  -- An object that a cell creates is shown by the handle that the cell is given, if its name is
  -- that of a workbook in brackets and a place without a colon.
  create_object-display :
      (default : XlVariant N) (obj : CachedObjVar N) (book place : Text) (cache : CacheMap N)
      → has_char 93 book ≡ false
      → has_char 58 place ≡ false
      → (create_object (excel_name book place) obj cache >>= λ made.
          oxl_display default made.0 made.1)
        ≡ shown default obj
  unfolding create_object cache_name load_pair
  create_object-display default obj book place cache h k =
      let key = handle_prefix obj ++ place in
      let plain = has_char-append 58 (handle_prefix obj) place (handle_prefix-plain obj) k in
      rw (gen_handle_str-cell obj book place h, insert_object-found obj key cache)
        (display_found default obj key (show_version (next_version (find_key key cache)))
          (next_version (find_key key cache)) (insert_object obj key cache) plain
          (insert_object-found obj key cache))

  -- A dictionary that a cell creates is read back from what its handle shows, whatever the cache has,
  -- if the cell's name is that of a workbook in brackets and a place without a colon.
  pub create_object-array_to_dictionary :
      (default : XlVariant N) (d : XlDictionary N) (book place : Text) (cache : CacheMap N)
      → IsMade d
      → has_char 93 book ≡ false
      → has_char 58 place ≡ false
      → (create_object (excel_name book place) (cached_dictionary d) cache >>= λ created.
          oxl_display default created.0 created.1 >>= λ a. array_to_dictionary a)
        ≡ ok d
  unfolding shown
  create_object-array_to_dictionary default d book place cache made h k =
      chain_assoc (create_object (excel_name book place) (cached_dictionary d) cache)
        (λ created. oxl_display default created.0 created.1) (λ a. array_to_dictionary a)
      ∙ ap (λ r. r >>= λ a. array_to_dictionary a)
          (create_object-display default (cached_dictionary d) book place cache h k)
      ∙ array_to_dictionary-dictionary_to_array default d made
