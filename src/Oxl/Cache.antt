-- ===== src/Oxl/Cache.antt =====
-- src/oxl/xl_api/cache_xl_obj.cpp: the objects that cells hold on to by their handles. A mutex is
-- held in each access, so accesses are handled one after the other; an object behind a shared
-- pointer is not changed once it is made.
mod Examples
pub mod History
pub mod Handles
use odin_analytics.Prelude.{
  ℕ, zero, suc, ◌+◌, ◌%◌, ◌^◌, Bool, true, false, not, ◌==◌, if◌then◌else◌, List, [], ◌∷◌, ◌++◌,
  Option, none, some, Result, ok, err, ◌>>=◌, or_throw, undefined, out_of_range, runtime_error,
}
use odin_analytics.Prelude.Text.{Text, codes, drop_chars}
use odin_analytics.Strings.{show_digits}
use odin_analytics.Oxl.Variant.{XlVariant}
use odin_analytics.Oxl.StdMap.{StdMap, find_key, assign, contains}
use odin_analytics.Oxl.Dictionary.{XlDictionary}
use odin_analytics.Oxl.Array.{XlArray}
use odin_analytics.Oxl.Converter.{dictionary_to_array}

pub data CachedObjVar {ℓ} (N : Type ℓ) : Type ℓ where
  cached_array : XlArray N → CachedObjVar N
  cached_dictionary : XlDictionary N → CachedObjVar N

-- `CacheMap`: the objects with their versions, by their keys.
abbrev pub CacheMap {ℓ} : Type ℓ → Type ℓ
CacheMap N = StdMap (CachedObjVar N × ℕ)

-- `find(":")` and `substr`: up to the first colon, or all.
unfoldable pub get_key_from_handle : Text → Text
get_key_from_handle [] = []
get_key_from_handle (c ∷ cs) = let rest = get_key_from_handle cs in if c == 58 then [] else c ∷ rest

-- `find_first_of` with one character.
unfoldable pub find_first : ℕ → Text → Option ℕ
find_first c [] = none
find_first c (d ∷ ds) =
    let later = find_first c ds in
    if d == c then some 0 else elim later [ none ↦ none | some i ↦ some (suc i) ]

-- `erase(start, count)`, which throws if the start is past the end.
unfoldable pub erase : ℕ → ℕ → Text → Result Text
erase zero count s = ok (drop_chars count s)
erase (suc start) count [] = err out_of_range
erase (suc start) count (c ∷ cs) = erase start count cs >>= λ rest. ok (c ∷ rest)

-- `end + 1`, which is zero where `end` is `npos`.
unfoldable pub next_of : Option ℕ → ℕ
next_of none = 0
next_of (some i) = suc i

-- What a stream of `std::format` writes for a `std::size_t`, which has at most twenty digits.
unfoldable pub show_version : ℕ → Text
show_version n = show_digits 20 n

module _ {ℓ} {N : Type ℓ} where
  -- `version`, and `++stored_version` if the key is there, on 64 bits.
  unfoldable pub next_version : Option (CachedObjVar N × ℕ) → ℕ
  next_version none = 0
  next_version (some stored) = (stored.1 + 1) % 2 ^ 64

  -- The constructor of `XlCacheObj`: the cache afterwards.
  unfoldable pub insert_object : CachedObjVar N → Text → CacheMap N → CacheMap N
  insert_object obj key cache = assign key (obj, next_version (find_key key cache)) cache

  -- `find(key)->second` is undefined where the key is not there.
  unfoldable pub load_pair : Text → CacheMap N → Result (CachedObjVar N × ℕ)
  load_pair key cache = or_throw undefined (find_key key cache)

  unfoldable pub get_variant : Text → CacheMap N → Result (CachedObjVar N)
  get_variant key cache = load_pair key cache >>= λ stored. ok stored.0

  unfoldable pub is_handle : Text → CacheMap N → Bool
  is_handle handle cache = contains (get_key_from_handle handle) cache

  unfoldable pub holds_dictionary : CachedObjVar N → Bool
  holds_dictionary (cached_array a) = false
  holds_dictionary (cached_dictionary d) = true

  unfoldable pub is_dictionary : Text → CacheMap N → Result Bool
  is_dictionary handle cache =
      if not (is_handle handle cache)
      then ok false
      else get_variant (get_key_from_handle handle) cache >>= λ obj. ok (holds_dictionary obj)

  -- `CacheName` of an object that was inserted under the key.
  unfoldable pub cache_name : Text → CacheMap N → Result Text
  cache_name key cache =
      load_pair key cache >>= λ stored. ok (key ++ codes ":" ++ show_version stored.1)

  -- `HandlePrefixer`.
  unfoldable pub handle_prefix : CachedObjVar N → Text
  handle_prefix (cached_array a) = codes "Array_"
  handle_prefix (cached_dictionary d) = codes "Dictionary_"

  -- `GenHandleStr` for the cell's name that Excel gives. Where there is no '[', the start is `npos`,
  -- which is past the end.
  unfoldable pub gen_handle_str : Text → CachedObjVar N → Result Text
  gen_handle_str cell_loc obj = or_throw out_of_range (find_first 91 cell_loc) >>= λ start.
      erase start (next_of (find_first 93 cell_loc)) cell_loc >>= λ base_str.
      ok (handle_prefix obj ++ base_str)

  -- `OxlDisplay` (src/oxl/excel_base_funcs.cpp) of a handle.
  unfoldable pub shown : XlVariant N → CachedObjVar N → Result (XlArray N)
  shown default (cached_array a) = ok a
  shown default (cached_dictionary d) = dictionary_to_array default d

  unfoldable pub oxl_display : XlVariant N → Text → CacheMap N → Result (XlArray N)
  unfolding shown
  oxl_display default handle cache =
      let key = get_key_from_handle handle in
      if is_handle key cache
      then (get_variant key cache >>= λ obj. shown default obj)
      else err runtime_error

  -- What the add-in's function for a new object does (`oxlDictionary` in
  -- src/oxl/auto_gen/autogen_excel.cpp): the handle that it returns, and the cache afterwards.
  unfoldable pub create_object : Text → CachedObjVar N → CacheMap N → Result (Text × CacheMap N)
  create_object cell_loc obj cache = gen_handle_str cell_loc obj >>= λ base_name.
      cache_name base_name (insert_object obj base_name cache) >>= λ name.
      ok (name, insert_object obj base_name cache)
