-- ===== src/StaticDataCache/CalendarCache.antt =====
-- src/static_data_cache/calendar_cache.cpp: the calendars made so far, by the sorted names of their
-- regions. A mutex is held while the cache is used, so requests are handled one after the other.
pub mod Sort
pub mod Requests
use odin_analytics.Prelude.{
  ℕ, Bool, true, false, if◌then◌else◌, ltb, ◌==◌, List, [], ◌∷◌, ◌++◌, Result, ok, err, ◌>>=◌,
  Option, none, some,
}
use odin_analytics.Prelude.Text.{Text, eqb_text, leb_text}
use odin_analytics.Time.Calendar.{CalendarData, Calendar, make_calendar}
use odin_analytics.Time.Enums.{Weekdays}
use odin_analytics.Dao.{File, get_calendar_data}

-- `std::ranges::sort`, whose result is determined, as equal texts are not told apart.
unfoldable pub insert : Text → List Text → List Text
insert s [] = s ∷ []
insert s (t ∷ ts) = if leb_text s t then s ∷ t ∷ ts else t ∷ insert s ts

unfoldable pub sort : List Text → List Text
sort [] = []
sort (s ∷ ss) = insert s (sort ss)

-- `m_calendar_cache_`: the keys and their calendars.
abbrev pub Cache : Type 0
Cache = List (Text × Calendar)

unfoldable pub lookup : Text → Cache → Option Calendar
lookup key [] = none
lookup key (entry ∷ rest) =
    let later = lookup key rest in if eqb_text entry.0 key then some entry.1 else later

unfoldable pub is_some : Option Calendar → Bool
is_some none = false
is_some (some c) = true

unfoldable pub is_cached : Text → Cache → Bool
is_cached key cache = is_some (lookup key cache)

-- `try_emplace` keeps the calendar of a key that is there.
unfoldable pub store_calendar : Text → Calendar → Cache → Cache
store_calendar key c cache = if is_cached key cache then cache else (key, c) ∷ cache

-- The loop that reads the regions' files.
unfoldable pub read_regions :
    (ℕ → Option Weekdays) → (Text → File) → List Text → Result (List CalendarData)
read_regions enum_cast files [] = ok []
read_regions enum_cast files (region ∷ rest) = get_calendar_data enum_cast files region >>= λ one.
    read_regions enum_cast files rest >>= λ others. ok (one ∷ others)

-- Boost's `split` at one of the characters ",:;." and its `join` with "," are parameters.
unfoldable pub key_of : (Text → List Text) → (List Text → Text) → Text → Text
key_of split join calendars_str = join (sort (split calendars_str))

module _ (enum_cast : ℕ → Option Weekdays) (split : Text → List Text)
    (join : List Text → Text) where
  -- What is done for a calendar that is not there, and for one that is.
  unfoldable pub make_and_store : (Text → File) → Text → Cache → Result (Calendar × Cache)
  make_and_store files calendars_str cache =
      read_regions enum_cast files (sort (split calendars_str)) >>= λ all_data. ok (
        make_calendar all_data,
        store_calendar (key_of split join calendars_str) (make_calendar all_data) cache,
      )

  -- The calendar asked for, and the cache afterwards.
  unfoldable pub get_calendar : (Text → File) → Text → Cache → Result (Calendar × Cache)
  get_calendar files calendars_str cache = elim (lookup (key_of split join calendars_str) cache) [
    | some c ↦ ok (c, cache)
    | none ↦ make_and_store files calendars_str cache
  ]
