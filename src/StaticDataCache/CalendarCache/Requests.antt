-- ===== src/StaticDataCache/CalendarCache/Requests.antt =====
-- Requests for calendars, one after the other (`GetCalendar` of
-- src/static_data_cache/calendar_cache.cpp).
mod Examples
use mathlib.Core.List.{Perm}
use odin_analytics.Prelude.{
  ok-injective, ℕ, ◌≡◌, refl, sym, ap, subst, ◌∙◌, arith, Bool, true, false, Bool-cases, inl, inr,
  if◌then◌else◌, ◌==◌, List, [], ◌∷◌, ◌⊎◌, Result, ok, err, ◌>>=◌, Option, none, some,
}
use odin_analytics.Prelude.Text.{Text, eqb_text, eqb_text-eq, eqb_text_refl}
use odin_analytics.Time.Calendar.{CalendarData, Calendar, make_calendar}
use odin_analytics.Time.Enums.{Weekdays}
use odin_analytics.Dao.{File}
use odin_analytics.StaticDataCache.CalendarCache.{
  Cache, lookup, is_some, is_cached, store_calendar, read_regions, key_of, make_and_store,
  get_calendar, sort,
}
use odin_analytics.StaticDataCache.CalendarCache.Sort.{sort-Perm}

some-is_some : (c : Calendar) → is_some (some c) ≡ false → ⊥
unfolding is_some
some-is_some c h = ground arith

lookup-first : (key : Text) (c : Calendar) (cache : Cache) → lookup key ((key, c) ∷ cache) ≡ some c
unfolding lookup
lookup-first key c cache = rw (eqb_text_refl key)

-- `try_emplace` keeps what is there, and adds what is not.
lookup-store_calendar-kept :
    (key other : Text) (c kept : Calendar) (cache : Cache)
    → lookup other cache ≡ some kept
    → lookup other (store_calendar key c cache) ≡ some kept
unfolding store_calendar is_cached lookup
lookup-store_calendar-kept key other c kept cache h =
    elim (Bool-cases (is_some (lookup key cache))) [
      | inl there ↦ rw there h
      | inr new ↦ rw new (elim (Bool-cases (eqb_text key other)) [
        | inl same ↦ absurd (
            let e : is_some (some kept) ≡ false =
              subst (λ r. is_some r ≡ false) h
                (subst (λ k. is_some (lookup k cache) ≡ false) (eqb_text-eq key other same) new) in
            some-is_some kept e)
        | inr apart ↦ rw apart h
      ])
    ]

lookup-store_calendar-new :
    (key : Text) (c : Calendar) (cache : Cache)
    → lookup key cache ≡ none
    → lookup key (store_calendar key c cache) ≡ some c
unfolding store_calendar is_cached is_some
lookup-store_calendar-new key c cache h =
    let e : is_some (lookup key cache) ≡ false = ap is_some h in rw e (lookup-first key c cache)

Option-cases : (o : Option Calendar) → (o ≡ none) ⊎ ((c : Calendar) × (o ≡ some c))
Option-cases none = inl refl
Option-cases (some c) = inr (c, refl)

-- What a calendar is made of, if its regions are read.
made_of : Text → Cache → List CalendarData → Calendar × Cache
made_of key cache all_data =
    (make_calendar all_data, store_calendar key (make_calendar all_data) cache)

made_of-ok :
    (key : Text) (cache : Cache) (r : Result (List CalendarData)) (got : Calendar × Cache)
    → (r >>= λ all_data. ok (made_of key cache all_data)) ≡ ok got
    → (c : Calendar) × (got ≡ (c, store_calendar key c cache))
unfolding made_of
made_of-ok key cache (ok all_data) got h = (make_calendar all_data, ground arith)
made_of-ok key cache (err e) got h = absurd (ground arith)

-- `got` is a calendar that a cache has for the key, and a cache that has all that `cache` has.
abbrev Handed : Text → Cache → Calendar × Cache → Type 0
Handed key cache got =
    (lookup key got.1 ≡ some got.0)
    × ((other : Text) (kept : Calendar)
        → lookup other cache ≡ some kept
        → lookup other got.1 ≡ some kept)

Handed-there :
    (key : Text) (c : Calendar) (cache : Cache)
    → lookup key cache ≡ some c
    → Handed key cache (c, cache)
Handed-there key c cache h = (h, λ other kept k. k)

Handed-new :
    (key : Text) (c : Calendar) (cache : Cache)
    → lookup key cache ≡ none
    → Handed key cache (c, store_calendar key c cache)
Handed-new key c cache h = (
  lookup-store_calendar-new key c cache h,
  λ other kept. lookup-store_calendar-kept key other c kept cache,
)

module _ (enum_cast : ℕ → Option Weekdays) (split : Text → List Text)
    (join : List Text → Text) where
  answered :
      (files : Text → File) (s : Text) (c : Calendar) (cache : Cache)
      → lookup (key_of split join s) cache ≡ some c
      → get_calendar enum_cast split join files s cache ≡ ok (c, cache)
  unfolding get_calendar
  answered files s c cache h =
      ap
        (λ r. elim r [
          | some c ↦ ok (c, cache)
          | none ↦ make_and_store enum_cast split join files s cache
        ])
        h

  made :
      (files : Text → File) (s : Text) (cache : Cache)
      → lookup (key_of split join s) cache ≡ none
      → get_calendar enum_cast split join files s cache
        ≡ make_and_store enum_cast split join files s cache
  unfolding get_calendar
  made files s cache h =
      ap
        (λ r. elim r [
          | some c ↦ ok (c, cache)
          | none ↦ make_and_store enum_cast split join files s cache
        ])
        h

  -- The calendar handed out is the cache's for that key, and other calendars stay in the cache.
  get_calendar-Handed :
      (files : Text → File) (s : Text) (cache : Cache) (got : Calendar × Cache)
      → get_calendar enum_cast split join files s cache ≡ ok got
      → Handed (key_of split join s) cache got
  unfolding make_and_store made_of
  get_calendar-Handed files s cache got h =
      let key = key_of split join s in
      elim (Option-cases (lookup key cache)) [
        | inl new ↦
            let made_ok : make_and_store enum_cast split join files s cache ≡ ok got =
              sym (made files s cache new) ∙ h in
            let (c, e) =
              made_of-ok key cache (read_regions enum_cast files (sort (split s))) got made_ok in
            subst (Handed key cache) (sym e) (Handed-new key c cache new)
        | inr (c, there) ↦
            let e : (c, cache) ≡ got = ok-injective (sym (answered files s c cache there) ∙ h) in
            subst (Handed key cache) e (Handed-there key c cache there)
      ]

  key_of-Perm : (s t : Text) → Perm (split s) (split t) → key_of split join s ≡ key_of split join t
  unfolding key_of
  key_of-Perm s t p = ap join (sort-Perm p)

  -- A request for the same regions in any order, made after one that was answered, is answered with
  -- the same calendar, reads no file and leaves the cache as it is.
  pub get_calendar-again :
      (files later_files : Text → File) (s t : Text) (cache later : Cache) (c : Calendar)
      → Perm (split s) (split t)
      → get_calendar enum_cast split join files s cache ≡ ok (c, later)
      → get_calendar enum_cast split join later_files t later ≡ ok (c, later)
  get_calendar-again files later_files s t cache later c p h =
      let handed = get_calendar-Handed files s cache (c, later) h in
      answered later_files t c later
        (subst (λ key. lookup key later ≡ some c) (key_of-Perm s t p) handed.0)

  -- A calendar in the cache stays there, whatever is requested.
  pub get_calendar-kept :
      (files : Text → File) (s key : Text) (cache later : Cache) (c kept : Calendar)
      → get_calendar enum_cast split join files s cache ≡ ok (c, later)
      → lookup key cache ≡ some kept
      → lookup key later ≡ some kept
  get_calendar-kept files s key cache later c kept h =
      (get_calendar-Handed files s cache (c, later) h).1 key kept
