-- ===== src/Oxl/Cache/History.antt =====
-- The cache of objects (src/oxl/xl_api/cache_xl_obj.cpp) as its history of insertions.
use odin_analytics.Prelude.{
  ℕ, suc, ◌+◌, ◌-◌, ◌%◌, ◌^◌, ◌≡◌, refl, ap, sym, ◌∙◌, arith, Bool-cases, inl, inr, if◌then◌else◌,
  List, [], ◌∷◌, Option, none, some,
}
use odin_analytics.Prelude.Text.{Text, eqb_text, eqb_text-eq}
use odin_analytics.Oxl.StdMap.{find_key, find_key-assign}
use odin_analytics.Oxl.Cache.{CachedObjVar, CacheMap, insert_object, next_version}

pred_suc : (n : ℕ) → suc n - 1 ≡ n
pred_suc n = omega arith

next_of_word : (n : ℕ) → ((suc n - 1) % 2 ^ 64 + 1) % 2 ^ 64 ≡ suc n % 2 ^ 64
next_of_word n = omega arith

module _ {ℓ} {N : Type ℓ} where
  -- The cache after insertions, the last of which is the first of the list.
  abbrev pub run : List (Text × CachedObjVar N) → CacheMap N
  run [] = []
  run (step ∷ earlier) = insert_object step.1 step.0 (run earlier)

  -- How many insertions had the key.
  abbrev pub times : Text → List (Text × CachedObjVar N) → ℕ
  times key [] = 0
  times key (step ∷ earlier) = let n = times key earlier in if eqb_text step.0 key then suc n else n

  -- The object of the last of them.
  abbrev pub newest : Text → List (Text × CachedObjVar N) → Option (CachedObjVar N)
  newest key [] = none
  newest key (step ∷ earlier) =
      let older = newest key earlier in if eqb_text step.0 key then some step.1 else older

  -- What the cache is to have under a key.
  abbrev pub entry_of : Option (CachedObjVar N) → ℕ → Option (CachedObjVar N × ℕ)
  entry_of none n = none
  entry_of (some obj) n = some (obj, (n - 1) % 2 ^ 64)

  next_version-entry :
      (key : Text) (history : List (Text × CachedObjVar N))
      → next_version (entry_of (newest key history) (times key history))
        ≡ times key history % 2 ^ 64
  unfolding next_version
  next_version-entry key [] = refl
  next_version-entry key (step ∷ earlier) = elim (Bool-cases (eqb_text step.0 key)) [
    | inl same ↦ rw same (next_of_word (times key earlier))
    | inr apart ↦ rw apart (next_version-entry key earlier)
  ]

  -- After any insertions, the cache has under each key the object that was inserted last, with the
  -- number of earlier insertions with that key as its version, on 64 bits.
  pub find_key-run :
      (key : Text) (history : List (Text × CachedObjVar N))
      → find_key key (run history) ≡ entry_of (newest key history) (times key history)
  unfolding insert_object find_key
  find_key-run key [] = refl
  find_key-run key (step ∷ earlier) =
      find_key-assign step.0 key (step.1, next_version (find_key step.0 (run earlier)))
        (run earlier)
      ∙ elim (Bool-cases (eqb_text step.0 key)) [
        | inl same ↦
            rw (same, find_key-run step.0 earlier, next_version-entry step.0 earlier)
              (ap (λ k. some (step.1, times k earlier % 2 ^ 64)) (eqb_text-eq step.0 key same)
                ∙ ap (λ n. some (step.1, n % 2 ^ 64)) (sym (pred_suc (times key earlier))))
        | inr apart ↦ rw (apart, find_key-run key earlier)
      ]
