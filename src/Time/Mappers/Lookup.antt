-- ===== src/Time/Mappers/Lookup.antt =====
-- What the mapping functions of the enumerations find (src/time/time_enum_mappers.cpp and
-- src/derived_time/derived_time_enum_mappers.cpp).
use odin_analytics.Prelude.{
  ℕ, ◌≡◌, refl, ap, ◌∙◌, arith, Bool, true, not, ◌&&◌, leb, Bool-cases, inl, inr, if◌then◌else◌,
  List, [], ◌∷◌, map,
}
use odin_analytics.Prelude.Text.{Text, eqb_text, eqb_text-eq}
use odin_analytics.Strings.{to_upper, to_lower}
use odin_analytics.Time.Mappers.{find, upper_text, map_input}

to_upper-to_lower : (c : ℕ) → to_upper (to_lower c) ≡ to_upper c
unfolding to_upper to_lower
to_upper-to_lower c = ground arith

upper_text-lower : (s : Text) → upper_text (map to_lower s) ≡ upper_text s
unfolding upper_text
upper_text-lower [] = refl
upper_text-lower (c ∷ cs) =
    ap (λ x. x ∷ upper_text (map to_lower cs)) (to_upper-to_lower c)
    ∙ ap (λ xs. to_upper c ∷ xs) (upper_text-lower cs)

-- A mapping function takes a name and its lower-case spelling to the same enumerator, or refuses
-- both.
pub map_input-lower {ℓ} :
    {A : Type ℓ} (table : List (Text × A)) (s : Text)
    → map_input table (map to_lower s) ≡ map_input table s
unfolding map_input
map_input-lower table s = ap (λ key. find key table) (upper_text-lower s)

abbrev pub is_upper : Text → Bool
is_upper [] = true
is_upper (c ∷ cs) = not (leb b'a' c && leb c b'z') && is_upper cs

to_upper-is_upper : (c : ℕ) → not (leb b'a' (to_upper c) && leb (to_upper c) b'z') ≡ true
unfolding to_upper
to_upper-is_upper c = ground arith

upper_text-is_upper : (s : Text) → is_upper (upper_text s) ≡ true
unfolding upper_text
upper_text-is_upper [] = refl
upper_text-is_upper (c ∷ cs) = rw (to_upper-is_upper c, upper_text-is_upper cs) refl

-- The entries of a table whose keys have no lower-case letter.
abbrev pub upper_entries {ℓ} : {A : Type ℓ} → List (Text × A) → List (Text × A)
upper_entries [] = []
upper_entries (entry ∷ rest) =
    if is_upper entry.0 then entry ∷ upper_entries rest else upper_entries rest

find-upper_entries {ℓ} :
    {A : Type ℓ} (table : List (Text × A)) (key : Text)
    → is_upper key ≡ true
    → find key (upper_entries table) ≡ find key table
unfolding find
find-upper_entries [] key h = refl
find-upper_entries (entry ∷ rest) key h = elim (Bool-cases (is_upper entry.0)) [
  | inl upper ↦ rw upper (rw (find-upper_entries rest key h))
  | inr lower ↦ rw lower (elim (Bool-cases (eqb_text entry.0 key)) [
    | inl same ↦ absurd (
        let e : is_upper entry.0 ≡ true = ap is_upper (eqb_text-eq entry.0 key same) ∙ h in
        ground arith)
    | inr other ↦ rw other (find-upper_entries rest key h)
  ])
]

-- Entries whose keys have a lower-case letter are never found: without them, every name is mapped
-- as before.
pub map_input-upper_entries {ℓ} :
    {A : Type ℓ} (table : List (Text × A)) (s : Text)
    → map_input (upper_entries table) s ≡ map_input table s
unfolding map_input
map_input-upper_entries table s = find-upper_entries table (upper_text s) (upper_text-is_upper s)
