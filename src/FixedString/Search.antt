-- ===== src/FixedString/Search.antt =====
-- The search for a character in a fixed string (include/oa/fixed_string.h), and the name of a file
-- (include/oa/ctti.h).
use odin_analytics.Prelude.{
  ℕ, zero, suc, ◌+◌, ◌-◌, ◌≤◌, ◌<◌, ◌≡◌, refl, ap, sym, subst, ◌⊎◌, arith, true, false, Bool-cases,
  inl, inr, leb, List, [], ◌∷◌, length, get_or, Option, none, some, ok,
}
use odin_analytics.Prelude.Text.{Text, drop_chars}
use odin_analytics.FixedString.{
  is_one_of, rfind_below, rfind_char, read_chars, substr, after_slash, file_name,
}

-- What `rfind` is to return: the last place below n with one of the characters, or that there is none.
pub data IsLastBelow (cs : List ℕ) (s : Text) (n : ℕ) : Option ℕ → Type 0 where
  nowhere : ((i : ℕ) → i < n → is_one_of (get_or s i 0) cs ≡ false) → IsLastBelow cs s n none
  last_at :
      (i : ℕ)
      → i < n
      → is_one_of (get_or s i 0) cs ≡ true
      → ((j : ℕ) → i < j → j < n → is_one_of (get_or s j 0) cs ≡ false)
      → IsLastBelow cs s n (some i)

below_or_at : (i n : ℕ) → i < suc n → (i < n) ⊎ (n ≡ i)
below_or_at i n h = ground arith

one_more :
    (cs : List ℕ) (s : Text) (n : ℕ) (r : Option ℕ)
    → is_one_of (get_or s n 0) cs ≡ false
    → IsLastBelow cs s n r
    → IsLastBelow cs s (suc n) r
one_more cs s n r miss (nowhere all) = nowhere (λ i h. elim (below_or_at i n h) [
  | inl below ↦ all i below
  | inr here ↦ subst (λ k. is_one_of (get_or s k 0) cs ≡ false) here miss
])
one_more cs s n r miss (last_at i h hit later) = last_at i (omega arith) hit (λ j a b.
    elim (below_or_at j n b) [
      | inl below ↦ later j a below
      | inr here ↦ subst (λ k. is_one_of (get_or s k 0) cs ≡ false) here miss
    ])

rfind_below-IsLastBelow : (cs : List ℕ) (s : Text) (n : ℕ) → IsLastBelow cs s n (rfind_below cs s n)
unfolding rfind_below
rfind_below-IsLastBelow cs s zero = nowhere (λ i h. absurd (omega arith))
rfind_below-IsLastBelow cs s (suc n) = elim (Bool-cases (is_one_of (get_or s n 0) cs)) [
  | inl hit ↦ rw hit (last_at n (omega arith) hit (λ j a b. absurd (omega arith)))
  | inr miss ↦ rw miss (one_more cs s n (rfind_below cs s n) miss (rfind_below-IsLastBelow cs s n))
]

drop_chars-all : (i : ℕ) (s : Text) → i ≡ length s → drop_chars i s ≡ []
drop_chars-all zero [] h = refl
drop_chars-all zero (c ∷ cs) h = absurd (omega arith)
drop_chars-all (suc i) [] h = refl
drop_chars-all (suc i) (c ∷ cs) h = drop_chars-all i cs (omega arith)

drop_chars-next :
    (i : ℕ) (s : Text) → i < length s → drop_chars i s ≡ get_or s i 0 ∷ drop_chars (suc i) s
drop_chars-next i [] h = absurd (omega arith)
drop_chars-next zero (c ∷ cs) h = refl
drop_chars-next (suc i) (c ∷ cs) h = drop_chars-next i cs (omega arith)

read_chars-rest : (s : Text) (i n : ℕ) → i + n ≡ length s → read_chars s i n ≡ ok (drop_chars i s)
unfolding read_chars
read_chars-rest s i zero h = ap ok (sym (drop_chars-all i s (omega arith)))
read_chars-rest s i (suc n) h =
    let inside : leb i (length s) ≡ true = ground arith in
    rw (inside, read_chars-rest s (suc i) n (omega arith))
      (ap ok (sym (drop_chars-next i s (omega arith))))

after_slash-inside :
    (cs : List ℕ) (s : Text) (r : Option ℕ)
    → IsLastBelow cs s (length s) r
    → after_slash r ≤ length s
unfolding after_slash
after_slash-inside cs s r (nowhere all) = omega arith
after_slash-inside cs s r (last_at i h hit later) = omega arith

-- The name of a file is what stands in its path behind the last '/' or '\', and the whole path where
-- there is none.
pub file_name-IsLastBelow :
    (path : Text)
    → (r : Option ℕ) × IsLastBelow (47 ∷ 92 ∷ []) path (length path) r
      × (file_name path ≡ ok (drop_chars (after_slash r) path))
unfolding file_name rfind_char substr
file_name-IsLastBelow path =
    let r = rfind_below (47 ∷ 92 ∷ []) path (length path) in
    let is_last = rfind_below-IsLastBelow (47 ∷ 92 ∷ []) path (length path) in
    let inside = after_slash-inside (47 ∷ 92 ∷ []) path r is_last in
    (
      r,
      is_last,
      read_chars-rest path (after_slash r) (length path - after_slash r) (omega (arith, inside)),
    )
