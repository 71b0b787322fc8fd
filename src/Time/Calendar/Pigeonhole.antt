-- ===== src/Time/Calendar/Pigeonhole.antt =====
-- In a row of more days than there are holidays, one is no holiday.
use odin_analytics.Prelude.{
  ℕ, zero, suc, ◌≤◌, ◌<◌, ◌≡◌, refl, sym, ◌∙◌, arith, true, false, Bool-cases, if◌then◌else◌, inl,
  inr, List, [], ◌∷◌, length,
}
use odin_analytics.Prelude.Int.{ℤ, eqb_ℤ}
use odin_analytics.Time.Calendar.{contains}

remove : ℤ → List ℤ → List ℤ
remove h [] = []
remove h (x ∷ xs) = if eqb_ℤ x h then remove h xs else x ∷ remove h xs

length-remove : (h : ℤ) (xs : List ℤ) → length (remove h xs) ≤ length xs
unfolding remove
length-remove h [] = omega arith
length-remove h (x ∷ xs) = ground (arith, length-remove h xs)

length-remove-lt : (h : ℤ) (xs : List ℤ) → contains xs h ≡ true → length (remove h xs) < length xs
unfolding remove contains
length-remove-lt h [] e = cc
length-remove-lt h (x ∷ xs) e = ground (arith, length-remove h xs, length-remove-lt h xs)

contains-remove :
    (h j : ℤ) (xs : List ℤ) → eqb_ℤ h j ≡ false → contains (remove h xs) j ≡ contains xs j
unfolding remove contains
contains-remove h j [] e = refl
contains-remove h j (x ∷ xs) e = ground (arith, contains-remove h j xs e)

-- More different days than there are holidays: one of them is free.
pub pigeonhole :
    (f : ℕ → ℤ)
    → ((a b : ℕ) → a < b → eqb_ℤ (f b) (f a) ≡ false)
    → (n : ℕ) (xs : List ℤ) → length xs < n
    → (i : ℕ) × (i < n) × (contains xs (f i) ≡ false)
pigeonhole f apart zero xs h = absurd (omega arith)
pigeonhole f apart (suc n) xs h = elim (Bool-cases (contains xs (f n))) [
  | inl taken ↦
      let smaller = length-remove-lt (f n) xs taken in
      let (i, lt, free) = pigeonhole f apart n (remove (f n) xs) (omega arith) in
      (i, omega arith, sym (contains-remove (f n) (f i) xs (apart i n lt)) ∙ free)
  | inr free ↦ (n, omega arith, free)
]
