-- ===== src/Time/Date/Months.antt =====
-- The year and month that `AddMonths` (src/time/date.cpp) computes.
use odin_analytics.Prelude.{
  ◌+◌, ◌<◌, ◌≡◌, sym, ◌∙◌, inl, inr, arith, true, false, Bool-cases, leb→le, subst, if◌then◌else◌,
}
use odin_analytics.Prelude.Int.{
  ℤ, pos, negsuc, pos_part, neg_part, ◌+ℤ◌, ◌-ℤ◌, ◌*ℤ◌, quot, rem, ◌≤ℤ◌, leb_ℤ, int_laws,
}
use odin_analytics.Time.Date.{shift_month}

-- The months since January of year 0.
abbrev pub month_index : ℤ → ℤ → ℤ
month_index y m = pos 12 *ℤ y +ℤ m

carry : ℤ → ℤ → ℤ × ℤ
carry y s =
    if leb_ℤ (rem s 12) (pos 0)
    then (y +ℤ quot s 12 -ℤ pos 1, rem s 12 +ℤ pos 12)
    else (y +ℤ quot s 12, rem s 12)

less_one : (a : ℤ) → a +ℤ negsuc 0 ≡ a -ℤ pos 1
less_one a = omega int_laws

-- The two branches of `AddMonths` do the same.
shift_month-carry : (y m n : ℤ) → shift_month y m n ≡ carry y (m +ℤ n)
unfolding shift_month carry
shift_month-carry y m n = ground (arith, less_one (y +ℤ quot (m +ℤ n) 12))

carry_low :
    (y s : ℤ)
    → rem s 12 ≤ℤ pos 0
    → month_index (y +ℤ quot s 12 -ℤ pos 1) (rem s 12 +ℤ pos 12) ≡ month_index y (pos 0) +ℤ s
carry_low y s h = omega int_laws

carry_high : (y s : ℤ) → month_index (y +ℤ quot s 12) (rem s 12) ≡ month_index y (pos 0) +ℤ s
carry_high y s = omega int_laws

IsShift : ℤ → ℤ → ℤ × ℤ → Type 0
IsShift y s t =
    (month_index t.0 t.1 ≡ month_index y (pos 0) +ℤ s) × (pos 1 ≤ℤ t.1) × (t.1 ≤ℤ pos 12)

leb_ℤ→≤ℤ : (a b : ℤ) → leb_ℤ a b ≡ true → a ≤ℤ b
leb_ℤ→≤ℤ a b h = leb→le _ _ h

leb_ℤ→>ℤ : (a b : ℤ) → leb_ℤ a b ≡ false → b +ℤ pos 1 ≤ℤ a
leb_ℤ→>ℤ a b h =
    let less : pos_part b + neg_part a < pos_part a + neg_part b = ground arith in omega int_laws

carry-IsShift : (y s : ℤ) → IsShift y s (carry y s)
unfolding IsShift carry
carry-IsShift y s = elim (Bool-cases (leb_ℤ (rem s 12) (pos 0))) [
  | inl low ↦
      let h = leb_ℤ→≤ℤ (rem s 12) (pos 0) low in
      rw (low, carry) (carry_low y s h, omega int_laws, omega int_laws)
  | inr high ↦
      let h = leb_ℤ→>ℤ (rem s 12) (pos 0) high in
      rw (high, carry) (carry_high y s, omega int_laws, omega int_laws)
]

-- The year and month that `AddMonths` computes are `n` months on, whatever the signs: its two
-- branches and their corrections come to this.
pub shift_month_lem :
    (y m n : ℤ)
    → (month_index (shift_month y m n).0 (shift_month y m n).1 ≡ month_index y m +ℤ n)
      × (pos 1 ≤ℤ (shift_month y m n).1)
      × ((shift_month y m n).1 ≤ℤ pos 12)
unfolding IsShift
shift_month_lem y m n =
    let s = subst (IsShift y (m +ℤ n)) (sym (shift_month-carry y m n)) (carry-IsShift y (m +ℤ n)) in
    (s.0 ∙ regroup, s.1, s.2)
  where
    regroup : month_index y (pos 0) +ℤ (m +ℤ n) ≡ month_index y m +ℤ n
    regroup = omega int_laws
