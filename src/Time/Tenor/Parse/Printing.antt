-- ===== src/Time/Tenor/Parse/Printing.antt =====
-- Tenors printed and read back (src/time/tenor.cpp).
use odin_analytics.Prelude.{
  ℕ, suc, ◌+◌, ◌<◌, ◌^◌, ◌≡◌, refl, ap, ◌∙◌, arith, true, false, ◌&&◌, ltb, [], ◌∷◌, ◌++◌, length,
  Option, some, ok,
}
use odin_analytics.Prelude.Int.{ℤ, pos, negsuc, neg_ℤ, ◌≤ℤ◌, int_laws}
use odin_analytics.Prelude.Text.{Text}
use odin_analytics.Strings.{
  is_digit, all_digits, span_digits, to_int, to_upper, show_nat, show_int, show_digits,
}
use odin_analytics.Strings.Numerals.{
  all_digits-show_digits, build_value-show_digits, length-show_digits-pos, span_digits-append,
  to_int-build_value,
}
use odin_analytics.Utils.{value_to_enum-some}
use odin_analytics.Time.Enums.{unit_code, Tenors, days, weeks, months, years}
use odin_analytics.Time.Tenor.{Tenor}
use odin_analytics.Time.Tenor.Parse.{
  is_unit, is_one_unit, drop_sign, check_tenor_str, int_in_range, stoi, but_last, back,
  tenor_from_string, print_tenor,
}

but_last-append : (s : Text) (c : ℕ) → but_last (s ++ c ∷ []) ≡ s
unfolding but_last
but_last-append [] c = refl
but_last-append (a ∷ []) c = refl
but_last-append (a ∷ b ∷ s) c = ap (λ xs. a ∷ xs) (but_last-append (b ∷ s) c)

back-append : (s : Text) (c : ℕ) → back (s ++ c ∷ []) ≡ ok c
unfolding back
back-append [] c = refl
back-append (a ∷ []) c = refl
back-append (a ∷ b ∷ s) c = back-append (b ∷ s) c

-- The letter of a printed unit: no digit, a unit, and the unit's own in upper case.
unit_letter :
    (u : Tenors)
    → (is_digit (unit_code u + 32) ≡ false)
      × (is_unit (unit_code u + 32) ≡ true)
      × (to_upper (unit_code u + 32) ≡ unit_code u)
unfolding unit_code is_digit is_unit to_upper
unit_letter days = (refl, refl, refl)
unit_letter weeks = (refl, refl, refl)
unit_letter months = (refl, refl, refl)
unit_letter years = (refl, refl, refl)

-- The digits of a number that an `int` holds.
show_nat_lem :
    (n : ℕ)
    → n < 10 ^ 10
    → (all_digits (show_nat n) ≡ true) × (to_int (show_nat n) ≡ n) × (0 < length (show_nat n))
unfolding show_nat
show_nat_lem n h = (
  all_digits-show_digits 10 n,
  to_int-build_value (show_digits 10 n) ∙ build_value-show_digits 10 n h,
  length-show_digits-pos 9 n,
)

stoi-minus : (s : Text) → stoi (b'-' ∷ s) ≡ int_in_range (neg_ℤ (pos (to_int s)))
unfolding stoi
stoi-minus s = refl

drop_sign-digits : (s t : Text) → all_digits s ≡ true → 0 < length s → drop_sign (s ++ t) ≡ s ++ t
unfolding drop_sign all_digits is_digit
drop_sign-digits [] t h h' = absurd (omega arith)
drop_sign-digits (c ∷ cs) t h h' = ground arith

stoi-digits :
    (s : Text) → all_digits s ≡ true → 0 < length s → stoi s ≡ int_in_range (pos (to_int s))
unfolding stoi all_digits is_digit
stoi-digits [] h h' = absurd (omega arith)
stoi-digits (c ∷ cs) h h' = ground arith

check_digits :
    (s : Text) (c : ℕ)
    → all_digits s ≡ true
    → 0 < length s
    → is_digit c ≡ false
    → is_unit c ≡ true
    → (let (digits, rest) = span_digits (s ++ c ∷ []) in ltb 0 (length digits) && is_one_unit rest)
      ≡ true
unfolding is_one_unit
check_digits s c digits some_digit other unit =
    rw (span_digits-append s c [] digits other) (ground arith)

int_in_range-ok :
    (n : ℤ) → neg_ℤ (pos 2147483648) ≤ℤ n → n ≤ℤ pos 2147483647 → int_in_range n ≡ ok n
unfolding int_in_range
int_in_range-ok n h h' = ground arith

check_tenor_str-show :
    (n : ℤ) (c : ℕ)
    → neg_ℤ (pos 2147483648) ≤ℤ n
    → n ≤ℤ pos 2147483647
    → is_digit c ≡ false
    → is_unit c ≡ true
    → check_tenor_str (show_int n ++ c ∷ []) ≡ true
unfolding check_tenor_str show_int drop_sign
check_tenor_str-show (pos n) c h h' other unit =
    let s = show_nat_lem n (omega (int_laws, h')) in
    rw (drop_sign-digits (show_nat n) (c ∷ []) s.0 s.2)
      (check_digits (show_nat n) c s.0 s.2 other unit)
check_tenor_str-show (negsuc n) c h h' other unit =
    let s = show_nat_lem (suc n) (omega (int_laws, h)) in
    check_digits (show_nat (suc n)) c s.0 s.2 other unit

neg_ℤ-suc : (n : ℕ) → neg_ℤ (pos (suc n)) ≡ negsuc n
unfolding neg_ℤ
neg_ℤ-suc n = ground arith

stoi-show_int :
    (n : ℤ) → neg_ℤ (pos 2147483648) ≤ℤ n → n ≤ℤ pos 2147483647 → stoi (show_int n) ≡ ok n
unfolding show_int
stoi-show_int (pos n) h h' =
    let s = show_nat_lem n (omega (int_laws, h')) in
    stoi-digits (show_nat n) s.0 s.2
    ∙ ap (λ k. int_in_range (pos k)) s.1
    ∙ int_in_range-ok (pos n) h h'
stoi-show_int (negsuc n) h h' =
    let s = show_nat_lem (suc n) (omega (int_laws, h)) in
    stoi-minus (show_nat (suc n))
    ∙ ap (λ k. int_in_range (neg_ℤ (pos k))) s.1
    ∙ ap int_in_range (neg_ℤ-suc n)
    ∙ int_in_range-ok (negsuc n) h h'

-- A tenor whose count is an `int` is read back from its text, if `enum_cast` knows the letters of
-- `Tenors`.
pub tenor_from_string-print_tenor :
    (enum_cast : ℕ → Option Tenors) (t : Tenor)
    → ((u : Tenors) → enum_cast (unit_code u) ≡ some u)
    → neg_ℤ (pos 2147483648) ≤ℤ t.count
    → t.count ≤ℤ pos 2147483647
    → tenor_from_string enum_cast (print_tenor t) ≡ ok t
unfolding tenor_from_string print_tenor
tenor_from_string-print_tenor enum_cast t casts h h' =
    let letter = unit_letter t.unit in
    rw (
      check_tenor_str-show t.count (unit_code t.unit + 32) h h' letter.0 letter.1,
      but_last-append (show_int t.count) (unit_code t.unit + 32),
      back-append (show_int t.count) (unit_code t.unit + 32),
      stoi-show_int t.count h h',
      letter.2,
      value_to_enum-some enum_cast (unit_code t.unit) t.unit (casts t.unit),
    )
