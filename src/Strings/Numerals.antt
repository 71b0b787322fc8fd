-- ===== src/Strings/Numerals.antt =====
-- Decimal numerals written and read: what `to` makes of the digits that a stream writes.
use odin_analytics.Prelude.{
  ℕ, zero, suc, ◌+◌, ◌-◌, ◌*◌, ◌/◌, ◌%◌, ◌^◌, ◌≤◌, ◌<◌, ◌≡◌, refl, sym, ap, ◌∙◌, arith, true, false,
  Bool-cases, ltb, inl, inr, ◌==◌, [], ◌∷◌, ◌++◌, length, length-append, replicate,
  length-replicate,
}
use odin_analytics.Prelude.Text.{Text}
use odin_analytics.Strings.{
  is_digit, all_digits, chomp_zeros, build_value, to_int, span_digits, show_digits, show_nat,
  pad_left,
}

is_digit_at : (d : ℕ) → d < 10 → is_digit (d + b'0') ≡ true
unfolding is_digit
is_digit_at d h = ground arith

all_digits-append :
    (xs ys : Text) → all_digits xs ≡ true → all_digits ys ≡ true → all_digits (xs ++ ys) ≡ true
unfolding all_digits
all_digits-append [] ys h k = k
all_digits-append (x ∷ xs) ys h k = ground (arith, all_digits-append xs ys)

pub all_digits-show_digits : (f n : ℕ) → all_digits (show_digits f n) ≡ true
unfolding show_digits all_digits
all_digits-show_digits zero n = refl
all_digits-show_digits (suc f) n = elim (Bool-cases (ltb n 10)) [
  | inl small ↦ rw (small, is_digit_at n (ground arith)) refl
  | inr large ↦ rw large (
      all_digits-append (show_digits f (n / 10)) _ (all_digits-show_digits f (n / 10))
        (rw (is_digit_at (n % 10) (omega arith)) refl))
]

all_digits-replicate : (n : ℕ) → all_digits (replicate n b'0') ≡ true
unfolding all_digits is_digit
all_digits-replicate zero = refl
all_digits-replicate (suc n) = all_digits-replicate n

all_digits-∷ :
    (x : ℕ) (xs : Text) → all_digits (x ∷ xs) ≡ true → (is_digit x ≡ true) × (all_digits xs ≡ true)
unfolding all_digits
all_digits-∷ x xs h = ground arith

build_value-append :
    (xs : Text) (c v : ℕ) → build_value v (xs ++ c ∷ []) ≡ 10 * build_value v xs + (c - b'0')
unfolding build_value
build_value-append [] c v = omega arith
build_value-append (x ∷ xs) c v = build_value-append xs c _

build_value-chomp_zeros : (s : Text) → build_value 0 (chomp_zeros s) ≡ build_value 0 s
unfolding build_value chomp_zeros
build_value-chomp_zeros [] = refl
build_value-chomp_zeros (c ∷ cs) = elim (Bool-cases (c == b'0')) [
  | inl skipped ↦ rw skipped (
      build_value-chomp_zeros cs
      ∙ ap (λ v. build_value v cs) (let e : c ≡ b'0' = ground arith in omega arith))
  | inr kept ↦ rw kept
]

-- Skipping leading zeros changes no value.
pub to_int-build_value : (s : Text) → to_int s ≡ build_value 0 s
unfolding to_int
to_int-build_value s = build_value-chomp_zeros s

build_value-replicate : (n : ℕ) (s : Text) → build_value 0 (replicate n b'0' ++ s) ≡ build_value 0 s
unfolding build_value
build_value-replicate zero s = refl
build_value-replicate (suc n) s = build_value-replicate n s

pub build_value-show_digits : (f n : ℕ) → n < 10 ^ f → build_value 0 (show_digits f n) ≡ n
unfolding show_digits build_value
build_value-show_digits zero n h = let e : n ≡ 0 = omega arith in sym e
build_value-show_digits (suc f) n h = elim (Bool-cases (ltb n 10)) [
  | inl small ↦ rw small (omega arith)
  | inr large ↦
      let p : 10 ^ suc f ≡ 10 * 10 ^ f = omega arith in
      let shorter : n / 10 < 10 ^ f = omega arith in
      let lead = build_value-show_digits f (n / 10) shorter in
      rw (large, build_value-append (show_digits f (n / 10)) (n % 10 + b'0') 0, lead) (omega arith)
]

pub length-show_digits : (f k n : ℕ) → n < 10 ^ k → 0 < k → length (show_digits f n) ≤ k
unfolding show_digits
length-show_digits zero k n h k-pos = omega arith
length-show_digits (suc f) zero n h k-pos = absurd (omega arith)
length-show_digits (suc f) (suc zero) n h k-pos =
    let e : ltb n 10 ≡ true = ground arith in rw e (omega arith)
length-show_digits (suc f) (suc (suc k)) n h k-pos = elim (Bool-cases (ltb n 10)) [
  | inl small ↦ rw small (omega arith)
  | inr large ↦
      let p : 10 ^ suc (suc k) ≡ 10 * 10 ^ suc k = omega arith in
      let shorter = length-show_digits f (suc k) (n / 10) (omega arith) (omega arith) in
      rw (large, length-append (show_digits f (n / 10)) ((n % 10 + b'0') ∷ [])) (omega arith)
]

pub length-show_digits-pos : (f n : ℕ) → 0 < length (show_digits (suc f) n)
unfolding show_digits
length-show_digits-pos f n = elim (Bool-cases (ltb n 10)) [
  | inl small ↦ rw small (omega arith)
  | inr large ↦
      rw (large, length-append (show_digits f (n / 10)) ((n % 10 + b'0') ∷ [])) (omega arith)
]

-- What `setw` and `fill` make of a numeral: digits, of the width, with the number's value.
pub all_digits-pad_left : (w n : ℕ) → all_digits (pad_left w (show_nat n)) ≡ true
unfolding pad_left show_nat
all_digits-pad_left w n =
    all_digits-append _ _ (all_digits-replicate (w - length (show_digits 10 n)))
      (all_digits-show_digits 10 n)

pub length-pad_left : (w n : ℕ) → n < 10 ^ w → 0 < w → length (pad_left w (show_nat n)) ≡ w
unfolding pad_left show_nat
length-pad_left w n h w-pos =
    let short = length-show_digits 10 w n h w-pos in
    length-append (replicate (w - length (show_digits 10 n)) b'0') (show_digits 10 n)
    ∙ rw (length-replicate {A = ℕ} (w - length (show_digits 10 n)) b'0') (omega arith)

pub to_int-pad_left : (w n : ℕ) → n < 10 ^ 10 → to_int (pad_left w (show_nat n)) ≡ n
unfolding pad_left show_nat
to_int-pad_left w n h =
    to_int-build_value (replicate (w - length (show_digits 10 n)) b'0' ++ show_digits 10 n)
    ∙ build_value-replicate (w - length (show_digits 10 n)) (show_digits 10 n)
    ∙ build_value-show_digits 10 n h

-- The digits are passed over up to what is no digit, or to the end.
pub span_digits-append :
    (xs : Text) (c : ℕ) (ys : Text)
    → all_digits xs ≡ true
    → is_digit c ≡ false
    → span_digits (xs ++ c ∷ ys) ≡ (xs, c ∷ ys)
unfolding span_digits
span_digits-append [] c ys digits other = rw other
span_digits-append (x ∷ xs) c ys digits other =
    let both = all_digits-∷ x xs digits in rw (span_digits-append xs c ys both.1 other, both.0)

pub span_digits-all : (xs : Text) → all_digits xs ≡ true → span_digits xs ≡ (xs, [])
unfolding span_digits
span_digits-all [] digits = refl
span_digits-all (x ∷ xs) digits =
    let both = all_digits-∷ x xs digits in rw (span_digits-all xs both.1, both.0)
