-- ===== src/Strings.antt =====
-- include/oa/string.h and src/helpers/str_utils: ASCII characters and digits, and the decimal
-- numerals that streams write.
pub mod Numerals
use odin_analytics.Prelude.{
  ℕ, zero, suc, ◌+◌, ◌-◌, ◌*◌, ◌/◌, ◌%◌, Bool, true, false, not, ◌&&◌, ltb, leb, ◌==◌,
  if◌then◌else◌, List, [], ◌∷◌, ◌++◌, length, replicate, Result, ok, err, non_digit,
}
use odin_analytics.Prelude.Int.{ℤ, pos, negsuc}
use odin_analytics.Prelude.Text.{Text}

unfoldable pub to_upper : ℕ → ℕ
to_upper c = if leb b'a' c && leb c b'z' then c - b'a' + b'A' else c

unfoldable pub to_lower : ℕ → ℕ
to_lower c = if leb b'A' c && leb c b'Z' then c - b'A' + b'a' else c

unfoldable pub is_digit : ℕ → Bool
is_digit c = leb b'0' c && leb c b'9'

-- The loop of `is_digit(std::string_view)`, which is also that of `str_utils::IsDigit`.
unfoldable pub all_digits : Text → Bool
all_digits [] = true
all_digits (c ∷ cs) = if is_digit c then all_digits cs else false

unfoldable pub is_digit_view : Text → Bool
is_digit_view [] = false
is_digit_view (c ∷ cs) = all_digits (c ∷ cs)

-- The two loops of `to_impl`: leading zeros are skipped, and each digit multiplies by ten.
unfoldable pub chomp_zeros : Text → Text
chomp_zeros [] = []
chomp_zeros (c ∷ cs) = if c == b'0' then chomp_zeros cs else c ∷ cs

unfoldable pub build_value : ℕ → Text → ℕ
build_value v [] = v
build_value v (c ∷ cs) = build_value (v * 8 + v + v + (c - b'0')) cs

unfoldable pub to_int : Text → ℕ
to_int s = build_value 0 (chomp_zeros s)

digit_values : Text → List ℕ
digit_values [] = []
digit_values (c ∷ cs) = (c - b'0') ∷ digit_values cs

-- `StrToDigits`.
unfoldable pub str_to_digits : Text → Result (List ℕ)
unfolding digit_values
str_to_digits s = if not (all_digits s) then err non_digit else ok (digit_values s)

-- A loop `while (it != end && is_digit(*it)) it++`: the digits passed over, and the rest.
unfoldable pub span_digits : Text → Text × Text
span_digits [] = ([], [])
span_digits (c ∷ cs) =
    let (ds, rest) = span_digits cs in if is_digit c then (c ∷ ds, rest) else ([], c ∷ cs)

-- What a stream writes for an `int`, which has at most ten digits.
unfoldable pub show_digits : ℕ → ℕ → Text
show_digits zero n = []
show_digits (suc fuel) n =
    let rest = show_digits fuel (n / 10) in
    if ltb n 10 then (n + b'0') ∷ [] else rest ++ (n % 10 + b'0') ∷ []

unfoldable pub show_nat : ℕ → Text
show_nat n = show_digits 10 n

unfoldable pub show_int : ℤ → Text
show_int (pos n) = show_nat n
show_int (negsuc n) = b'-' ∷ show_nat (suc n)

-- `std::setw(w)` with the fill character '0'.
unfoldable pub pad_left : ℕ → Text → Text
pad_left w s = replicate (w - length s) b'0' ++ s
