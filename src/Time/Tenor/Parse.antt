-- ===== src/Time/Tenor/Parse.antt =====
-- The texts of tenors: the constructor from a `std::string` and the printing of
-- src/time/tenor.cpp, with `CheckTenorStr` of src/helpers/utils.h.
pub mod Printing
use odin_analytics.Prelude.{
  ℕ, Bool, true, false, not, ◌&&◌, ◌||◌, ◌==◌, ltb, if◌then◌else◌, List, [], ◌∷◌, ◌++◌, length,
  Option, Result, ok, err, ◌>>=◌, undefined, invalid_argument, invalid_tenor, out_of_range, ◌^◌,
  ◌-◌, ◌+◌,
}
use odin_analytics.Prelude.Int.{ℤ, pos, neg_ℤ, ltb_ℤ}
use odin_analytics.Prelude.Text.{Text}
use odin_analytics.Strings.{span_digits, to_int, show_int, to_upper}
use odin_analytics.Utils.{value_to_enum}
use odin_analytics.Time.Enums.{unit_code, Tenors, days, weeks, months, years}
use odin_analytics.Time.Tenor.{Tenor, tenor}

-- The class `[YMDWymdw]`.
unfoldable pub is_unit : ℕ → Bool
is_unit c =
    (c == b'Y' || (c == b'M' || (c == b'D' || c == b'W')))
    || (c == b'y' || (c == b'm' || (c == b'd' || c == b'w')))

unfoldable pub is_one_unit : Text → Bool
is_one_unit [] = false
is_one_unit (c ∷ []) = is_unit c
is_one_unit (c ∷ d ∷ rest) = false

-- The expression `[-]?`: the text behind the sign.
unfoldable pub drop_sign : Text → Text
drop_sign [] = []
drop_sign (c ∷ cs) = if c == b'-' then cs else c ∷ cs

-- The whole text matches `[-]?[0-9]*\d{1}[YMDWymdw]`: at least one digit, then one unit.
unfoldable pub check_tenor_str : Text → Bool
check_tenor_str s =
    let (digits, rest) = span_digits (drop_sign s) in ltb 0 (length digits) && is_one_unit rest

unfoldable pub int_in_range : ℤ → Result ℤ
int_in_range n =
    if ltb_ℤ n (neg_ℤ (pos 2147483648)) || ltb_ℤ (pos 2147483647) n then err out_of_range else ok n

-- `std::stoi` of a sign, which may be missing, and digits.
unfoldable pub stoi : Text → Result ℤ
stoi [] = err invalid_argument
stoi (c ∷ cs) = int_in_range (if c == b'-' then neg_ℤ (pos (to_int cs)) else pos (to_int (c ∷ cs)))

-- `substr(0, size() - 1)` and `back()`.
unfoldable pub but_last : Text → Text
but_last [] = []
but_last (c ∷ []) = []
but_last (c ∷ d ∷ rest) = c ∷ but_last (d ∷ rest)

unfoldable pub back : Text → Result ℕ
back [] = err undefined
back (c ∷ []) = ok c
back (c ∷ d ∷ rest) = back (d ∷ rest)

-- `enum_cast` is that of the letters of `Tenors`.
unfoldable pub tenor_from_string : (ℕ → Option Tenors) → Text → Result Tenor
tenor_from_string enum_cast s =
    if check_tenor_str s
    then (stoi (but_last s) >>= λ n.
        back s >>= λ c. value_to_enum enum_cast (to_upper c) >>= λ u. ok (tenor n u))
    else err invalid_tenor

unfoldable pub print_tenor : Tenor → Text
print_tenor t = show_int t.count ++ (unit_code t.unit + 32) ∷ []
