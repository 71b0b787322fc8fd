-- ===== src/Time/Tenor/Examples.antt =====
-- The texts and hashes of tenors.
use odin_analytics.Prelude.{ℕ, ◌≡◌, refl, ok, arith, Option, some, none, if◌then◌else◌, ◌==◌}
use odin_analytics.Prelude.Int.{pos, negsuc, neg_ℤ}
use odin_analytics.Time.Tenor.Hash.{hash, hash_bytes, hash_byte, low_byte, shift_byte}
use odin_analytics.Time.Enums.{unit_code, Tenors, days, weeks, months, years}
use odin_analytics.Time.Tenor.{tenor}
use odin_analytics.Time.Tenor.Parse.{tenor_from_string, print_tenor}
use odin_analytics.Time.Tenor.Parse.Printing.{tenor_from_string-print_tenor}

abbrev letter_cast : ℕ → Option Tenors
letter_cast c =
    if c == b'D'
    then some days
    else if c == b'W'
    then some weeks
    else if c == b'M'
    then some months
    else if c == b'Y'
    then some years
    else none

letter_cast_lem : (u : Tenors) → letter_cast (unit_code u) ≡ some u
unfolding unit_code
letter_cast_lem days = refl
letter_cast_lem weeks = refl
letter_cast_lem months = refl
letter_cast_lem years = refl

tenor_from_string-print_tenor_example :
    tenor_from_string letter_cast (print_tenor (tenor (negsuc 17) months))
    ≡ ok (tenor (negsuc 17) months)
unfolding neg_ℤ
tenor_from_string-print_tenor_example =
    tenor_from_string-print_tenor letter_cast (tenor (negsuc 17) months) letter_cast_lem
      (omega arith) (omega arith)

hash_of_3m : hash (tenor (pos 3) months) ≡ 345734559986004945
unfolding hash hash_bytes hash_byte low_byte shift_byte unit_code
hash_of_3m = refl

hash_of_minus_2d : hash (tenor (negsuc 1) days) ≡ 9484945498041875550
unfolding hash hash_bytes hash_byte low_byte shift_byte unit_code
hash_of_minus_2d = refl
