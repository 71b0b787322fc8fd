-- ===== src/FixedString/Examples.antt =====
-- Fixed strings (include/oa/fixed_string.h) at concrete texts.
use odin_analytics.Prelude.{
  ℕ, ◌≡◌, refl, arith, true, [], ◌∷◌, Option, some, ok, err, invalid_argument,
}
use odin_analytics.Prelude.Text.{Text, codes, drop_chars}
use odin_analytics.FixedString.{
  sized_string, fixed_size, copy_args, copy_arg, fixed_string, concat, find_char, find_from,
  is_one_of, rfind_char, rfind_below, substr, read_chars, after_slash, file_name, source_location,
  equal_string, c_str, parse_spec, format_string,
}
use odin_analytics.FixedString.Copy.{IsStart, joined, sized_string-IsStart}
use odin_analytics.FixedString.Search.{IsLastBelow, file_name-IsLastBelow}

sized_string-IsStart_example :
    (s : Text) × (sized_string 3 (codes "ab" ∷ codes "cd" ∷ []) ≡ ok s)
    × IsStart 3 s (joined (codes "ab" ∷ codes "cd" ∷ []))
unfolding fixed_size
sized_string-IsStart_example = sized_string-IsStart 3 (codes "ab" ∷ codes "cd" ∷ []) (omega arith)

cut_off : sized_string 3 (codes "ab" ∷ codes "cd" ∷ []) ≡ ok (codes "abc")
unfolding sized_string fixed_size copy_args copy_arg
cut_off = refl

too_few : sized_string 5 (codes "ab" ∷ codes "cd" ∷ []) ≡ err invalid_argument
unfolding sized_string fixed_size
too_few = refl

found_first : find_char (codes "lo") (codes "hello") ≡ some 2
unfolding find_char find_from is_one_of
found_first = refl

here : source_location (codes "src/oxl/a.cpp") (codes "148") ≡ ok (codes "a.cpp:148")
unfolding source_location file_name rfind_char rfind_below is_one_of after_slash substr read_chars
    concat fixed_string fixed_size copy_args copy_arg
here = refl

-- A comparison with a `std::string` stops at a NUL.
stops_at_nul : equal_string (97 ∷ 0 ∷ 98 ∷ []) (97 ∷ []) ≡ true
unfolding equal_string c_str
stops_at_nul = refl

quoted : parse_spec (codes "#}") ≡ ok (true, codes "}")
unfolding parse_spec
quoted = refl

in_quotes : format_string true (codes "a") ≡ codes "\"a\""
unfolding format_string
in_quotes = refl

file_name-IsLastBelow_example :
    (r : Option ℕ) × IsLastBelow (47 ∷ 92 ∷ []) (codes "src/a.cpp") 9 r
    × (file_name (codes "src/a.cpp") ≡ ok (drop_chars (after_slash r) (codes "src/a.cpp")))
file_name-IsLastBelow_example = file_name-IsLastBelow (codes "src/a.cpp")
