-- ===== src/FixedString.antt =====
-- include/oa/fixed_string.h: strings whose number of characters is known to the compiler. A string
-- is the list of its characters without the terminator. include/oa/ctti.h: the name of a file.
pub mod Copy
pub mod Search
mod Examples
use odin_analytics.Prelude.{
  ℕ, zero, suc, ◌+◌, ◌-◌, ◌≤◌, Bool, true, false, not, ◌&&◌, ◌||◌, ◌==◌, leb, if◌then◌else◌, List,
  [], ◌∷◌, ◌++◌, length, get_or, Option, none, some, Result, ok, err, ◌>>=◌, undefined,
  invalid_argument,
}
use odin_analytics.Prelude.Text.{Text, eqb_text}

-- The lambda of the constructor: characters of one input are copied while there is room.
unfoldable pub copy_arg : ℕ → Text → Text
copy_arg zero arg = []
copy_arg (suc room) [] = []
copy_arg (suc room) (c ∷ cs) = c ∷ copy_arg room cs

-- The fold over the inputs.
unfoldable pub copy_args : ℕ → List Text → Text
copy_args room [] = []
copy_args room (arg ∷ args) = copy_arg room arg ++ copy_args (room - length arg) args

unfoldable pub fixed_size : List Text → ℕ
fixed_size [] = 0
fixed_size (arg ∷ args) = length arg + fixed_size args

-- The constructor with a size that is given, behind its `static_assert`.
unfoldable pub sized_string : ℕ → List Text → Result Text
sized_string n args =
    if leb n (fixed_size args) then ok (copy_args n args) else err invalid_argument

-- The constructor with the size that the deduction guide gives.
unfoldable pub fixed_string : List Text → Text
fixed_string args = copy_args (fixed_size args) args

-- `operator+` of fixed strings and of character arrays.
unfoldable pub concat : Text → Text → Text
concat s1 s2 = fixed_string (s1 ∷ s2 ∷ [])

-- What a `const char*` to the characters is read as: up to the first NUL.
unfoldable pub c_str : Text → Text
c_str [] = []
c_str (c ∷ cs) = let rest = c_str cs in if c == 0 then [] else c ∷ rest

-- `operator+` with a `std::string`, on either side.
unfoldable pub concat_string : Text → Text → Text
concat_string s1 s2 = c_str s1 ++ s2

unfoldable pub string_concat : Text → Text → Text
string_concat s1 s2 = s1 ++ c_str s2

-- The loop of `equal`, which is reached if the sizes are the same.
same_chars : Text → Text → Bool
same_chars [] s2 = true
same_chars (c ∷ cs) [] = false
same_chars (c ∷ cs) (d ∷ ds) = let rest = same_chars cs ds in if not (c == d) then false else rest

unfoldable pub equal : Text → Text → Bool
unfolding same_chars
equal s1 s2 = if not (length s1 == length s2) then false else same_chars s1 s2

-- `operator==` with a `std::string`.
unfoldable pub equal_string : Text → Text → Bool
equal_string s1 s2 = eqb_text (c_str s1) s2

-- The loop over the characters that are looked for.
unfoldable pub is_one_of : ℕ → List ℕ → Bool
is_one_of c [] = false
is_one_of c (d ∷ ds) = let rest = is_one_of c ds in if c == d then true else rest

-- The loops of `find` and `rfind`, with `npos` as `none`.
unfoldable pub find_from : List ℕ → ℕ → Text → Option ℕ
find_from cs i [] = none
find_from cs i (c ∷ rest) =
    let later = find_from cs (suc i) rest in if is_one_of c cs then some i else later

unfoldable pub find_char : List ℕ → Text → Option ℕ
find_char cs s = find_from cs 0 s

unfoldable pub rfind_below : List ℕ → Text → ℕ → Option ℕ
rfind_below cs s zero = none
rfind_below cs s (suc i) =
    let sooner = rfind_below cs s i in if is_one_of (get_or s i 0) cs then some i else sooner

unfoldable pub rfind_char : List ℕ → Text → Option ℕ
rfind_char cs s = rfind_below cs s (length s)

-- The loop of `substr`, which reads the terminator behind the last character, and nothing that is
-- defined behind it.
unfoldable pub read_chars : Text → ℕ → ℕ → Result Text
read_chars s i zero = ok []
read_chars s i (suc n) =
    let rest = read_chars s (suc i) n in
    if leb i (length s) then (rest >>= λ cs. ok (get_or s i 0 ∷ cs)) else err undefined

unfoldable pub substr : ℕ → ℕ → Text → Result Text
substr i n s = read_chars s i n

-- The name of a file in include/oa/ctti.h: from behind the last slash on, where `npos + 1` is zero.
unfoldable pub after_slash : Option ℕ → ℕ
after_slash none = 0
after_slash (some i) = suc i

unfoldable pub file_name : Text → Result Text
file_name path =
    let start = after_slash (rfind_char (47 ∷ 92 ∷ []) path) in
    substr start (length path - start) path

-- `OA_SOURCE_LOCATION` for a file's path and the text of a line's number.
unfoldable pub source_location : Text → Text → Result Text
source_location path line = file_name path >>= λ name. ok (concat name (b':' ∷ line))

-- The formatter: `parse` of a format specification gives whether to quote, and what is not consumed.
ends_spec : Text → Bool
ends_spec [] = true
ends_spec (c ∷ cs) = c == b'}'

unfoldable pub parse_spec : Text → Result (Bool × Text)
unfolding ends_spec
parse_spec [] = ok (false, [])
parse_spec (c ∷ cs) =
    if c == b'#'
    then if ends_spec cs then ok (true, cs) else err invalid_argument
    else if ends_spec (c ∷ cs)
    then ok (false, c ∷ cs)
    else err invalid_argument

unfoldable pub format_string : Bool → Text → Text
format_string quote s = if quote then (b'"' ∷ s) ++ b'"' ∷ [] else s
