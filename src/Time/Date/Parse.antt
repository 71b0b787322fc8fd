-- ===== src/Time/Date/Parse.antt =====
-- The texts of dates (src/time/date.cpp): `YMD(std::string_view)`, the constructor from a
-- `std::string_view`, and the printing of a date by `operator<<`.
pub mod Printing
pub mod Ending
use odin_analytics.Prelude.{
  ℕ, Bool, not, ◌||◌, ◌==◌, ltb, if◌then◌else◌, [], ◌∷◌, ◌++◌, length, Result, ok, err, ◌>>=◌,
  missing_year, year_width, no_month, year_delimiter, missing_month, month_width, no_day,
  month_delimiter, missing_day, day_width, extra_characters, invalid_day,
}
use odin_analytics.Prelude.Int.{ℤ, pos, negsuc, ltb_ℤ, eqb_ℤ}
use odin_analytics.Prelude.Text.{Text}
use odin_analytics.Strings.{span_digits, to_int, pad_left, show_nat, show_int}
use odin_analytics.Time.Date.{
  Date, YearMonthDay, year_month_day, from_julian, days_in_month, convert_to_julian, gregorian,
}

unfoldable pub is_delim : ℕ → Bool
is_delim c = c == b'/' || (c == b'-' || c == b':')

-- The test of the number of days, as in the constructor from a year, month and day.
unfoldable pub check_day : ℤ → ℤ → ℤ → Result YearMonthDay
check_day y m d =
    if eqb_ℤ d (pos 0)
    then err invalid_day
    else (days_in_month y m >>= λ last.
        if ltb_ℤ last d then err invalid_day else ok (year_month_day y m d))

-- The third part of the parser: the day, and the end of the text.
unfoldable pub parse_day : Text → Text → Text → Result YearMonthDay
parse_day years months s =
    let (days, rest) = span_digits s in
    if length days == 0
    then err missing_day
    else if ltb 2 (length days)
    then err day_width
    else if not (length rest == 0)
    then err extra_characters
    else check_day (pos (to_int years)) (pos (to_int months)) (pos (to_int days))

month_end : Text → ℕ → Text → Text → Result YearMonthDay
month_end years delim months [] = err no_day
month_end years delim months (c ∷ rest) =
    if not (c == delim) then err month_delimiter else parse_day years months rest

-- The second part: the month, up to a delimiter that is the first one.
unfoldable pub parse_month : Text → ℕ → Text → Result YearMonthDay
unfolding month_end
parse_month years delim s =
    let (months, rest) = span_digits s in
    if length months == 0
    then err missing_month
    else if ltb 2 (length months)
    then err month_width
    else month_end years delim months rest

year_end : Text → Text → Result YearMonthDay
year_end years [] = err no_month
year_end years (c ∷ rest) =
    if not (is_delim c) then err year_delimiter else parse_month years c rest

-- `YMD(std::string_view)`. The numbers have four digits at most, which an `int` holds.
unfoldable pub parse_ymd : Text → Result YearMonthDay
unfolding year_end
parse_ymd s =
    let (years, rest) = span_digits s in
    if length years == 0
    then err missing_year
    else if not (length years == 4)
    then err year_width
    else year_end years rest

unfoldable pub from_string : Text → Result Date
from_string s = parse_ymd s >>= λ g. ok (from_julian (convert_to_julian g.year g.month g.day))

-- `std::setw(w) << n` with the fill character '0', which goes before a sign, too.
unfoldable pub put : ℕ → ℤ → Text
put w n = pad_left w (show_int n)

unfoldable pub print_date : Date → Text
print_date date =
    let g = gregorian date in put 4 g.year ++ (b'-' ∷ (put 2 g.month ++ (b'-' ∷ put 2 g.day)))
