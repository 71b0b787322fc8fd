-- ===== src/Time/Date/Parse/Ending.antt =====
-- The parser of dates (src/time/date.cpp) returns a date or throws: it runs on no fuel.
use odin_analytics.Prelude.{ℕ, [], ◌∷◌, IsEnded, ended_err, ends}
use odin_analytics.Prelude.Int.{ℤ}
use odin_analytics.Prelude.Text.{Text}
use odin_analytics.Time.Date.{days_in_month}
use odin_analytics.Time.Date.Parse.{
  check_day, parse_day, parse_month, month_end, parse_ymd, year_end, from_string,
}

days_in_month-IsEnded : (y m : ℤ) → IsEnded (days_in_month y m)
unfolding days_in_month
days_in_month-IsEnded y m = search ends

check_day-IsEnded : (y m d : ℤ) → IsEnded (check_day y m d)
unfolding check_day
check_day-IsEnded y m d = search (ends, days_in_month-IsEnded)

parse_day-IsEnded : (years months s : Text) → IsEnded (parse_day years months s)
unfolding parse_day
parse_day-IsEnded years months s = search (ends, check_day-IsEnded)

month_end-IsEnded :
    (years : Text) (delim : ℕ) (months s : Text) → IsEnded (month_end years delim months s)
unfolding month_end
month_end-IsEnded years delim months [] = ended_err _ tt
month_end-IsEnded years delim months (c ∷ rest) = search (ends, parse_day-IsEnded)

parse_month-IsEnded : (years : Text) (delim : ℕ) (s : Text) → IsEnded (parse_month years delim s)
unfolding parse_month
parse_month-IsEnded years delim s = search (ends, month_end-IsEnded)

year_end-IsEnded : (years s : Text) → IsEnded (year_end years s)
unfolding year_end
year_end-IsEnded years [] = ended_err _ tt
year_end-IsEnded years (c ∷ rest) = search (ends, parse_month-IsEnded)

pub from_string-IsEnded : (s : Text) → IsEnded (from_string s)
unfolding from_string parse_ymd
from_string-IsEnded s = search (ends, year_end-IsEnded)
