-- ===== src/Time/Date/Parse/Printing.antt =====
-- Dates printed and read back (`operator<<` and `YMD(std::string_view)` of src/time/date.cpp).
use odin_analytics.Prelude.{
  ℕ, ◌^◌, ◌≤◌, ◌<◌, ◌≡◌, refl, ap, ◌∙◌, arith, true, false, ◌∷◌, ◌++◌, length, ok, ◌>>=◌,
}
use odin_analytics.Prelude.Int.{ℤ, pos, negsuc, ◌≤ℤ◌, int_laws}
use odin_analytics.Prelude.Text.{Text}
use odin_analytics.Strings.{all_digits, to_int, show_int, is_digit}
use odin_analytics.Strings.Numerals.{
  all_digits-pad_left, length-pad_left, to_int-pad_left, span_digits-append, span_digits-all,
}
use odin_analytics.Time.Date.{
  Date, YearMonthDay, year_month_day, from_julian, convert_to_julian, gregorian,
}
use odin_analytics.Time.Date.RoundTrip.{IsValid}
use odin_analytics.Time.Date.Validity.{IsDate, gregorian-IsValid, IsValid-last_day, last_day-≤}
use odin_analytics.Time.Date.Parse.{
  check_day, parse_day, parse_month, parse_ymd, from_string, put, print_date, is_delim,
}

parse_day_all :
    (ys ms ds : Text)
    → all_digits ds ≡ true
    → length ds ≡ 2
    → parse_day ys ms ds ≡ check_day (pos (to_int ys)) (pos (to_int ms)) (pos (to_int ds))
unfolding parse_day
parse_day_all ys ms ds digits two = rw (span_digits-all ds digits, two)

parse_month_all :
    (ys ms : Text) (c : ℕ) (ds : Text)
    → all_digits ms ≡ true
    → length ms ≡ 2
    → is_digit c ≡ false
    → parse_month ys c (ms ++ c ∷ ds) ≡ parse_day ys ms ds
unfolding parse_month
parse_month_all ys ms c ds digits two other =
    rw (span_digits-append ms c ds digits other, two) (ground arith)

parse_ymd_all :
    (ys : Text) (c : ℕ) (rest : Text)
    → all_digits ys ≡ true
    → length ys ≡ 4
    → is_digit c ≡ false
    → is_delim c ≡ true
    → parse_ymd (ys ++ c ∷ rest) ≡ parse_month ys c rest
unfolding parse_ymd
parse_ymd_all ys c rest digits four other delim =
    rw (span_digits-append ys c rest digits other, four) (ground arith)

check_day-IsValid : (g : YearMonthDay) → IsValid g → check_day g.year g.month g.day ≡ ok g
unfolding check_day
check_day-IsValid g v = ground (arith, v.day_in)

-- A nonnegative field of a printed date is a number of the width.
put_nat :
    (w n : ℕ)
    → n < 10 ^ w
    → 0 < w
    → n < 10000
    → (all_digits (put w (pos n)) ≡ true)
      × (length (put w (pos n)) ≡ w)
      × (to_int (put w (pos n)) ≡ n)
unfolding put show_int
put_nat w n h w-pos small =
    (all_digits-pad_left w n, length-pad_left w n h w-pos, to_int-pad_left w n (omega arith))

dash_lem : (is_digit b'-' ≡ false) × (is_delim b'-' ≡ true)
unfolding is_digit is_delim
dash_lem = (refl, refl)

IsValid-bounds :
    (y m d : ℕ) → IsValid (year_month_day (pos y) (pos m) (pos d)) → (m ≤ 12) × (d ≤ 31)
IsValid-bounds y m d v =
    let last = IsValid-last_day (year_month_day (pos y) (pos m) (pos d)) v in
    (omega (int_laws, v.month_in), omega (int_laws, last.1, last_day-≤ (pos y) (pos m)))

abbrev printed : ℕ → ℕ → ℕ → Text
printed y m d = put 4 (pos y) ++ (b'-' ∷ (put 2 (pos m) ++ (b'-' ∷ put 2 (pos d))))

parse_ymd-printed :
    (y m d : ℕ)
    → y < 10000
    → IsValid (year_month_day (pos y) (pos m) (pos d))
    → parse_ymd (printed y m d) ≡ ok (year_month_day (pos y) (pos m) (pos d))
parse_ymd-printed y m d h v =
    let b = IsValid-bounds y m d v in
    let yp = put_nat 4 y (omega arith) (omega arith) h in
    let mp = put_nat 2 m (omega (arith, b.0)) (omega arith) (omega (arith, b.0)) in
    let dp = put_nat 2 d (omega (arith, b.1)) (omega arith) (omega (arith, b.1)) in
    parse_ymd_all (put 4 (pos y)) b'-' _ yp.0 yp.1 dash_lem.0 dash_lem.1
    ∙ parse_month_all (put 4 (pos y)) (put 2 (pos m)) b'-' (put 2 (pos d)) mp.0 mp.1 dash_lem.0
    ∙ parse_day_all (put 4 (pos y)) (put 2 (pos m)) (put 2 (pos d)) dp.0 dp.1
    ∙ ap (λ n. check_day (pos n) (pos (to_int (put 2 (pos m)))) (pos (to_int (put 2 (pos d))))) yp.2
    ∙ ap (λ n. check_day (pos y) (pos n) (pos (to_int (put 2 (pos d))))) mp.2
    ∙ ap (λ n. check_day (pos y) (pos m) (pos n)) dp.2
    ∙ check_day-IsValid (year_month_day (pos y) (pos m) (pos d)) v

show_ymd : YearMonthDay → Text
show_ymd g = put 4 g.year ++ (b'-' ∷ (put 2 g.month ++ (b'-' ∷ put 2 g.day)))

parse_ymd-show :
    (g : YearMonthDay)
    → pos 0 ≤ℤ g.year
    → g.year ≤ℤ pos 9999
    → IsValid g
    → parse_ymd (show_ymd g) ≡ ok g
unfolding show_ymd
parse_ymd-show g h h' v = go g.year g.month g.day h h' v
  where
    go :
        (y m d : ℤ)
        → pos 0 ≤ℤ y
        → y ≤ℤ pos 9999
        → IsValid (year_month_day y m d)
        → parse_ymd (show_ymd (year_month_day y m d)) ≡ ok (year_month_day y m d)
    go (pos y) (pos m) (pos d) h h' v = parse_ymd-printed y m d (omega (int_laws, h')) v
    go (negsuc y) m d h h' v = absurd (omega (int_laws, h))
    go (pos y) (negsuc m) d h h' v = absurd (omega (int_laws, v.month_in))
    go (pos y) (pos m) (negsuc d) h h' v =
        absurd (omega (int_laws, IsValid-last_day (year_month_day (pos y) (pos m) (negsuc d)) v))

-- A date in the years 0 to 9999 is read back from its text.
pub from_string-print_date :
    (t : Date)
    → IsDate t
    → pos 0 ≤ℤ (gregorian t).year
    → (gregorian t).year ≤ℤ pos 9999
    → from_string (print_date t) ≡ ok t
unfolding from_string print_date show_ymd
from_string-print_date t v h h' =
    let both = gregorian-IsValid t v in
    ap (λ r. r >>= λ g. ok (from_julian (convert_to_julian g.year g.month g.day)))
      (parse_ymd-show (gregorian t) h h' both.0)
    ∙ ap (λ j. ok (from_julian j)) both.1
