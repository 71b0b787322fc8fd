-- ===== src/Dao/Termination.antt =====
-- The reading of a calendar's file (src/dao/calendar_dao.cpp) ends.
mod Examples
use odin_analytics.Prelude.{
  ℕ, zero, suc, ◌+◌, ◌≤◌, ◌<◌, ◌≡◌, refl, ap, sym, subst, ◌∙◌, arith, Bool, true, false, Bool-cases,
  inl, inr, ◌⊎◌, not, ltb, ◌==◌, if◌then◌else◌, List, [], ◌∷◌, ◌++◌, length, Option, none, some,
  Option-cases, Result, ok, err, ◌>>=◌, IsEnded, ended_ok, ended_err, if-IsEnded, chain-IsEnded,
  ends, elim_split, invalid_enum, Error, IsThrown,
}
use odin_analytics.Prelude.Text.{Text, codes, eqb_text}
use odin_analytics.Strings.{str_to_digits}
use odin_analytics.Utils.{value_to_enum}
use odin_analytics.Time.Enums.{Weekdays}
use odin_analytics.Time.Date.Parse.{from_string}
use odin_analytics.Time.Date.Parse.Ending.{from_string-IsEnded}
use odin_analytics.Time.Calendar.{CalendarData}
use odin_analytics.Dao.{
  File, no_file, locked_file, regular_file, Stream, stream, Line, read_line, getline, push_weekends,
  push_holiday, read_holidays, read_calendar, empty_data, read_fuel, with_regions, read_file,
  get_calendar_data,
}

-- The reads of a stream that are still to come: one for each character and one more, unless a read
-- has met the end.
abbrev reads_left : Stream → ℕ
reads_left input = if input.eof then 0 else suc (length input.left)

read_line-reads_left : (s : Text) → reads_left (read_line s).rest ≤ length s
unfolding read_line
read_line-reads_left [] = omega arith
read_line-reads_left (c ∷ cs) =
    let ih = read_line-reads_left cs in
    elim (Bool-cases (c == 10)) [ inl h ↦ rw h (omega arith) | inr h ↦ rw h (omega (arith, ih)) ]

getline-reads_left :
    (input : Stream) (old : Text) → reads_left (getline input old).rest ≤ reads_left input
unfolding getline
getline-reads_left input old =
    let ih = read_line-reads_left input.left in
    elim (Bool-cases input.eof) [ inl h ↦ rw h (omega arith) | inr h ↦ rw h (omega (arith, ih)) ]

-- A read that succeeds leaves fewer.
getline-success :
    (input : Stream) (old : Text)
    → (getline input old).success ≡ true
    → reads_left (getline input old).rest < reads_left input
unfolding getline
getline-success input old =
    let ih = read_line-reads_left input.left in
    elim (Bool-cases input.eof) [
      | inl h ↦ rw h (λ k. absurd (ground arith))
      | inr h ↦ rw h (λ k. omega (arith, ih))
    ]

-- What the reading of holidays leaves to read is no more than n reads.
data EndsBelow (n : ℕ) : Result (CalendarData × Text × Stream) → Type 0 where
  ends_below :
      (cal : CalendarData) (line : Text) (rest : Stream)
      → reads_left rest ≤ n
      → EndsBelow n (ok (cal, line, rest))
  throws : (e : Error) → IsThrown e → EndsBelow n (err e)

chain-EndsBelow :
    {A : Type 0} (n : ℕ) (r : Result A) (f : A → Result (CalendarData × Text × Stream))
    → IsEnded r
    → ((a : A) → EndsBelow n (f a))
    → EndsBelow n (r >>= f)
chain-EndsBelow n r f (ended_ok a) k = k a
chain-EndsBelow n r f (ended_err e h) k = throws e h

after_holidays :
    {A : Type 0} (fuel n : ℕ) (r : Result (CalendarData × Text × Stream))
    (f : CalendarData × Text × Stream → Result A)
    → EndsBelow n r
    → ((cal : CalendarData) (line : Text) (rest : Stream)
        → reads_left rest ≤ n
        → IsEnded (f (cal, line, rest)))
    → IsEnded (r >>= f)
after_holidays fuel n r f (ends_below cal line rest low) k = k cal line rest low
after_holidays fuel n r f (throws e h) k = ended_err e h

read_holidays-EndsBelow :
    (fuel n : ℕ) (input : Stream) (old : Text) (cal : CalendarData)
    → reads_left input < fuel
    → reads_left input ≤ n
    → EndsBelow n (read_holidays fuel input old cal)
unfolding read_holidays
read_holidays-EndsBelow zero n input old cal h k = absurd (omega arith)
read_holidays-EndsBelow (suc fuel) n input old cal h k =
    let got = getline input old in
    let fewer = getline-success input old in
    let no_more = getline-reads_left input old in
    elim_split (EndsBelow n) got.success
      (from_string got.line >>= λ d. read_holidays fuel got.rest got.line (push_holiday d cal))
      (ok (cal, got.line, got.rest))
      (λ there.
        chain-EndsBelow n (from_string got.line)
          (λ d. read_holidays fuel got.rest got.line (push_holiday d cal))
          (from_string-IsEnded got.line)
          (λ d.
            read_holidays-EndsBelow fuel n got.rest got.line (push_holiday d cal)
              (omega (arith, fewer there)) (omega arith)))
      (λ over. ends_below cal got.line got.rest (omega arith))

str_to_digits-IsEnded : (s : Text) → IsEnded (str_to_digits s)
unfolding str_to_digits
str_to_digits-IsEnded s = search ends

value_to_enum-IsEnded :
    (enum_cast : ℕ → Option Weekdays) (n : ℕ) → IsEnded (value_to_enum enum_cast n)
unfolding value_to_enum
value_to_enum-IsEnded enum_cast n = looked_up (enum_cast n)
  where
    looked_up : (o : Option Weekdays) → IsEnded (elim o [ none ↦ err invalid_enum | some u ↦ ok u ])
    looked_up none = ended_err _ tt
    looked_up (some w) = ended_ok w

push_weekends-IsEnded :
    (enum_cast : ℕ → Option Weekdays) (ns : List ℕ) (cal : CalendarData)
    → IsEnded (push_weekends enum_cast ns cal)
unfolding push_weekends
push_weekends-IsEnded enum_cast [] cal = ended_ok cal
push_weekends-IsEnded enum_cast (n ∷ ns) cal =
    search (ends, value_to_enum-IsEnded, push_weekends-IsEnded enum_cast ns)

module _ (enum_cast : ℕ → Option Weekdays) where
  read_calendar-IsEnded :
      (fuel : ℕ) (input : Stream) (old : Text) (cal : CalendarData)
      → reads_left input < fuel
      → IsEnded (read_calendar enum_cast fuel input old cal)
  unfolding read_calendar
  read_calendar-IsEnded zero input old cal h = absurd (omega arith)
  read_calendar-IsEnded (suc fuel) input old cal h =
      let got = getline input old in
      let next = getline got.rest got.line in
      let fewer = getline-success input old in
      let no_more = getline-reads_left got.rest got.line in
      let weekends = str_to_digits next.line >>= λ digits.
      push_weekends enum_cast digits cal >>= λ filled.
      read_calendar enum_cast fuel next.rest next.line filled in
      let holidays = read_holidays fuel got.rest got.line cal >>= λ after.
      read_calendar enum_cast fuel after.2 after.1 after.0 in
      let neither = read_calendar enum_cast fuel got.rest got.line cal in
      let others : Result CalendarData = elim (eqb_text got.line (codes "# Holidays")) [
        | true ↦ holidays
        | false ↦ neither
      ] in
      elim_split IsEnded got.success
        (elim (eqb_text got.line (codes "#Weekend")) [ true ↦ weekends | false ↦ others ]) (ok cal)
        (λ there.
          elim_split IsEnded (eqb_text got.line (codes "#Weekend")) weekends others
            (λ is_weekend.
              chain-IsEnded (str_to_digits next.line) _ (str_to_digits-IsEnded next.line) (λ digits.
                chain-IsEnded (push_weekends enum_cast digits cal) _
                  (push_weekends-IsEnded enum_cast digits cal)
                  (λ filled.
                    read_calendar-IsEnded fuel next.rest next.line filled
                      (omega (arith, fewer there)))))
            (λ is_other.
              elim_split IsEnded (eqb_text got.line (codes "# Holidays")) holidays neither
                (λ is_holidays.
                  after_holidays fuel (reads_left got.rest)
                    (read_holidays fuel got.rest got.line cal)
                    (λ after. read_calendar enum_cast fuel after.2 after.1 after.0)
                    (read_holidays-EndsBelow fuel (reads_left got.rest) got.rest got.line cal
                      (omega (arith, fewer there)) (omega arith))
                    (λ c line rest low.
                      read_calendar-IsEnded fuel rest line c (omega (arith, fewer there))))
                (λ is_neither.
                  read_calendar-IsEnded fuel got.rest got.line cal (omega (arith, fewer there)))))
        (λ over. ended_ok cal)

  read_file-IsEnded : (region : Text) (file : File) → IsEnded (read_file enum_cast region file)
  unfolding read_file
  read_file-IsEnded region no_file = ended_err _ tt
  read_file-IsEnded region locked_file = ended_err _ tt
  read_file-IsEnded region (regular_file s) =
      chain-IsEnded (read_calendar enum_cast (read_fuel s) (stream s false) [] empty_data) _
        (read_calendar-IsEnded (read_fuel s) (stream s false) [] empty_data (omega arith))
        (λ cal. ended_ok (with_regions region cal))

  -- The reading of any region's file ends, whatever is at its path: with the data, or with one of the
  -- exceptions that the program throws.
  pub get_calendar_data-IsEnded :
      (files : Text → File) (region : Text) → IsEnded (get_calendar_data enum_cast files region)
  unfolding get_calendar_data
  get_calendar_data-IsEnded files region =
      read_file-IsEnded region (files (codes "calendars/" ++ region ++ codes ".hol"))
