-- ===== src/Dao.antt =====
-- src/dao/calendar_dao.cpp: the calendars' files. The file system is a parameter: what is at the
-- path of a region's file. So is `enum_cast`, which takes a number to the weekday with that value.
pub mod Termination
use odin_analytics.Prelude.{
  ℕ, Option, zero, suc, Bool, true, false, if◌then◌else◌, ltb, ◌==◌, List, [], ◌∷◌, ◌++◌, length,
  Result, ok, err, ◌>>=◌, stuck, file_not_found, file_not_open, invalid_weekend,
}
use odin_analytics.Prelude.Text.{Text, codes, eqb_text}
use odin_analytics.Strings.{str_to_digits}
use odin_analytics.Utils.{value_to_enum}
use odin_analytics.Time.Enums.{Weekdays}
use odin_analytics.Time.Date.{Date}
use odin_analytics.Time.Date.Parse.{from_string}
use odin_analytics.Time.Calendar.{CalendarData}

-- What is at a path: nothing that is a regular file, a file that does not open, or a file with its
-- contents.
pub data File : Type 0 where
  no_file locked_file : File
  regular_file : Text → File

-- An input stream: what is left to read, and whether a read has met the end.
pub record Stream : Type 0 where
  pub left : Text
  pub eof : Bool

abbrev pub stream : Text → Bool → Stream
stream s b = record { left = s; eof = b }

-- The result of `std::getline(in, line)`: whether it succeeded, the line and the stream after it.
pub record Line : Type 0 where
  pub success : Bool
  pub line : Text
  pub rest : Stream

abbrev pub line_read : Bool → Text → Stream → Line
line_read b l r = record { success = b; line = l; rest = r }

-- The characters up to a line feed, which is passed over. The read fails if it meets the end of the
-- stream at once.
unfoldable pub read_line : Text → Line
read_line [] = line_read false [] (stream [] true)
read_line (c ∷ cs) =
    let more = read_line cs in
    if c == 10
    then line_read true [] (stream cs false)
    else line_read true (c ∷ more.line) more.rest

-- Past the end, nothing is read, and the line keeps its old text.
unfoldable pub getline : Stream → Text → Line
getline input old =
    let fresh = read_line input.left in if input.eof then line_read false old input else fresh

-- The loop over the digits of the weekend line.
unfoldable pub push_weekends : (ℕ → Option Weekdays) → List ℕ → CalendarData → Result CalendarData
push_weekends enum_cast [] cal = ok cal
push_weekends enum_cast (n ∷ ns) cal =
    if ltb n 7
    then (value_to_enum enum_cast n >>= λ w. push_weekends enum_cast ns (record {
      list_of_holidays = cal.list_of_holidays;
      weekends = cal.weekends ++ w ∷ [];
      regions = cal.regions;
      currency = cal.currency;
    }))
    else err invalid_weekend

unfoldable pub push_holiday : Date → CalendarData → CalendarData
push_holiday d cal = record {
  list_of_holidays = cal.list_of_holidays ++ d ∷ [];
  weekends = cal.weekends;
  regions = cal.regions;
  currency = cal.currency;
}

-- The inner loop, which reads holidays to the end of the file: the data, the last line's text and
-- the stream.
unfoldable pub read_holidays :
    ℕ → Stream → Text → CalendarData → Result (CalendarData × Text × Stream)
read_holidays zero input old cal = err stuck
read_holidays (suc fuel) input old cal =
    let got = getline input old in
    elim got.success [
      | true ↦
          from_string got.line >>= λ d. read_holidays fuel got.rest got.line (push_holiday d cal)
      | false ↦ ok (cal, got.line, got.rest)
    ]

-- The loop over the lines.
unfoldable pub read_calendar :
    (ℕ → Option Weekdays) → ℕ → Stream → Text → CalendarData → Result CalendarData
read_calendar enum_cast zero input old cal = err stuck
read_calendar enum_cast (suc fuel) input old cal =
    let got = getline input old in
    elim got.success [
      | false ↦ ok cal
      | true ↦ elim (eqb_text got.line (codes "#Weekend")) [
        | true ↦
            let next = getline got.rest got.line in
            str_to_digits next.line >>= λ digits. push_weekends enum_cast digits cal >>= λ filled.
            read_calendar enum_cast fuel next.rest next.line filled
        | false ↦ elim (eqb_text got.line (codes "# Holidays")) [
          | true ↦ read_holidays fuel got.rest got.line cal >>= λ after.
              read_calendar enum_cast fuel after.2 after.1 after.0
          | false ↦ read_calendar enum_cast fuel got.rest got.line cal
        ]
      ]
    ]

abbrev pub empty_data : CalendarData
empty_data = record { list_of_holidays = []; weekends = []; regions = []; currency = [] }

-- A read that succeeds takes a character, or is the last.
abbrev pub read_fuel : Text → ℕ
read_fuel s = suc (suc (length s))

abbrev pub with_regions : Text → CalendarData → CalendarData
with_regions region cal = record {
  list_of_holidays = cal.list_of_holidays;
  weekends = cal.weekends;
  regions = region;
  currency = cal.currency;
}

read_file : (ℕ → Option Weekdays) → Text → File → Result CalendarData
read_file enum_cast region no_file = err file_not_found
read_file enum_cast region locked_file = err file_not_open
read_file enum_cast region (regular_file s) =
    read_calendar enum_cast (read_fuel s) (stream s false) [] empty_data >>= λ cal.
    ok (with_regions region cal)

-- The files by their path below the data directory: "calendars", the region and ".hol".
unfoldable pub get_calendar_data :
    (ℕ → Option Weekdays) → (Text → File) → Text → Result CalendarData
unfolding read_file
get_calendar_data enum_cast files region =
    read_file enum_cast region (files (codes "calendars/" ++ region ++ codes ".hol"))
