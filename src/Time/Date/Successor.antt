-- ===== src/Time/Date/Successor.antt =====
-- Consecutive days have consecutive Julian day numbers, and so every number from that of
-- -4712-01-01 on is the number of a valid date.
use odin_analytics.Prelude.{
  ℕ, zero, suc, ◌+◌, ◌-◌, ◌≤◌, ◌<◌, ◌≡◌, refl, sym, ap, ◌∙◌, arith, ◌==◌, if◌then◌else◌, ◌||◌,
  Result, ok, err,
}
use mathlib.Core.Path.{subst}
use native.Mathlib.Decide.{dec_lt}
use odin_analytics.Prelude.Int.{ℤ, pos, negsuc, ◌+ℤ◌, ◌-ℤ◌, ◌*ℤ◌, quot, rem, ltb_ℤ, eqb_ℤ}
use odin_analytics.Time.Date.{
  YearMonthDay, year_month_day, days_in_month, convert_to_julian, ymd, is_leap_year,
}
use odin_analytics.Time.Date.Numbers.{month_offset, day_number}
use odin_analytics.Time.Date.Gregorian.{
  length_from_4800, leap_from_4800, number_from_4800, days_in_month_pos, +ℤ_pos,
}
use odin_analytics.Time.Date.RoundTrip.{
  IsValid, IsValidFrom4800, IsValid-parts, IsValid-date_from_4800, julian_of, julian_of-at,
  date_from_4800, ymd-convert_to_julian,
}

-- The day after, by the rules of the calendar alone.
unfoldable pub step_day : YearMonthDay → Result ℤ → YearMonthDay
step_day g (err e) = g
step_day g (ok last) =
    if ltb_ℤ g.day last
    then year_month_day g.year g.month (g.day +ℤ pos 1)
    else if eqb_ℤ g.month (pos 12)
    then year_month_day (g.year +ℤ pos 1) (pos 1) (pos 1)
    else year_month_day g.year (g.month +ℤ pos 1) (pos 1)

unfoldable pub next_day : YearMonthDay → YearMonthDay
unfolding step_day
next_day g = step_day g (days_in_month g.year g.month)

-- Within a month, from one month to the next, and from one year to the next.
abbrev length_after_march : ℕ → ℕ
length_after_march m = if m == 4 || (m == 6 || (m == 9 || m == 11)) then 30 else 31

month_offset-next :
    (m : ℕ) → 3 ≤ m → m < 12 → month_offset (m - 1) ≡ month_offset (m - 2) + length_after_march m
month_offset-next m h1 h2 = ground arith

january_end : (n : ℕ) → 88 ≤ n → number_from_4800 n 2 1 ≡ number_from_4800 n 1 31 + 1
january_end n h = omega arith

february_end :
    (n : ℕ)
    → 88 ≤ n
    → number_from_4800 n 3 1 ≡ number_from_4800 n 2 (if leap_from_4800 n then 29 else 28) + 1
february_end n h = ground arith

later_month_end :
    (n m : ℕ)
    → 88 ≤ n
    → 3 ≤ m
    → m < 12
    → day_number n (month_offset (m - 1) + 1)
      ≡ day_number n (month_offset (m - 2) + length_after_march m) + 1
later_month_end n m h h1 h2 = rw (month_offset-next m h1 h2) (omega arith)

number-after_march :
    (n m d : ℕ) → 3 ≤ m → number_from_4800 n m d ≡ day_number n (month_offset (m - 2) + d)
number-after_march n m d h = ground arith

length-after_march : (n m : ℕ) → 3 ≤ m → length_from_4800 n m ≡ length_after_march m
length-after_march n m h = ground arith

month_end :
    (n m : ℕ)
    → 88 ≤ n
    → 1 ≤ m
    → m < 12
    → number_from_4800 n (m + 1) 1 ≡ number_from_4800 n m (length_from_4800 n m) + 1
month_end n zero h h1 h2 = absurd (omega arith)
month_end n (suc zero) h h1 h2 = january_end n h
month_end n (suc (suc zero)) h h1 h2 = february_end n h
month_end n (suc (suc (suc k))) h h1 h2 =
    let m = suc (suc (suc k)) in
    number-after_march n (m + 1) 1 (omega arith)
    ∙ ap (λ t. day_number n (month_offset t + 1)) (omega arith)
    ∙ later_month_end n m h (omega arith) h2
    ∙ sym (
        ap (λ t. number_from_4800 n m t + 1) (length-after_march n m (omega arith))
        ∙ ap (λ t. t + 1) (number-after_march n m (length_after_march m) (omega arith)))

year_end : (n : ℕ) → 88 ≤ n → number_from_4800 (n + 1) 1 1 ≡ number_from_4800 n 12 31 + 1
year_end n h = omega arith

month_middle :
    (n m d : ℕ)
    → 88 ≤ n
    → 1 ≤ m
    → m ≤ 12
    → number_from_4800 n m (d + 1) ≡ number_from_4800 n m d + 1
month_middle n m d h h1 h2 = ground arith

-- The numbers of the following day.
Follows : ℕ → ℕ → ℕ → Type 0
Follows n m d =
    (n' : ℕ) × (m' : ℕ) × (d' : ℕ) × (next_day (date_from_4800 n m d) ≡ date_from_4800 n' m' d')
    × IsValidFrom4800 n' m' d'
    × (number_from_4800 n' m' d' ≡ number_from_4800 n m d + 1)

next_day-at :
    (n m d : ℕ)
    → IsValidFrom4800 n m d
    → next_day (date_from_4800 n m d)
      ≡ step_day (date_from_4800 n m d) (ok (pos (length_from_4800 n m)))
unfolding next_day
next_day-at n m d v =
    ap (step_day (date_from_4800 n m d)) (days_in_month_pos n m v.month_in.0 v.month_in.1)

length_from_4800_pos : (n m : ℕ) → 28 ≤ length_from_4800 n m
length_from_4800_pos n m = ground arith

step_middle :
    (n m d k : ℕ)
    → d < k
    → step_day (date_from_4800 n m d) (ok (pos k)) ≡ date_from_4800 n m (d + 1)
unfolding step_day ◌+ℤ◌
step_middle n m d k h = ground arith

step_month :
    (n m d k : ℕ)
    → k ≤ d
    → m < 12
    → step_day (date_from_4800 n m d) (ok (pos k)) ≡ date_from_4800 n (m + 1) 1
unfolding step_day ◌+ℤ◌
step_month n m d k h h' = ground arith

step_year :
    (n d k : ℕ) → k ≤ d → step_day (date_from_4800 n 12 d) (ok (pos k)) ≡ date_from_4800 (n + 1) 1 1
unfolding step_day ◌+ℤ◌ ◌-ℤ◌
step_year n d k h = ground arith

december_lem :
    (n m d : ℕ) → m ≡ 12 → IsValidFrom4800 n m d → length_from_4800 n m ≤ d → Follows n m d
unfolding Follows
december_lem n m d e v h =
    subst (λ t. IsValidFrom4800 n t d → length_from_4800 n t ≤ d → Follows n t d) (sym e)
      (λ w k. (
        n + 1,
        1,
        1,
        next_day-at n 12 d w ∙ step_year n d 31 k,
        record { year_in = omega (arith, w.year_in); month_in = omega arith; day_in = omega arith },
        year_end n w.year_in
            ∙ ap (λ t. number_from_4800 n 12 t + 1)
                (let e' : 31 ≡ d = omega (arith, w.day_in) in e'),
      ))
      v h

follows_lem : (n m d : ℕ) → IsValidFrom4800 n m d → Follows n m d
unfolding Follows
follows_lem n m d v = elim (dec_lt d (length_from_4800 n m)) [
  | yes inside ↦ (
    n,
    m,
    d + 1,
    next_day-at n m d v ∙ step_middle n m d (length_from_4800 n m) inside,
    record { year_in = v.year_in; month_in = v.month_in; day_in = omega (arith, inside) },
    month_middle n m d v.year_in v.month_in.0 v.month_in.1,
  )
  | no outside ↦ elim (dec_lt m 12) [
    | yes before ↦ (
      n,
      m + 1,
      1,
      next_day-at n m d v ∙ step_month n m d (length_from_4800 n m) (omega (arith, outside)) before,
      record {
        year_in = v.year_in;
        month_in = omega (arith, v.month_in);
        day_in = omega (arith, length_from_4800_pos n (m + 1));
      },
      month_end n m v.year_in v.month_in.0 before
          ∙ ap (λ t. number_from_4800 n m t + 1) (omega (arith, v.day_in, outside)),
    )
    | no last ↦ december_lem n m d (omega (arith, v.month_in, last)) v (omega (arith, outside))
  ]
]

number_bound : (n m d : ℕ) → IsValidFrom4800 n m d → 32075 ≤ number_from_4800 n m d
number_bound n m d v = ground (arith, v.year_in, v.month_in, v.day_in)

-- The day after a valid date is valid, and its Julian day number is one more.
pub convert_to_julian-next_day :
    (g : YearMonthDay)
    → IsValid g
    → IsValid (next_day g)
      × (convert_to_julian (next_day g).year (next_day g).month (next_day g).day
          ≡ convert_to_julian g.year g.month g.day +ℤ pos 1)
unfolding Follows
convert_to_julian-next_day g v =
    let (n, m, d, e, w) = IsValid-parts g v in
    let (n', m', d', e', w', s) = follows_lem n m d w in
    let moved : next_day g ≡ date_from_4800 n' m' d' = ap next_day e ∙ e' in
    (
      subst IsValid (sym moved) (IsValid-date_from_4800 n' m' d' w'),
      ap julian_of moved
          ∙ julian_of-at n' m' d' w'
          ∙ succ_lem (number_from_4800 n m d) (number_from_4800 n' m' d') s (number_bound n m d w)
          ∙ ap (λ t. t +ℤ pos 1) (sym (julian_of-at n m d w) ∙ sym (ap julian_of e)),
    )
  where
    succ_lem : (a b : ℕ) → b ≡ a + 1 → 32075 ≤ a → pos (b - 32075) ≡ pos (a - 32075) +ℤ pos 1
    succ_lem a b e h = ap pos (omega arith) ∙ sym (+ℤ_pos (a - 32075) 1)

-- Day 38 is -4712-01-01.
abbrev first_date : YearMonthDay
first_date = year_month_day (negsuc 4711) (pos 1) (pos 1)

-- Every day from then on has a date: `k` days later.
abbrev pub date_after : ℕ → YearMonthDay
date_after zero = first_date
date_after (suc k) = next_day (date_after k)

date_after_lem : (k : ℕ) → IsValid (date_after k) × (julian_of (date_after k) ≡ pos (38 + k))
unfolding convert_to_julian ◌+ℤ◌ ◌-ℤ◌ ◌*ℤ◌ quot days_in_month is_leap_year rem
date_after_lem zero = (
  record {
    year_in = omega arith;
    month_in = omega arith;
    day_in = (pos 31, refl, omega arith, omega arith);
  },
  refl,
)
date_after_lem (suc k) =
    let (v, e) = date_after_lem k in
    let (w, s) = convert_to_julian-next_day (date_after k) v in
    (w, s ∙ ap (λ t. t +ℤ pos 1) e ∙ +ℤ_pos (38 + k) 1 ∙ ap pos (omega arith))

-- Every Julian day number from 38 on is that of the date that `YMD` computes, which is valid:
-- `ConvertToJulian` after `YMD` is the identity.
pub convert_to_julian-ymd :
    (j : ℕ)
    → 38 ≤ j
    → IsValid (ymd (pos j))
      × (convert_to_julian (ymd (pos j)).year (ymd (pos j)).month (ymd (pos j)).day ≡ pos j)
convert_to_julian-ymd j h =
    let (v, e) = date_after_lem (j - 38) in
    let day : julian_of (date_after (j - 38)) ≡ pos j = e ∙ ap pos (omega arith) in
    let found : ymd (pos j) ≡ date_after (j - 38) =
      ap ymd (sym day) ∙ ymd-convert_to_julian (date_after (j - 38)) v in
    (subst IsValid (sym found) v, ap julian_of found ∙ day)
