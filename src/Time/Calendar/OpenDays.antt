-- ===== src/Time/Calendar/OpenDays.antt =====
-- Business days, and how far the next one can be (src/time/calendar.cpp).
use odin_analytics.Prelude.{
  ℕ, ◌+◌, ◌-◌, ◌*◌, ◌%◌, ◌≤◌, ◌<◌, ◌≡◌, subst, arith, true, false, length, get_or,
}
use odin_analytics.Prelude.Int.{pos, eqb_ℤ}
use odin_analytics.Time.Calendar.{Calendar, contains, search_fuel}
use odin_analytics.Time.Calendar.Holidays.{closed}
use odin_analytics.Time.Calendar.Pigeonhole.{pigeonhole}

-- Some weekday is no weekend.
abbrev pub HasOpenDay : Calendar → Type 0
HasOpenDay c = (w : ℕ) × (w < 7) × (get_or c.weekends w false ≡ false)

-- The day `d` is the first business day after `b`, or the last one before `b`.
pub record IsNext (c : Calendar) (b d : ℕ) : Type 0 where
  pub later : b < d
  pub business : closed c d ≡ false
  pub between : (i : ℕ) → b < i → i < d → closed c i ≡ true

pub record IsPrev (c : Calendar) (b d : ℕ) : Type 0 where
  pub earlier : d < b
  pub business : closed c d ≡ false
  pub between : (i : ℕ) → d < i → i < b → closed c i ≡ true

row_apart : (a b k : ℕ) → a < b → eqb_ℤ (pos (k + 7 * b)) (pos (k + 7 * a)) ≡ false
row_apart a b k h = ground arith

open_at :
    (c : Calendar) (w d : ℕ)
    → d % 7 ≡ w
    → get_or c.weekends w false ≡ false
    → contains c.holidays (pos d) ≡ false
    → closed c d ≡ false
open_at c w d e h k = rw (e, h, k)

-- From any day on there is a business day within the rounds that the search is given, and so
-- before any day that is late enough.
pub open_ahead :
    (c : Calendar) (j : ℕ)
    → HasOpenDay c
    → (k : ℕ) × (k < search_fuel c) × (closed c (j + k) ≡ false)
open_ahead c j (w, w_lt, free) =
    let first = (w + 7 - j % 7) % 7 in
    let (i, i_lt, missed) =
      pigeonhole (λ i. pos (j + first + 7 * i)) (λ a b h. row_apart a b (j + first) h)
        (length c.holidays + 1) c.holidays (omega arith) in
    (
      first + 7 * i,
      omega arith,
      open_at c w _ (omega arith) free
          (subst (λ t. contains c.holidays (pos t) ≡ false) (omega arith) missed),
    )

pub open_behind :
    (c : Calendar) (j : ℕ)
    → HasOpenDay c
    → search_fuel c ≤ j + 1
    → (k : ℕ) × (k < search_fuel c) × (closed c (j - k) ≡ false)
open_behind c j o h =
    let (k, lt, free) = open_ahead c (j + 1 - search_fuel c) o in
    (search_fuel c - 1 - k, omega arith, subst (λ t. closed c t ≡ false) (omega arith) free)
