-- ===== src/Time/Tenor.antt =====
-- src/time/tenor.cpp and include/oa/time/tenor.h: a count of days, weeks, months or years.
pub mod Parse
pub mod Order
pub mod Hash
mod Examples
use odin_analytics.Prelude.{ℕ, Bool, ◌&&◌, ◌==◌, ltb, if◌then◌else◌}
use odin_analytics.Prelude.Int.{ℤ, ◌+ℤ◌, ◌-ℤ◌, neg_ℤ, ltb_ℤ, eqb_ℤ}
use odin_analytics.Time.Enums.{unit_code, Tenors, days, weeks, months, years}

pub record Tenor : Type 0 where
  pub count : ℤ
  pub unit : Tenors

abbrev pub tenor : ℤ → Tenors → Tenor
tenor n u = record { count = n; unit = u }

-- The lambda of `GroupLess`. All values of the enumeration are covered, so its default is not met.
unfoldable pub rank : Tenors → ℕ
rank days = 0
rank weeks = 1
rank months = 2
rank years = 3

unfoldable pub group_less : Tenor → Tenor → Bool
unfolding rank
group_less a b =
    if rank a.unit == rank b.unit then ltb_ℤ a.count b.count else ltb (rank a.unit) (rank b.unit)

unfoldable pub flip_sign : Tenor → Tenor
flip_sign t = tenor (neg_ℤ t.count) t.unit

-- Unary minus.
unfoldable pub negate : Tenor → Tenor
negate t = tenor (neg_ℤ t.count) t.unit

unfoldable pub tenor_eq : Tenor → Tenor → Bool
tenor_eq a b = eqb_ℤ a.count b.count && (unit_code a.unit == unit_code b.unit)

unfoldable pub plus : Tenor → ℤ → Tenor
plus t shift = tenor (t.count +ℤ shift) t.unit

unfoldable pub minus : Tenor → ℤ → Tenor
minus t shift = tenor (t.count -ℤ shift) t.unit
