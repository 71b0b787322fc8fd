-- ===== src/Time/DateAdjust/Examples.antt =====
-- The theorems about the adjustment rules at a calendar with a weekend and a holiday.
use odin_analytics.Prelude.{ℕ, ◌≡◌, refl, arith, ok}
use odin_analytics.Prelude.Int.{pos}
use odin_analytics.Time.Date.{from_julian}
use odin_analytics.Time.Calendar.Examples.{office, office-HasOpenDay}
use odin_analytics.Time.DateAdjust.{adjust_mod_following}
use odin_analytics.Time.DateAdjust.SameMonth.{IsModFollowing, adjust_mod_following-IsModFollowing}

adjust_mod_following_example :
    (d : ℕ) × (adjust_mod_following (from_julian (pos 2459792)) office ≡ ok (from_julian (pos d)))
    × IsModFollowing office 2459792 d
adjust_mod_following_example =
    adjust_mod_following-IsModFollowing office refl 2459792 office-HasOpenDay (omega arith)
