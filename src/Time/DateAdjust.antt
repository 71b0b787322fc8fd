-- ===== src/Time/DateAdjust.antt =====
-- src/time/date_adjust: the rules that move a holiday to a business day, and their factory.
pub mod Rules
pub mod SameMonth
mod Examples
use odin_analytics.Prelude.{
  Option, none, some, not, if◌then◌else◌, Result, ok, err, undefined, ◌>>=◌,
}
use odin_analytics.Prelude.Int.{eqb_ℤ}
use odin_analytics.Time.Enums.{AdjRule, following, preceding, modified_following, plain_adjustment}
use odin_analytics.Time.Date.{Date, gregorian}
use odin_analytics.Time.Calendar.{
  Calendar, is_holiday, get_next_business_day, get_prev_business_day,
}

unfoldable pub adjust_following : Date → Calendar → Result Date
adjust_following given c = is_holiday c given.julian >>= λ holiday.
    if holiday then get_next_business_day c given else ok given

unfoldable pub adjust_preceding : Date → Calendar → Result Date
adjust_preceding given c = is_holiday c given.julian >>= λ holiday.
    if holiday then get_prev_business_day c given else ok given

-- The choice of `AdjustModFollowing` once the next business day is known.
unfoldable pub keep_month : Calendar → Date → Date → Result Date
keep_month c given next =
    if not (eqb_ℤ (gregorian given).month (gregorian next).month)
    then get_prev_business_day c given
    else ok next

unfoldable pub adjust_mod_following : Date → Calendar → Result Date
adjust_mod_following given c = is_holiday c given.julian >>= λ holiday.
    if holiday then (get_next_business_day c given >>= keep_month c given) else ok given

-- The subclasses of `DateAdjustBase`, each with its copy of the calendar.
pub data DateAdjust : Type 0 where
  adjusts_following adjusts_preceding adjusts_mod_following : Calendar → DateAdjust
  adjusts_plain : DateAdjust

unfoldable pub adjust_date : DateAdjust → Date → Result Date
adjust_date (adjusts_following c) given = adjust_following given c
adjust_date (adjusts_preceding c) given = adjust_preceding given c
adjust_date (adjusts_mod_following c) given = adjust_mod_following given c
adjust_date adjusts_plain given = ok given

-- `CreateDateAdjust` without a calendar; `none` is the null pointer.
unfoldable pub create_plain : AdjRule → Option DateAdjust
create_plain plain_adjustment = some adjusts_plain
create_plain following = none
create_plain preceding = none
create_plain modified_following = none

-- `CreateDateAdjust` with a calendar.
unfoldable pub create_date_adjust : AdjRule → Calendar → Option DateAdjust
create_date_adjust following c = some (adjusts_following c)
create_date_adjust preceding c = some (adjusts_preceding c)
create_date_adjust modified_following c = some (adjusts_mod_following c)
create_date_adjust plain_adjustment c = create_plain plain_adjustment
