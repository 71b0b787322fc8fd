-- ===== src/Time/Enums.antt =====
-- include/oa/time/enums.h: the enumerations of the time library.
use odin_analytics.Prelude.{ℕ}

pub data Weekdays : Type 0 where
  monday tuesday wednesday thursday friday saturday sunday : Weekdays

-- The enumerators' values are the letters D, W, M and Y.
pub data Tenors : Type 0 where
  days weeks months years : Tenors

-- The values of the enumerators of `Tenors`.
unfoldable pub unit_code : Tenors → ℕ
unit_code days = b'D'
unit_code weeks = b'W'
unit_code months = b'M'
unit_code years = b'Y'

pub data AdjRule : Type 0 where
  following preceding modified_following plain_adjustment : AdjRule

pub data DayCountRule : Type 0 where
  act_act actb_actb thirty_360_bond_basis thirty_e_360_isda : DayCountRule
  thirty_360_e_eurobond act_360 act_365_fixed : DayCountRule
