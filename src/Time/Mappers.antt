-- ===== src/Time/Mappers.antt =====
-- src/time/time_enum_mappers.cpp: the names that stand for day count and adjustment rules.
pub mod Lookup
mod Examples
use odin_analytics.Prelude.{ℕ, if◌then◌else◌, List, [], ◌∷◌, map, Result, ok, err, invalid_argument}
use odin_analytics.Prelude.Text.{Text, codes, eqb_text}
use odin_analytics.Strings.{to_upper}
use odin_analytics.Time.Enums.{
  DayCountRule, act_act, thirty_360_bond_basis, thirty_e_360_isda, thirty_360_e_eurobond, act_360,
  act_365_fixed, AdjRule, following, preceding, modified_following, plain_adjustment,
}

-- The `at` of a map. Where a key is listed twice, the first entry counts.
unfoldable pub find {ℓ} : {A : Type ℓ} → Text → List (Text × A) → Result A
find key [] = err invalid_argument
find key (entry ∷ rest) =
    let later = find key rest in if eqb_text entry.0 key then ok entry.1 else later

unfoldable pub upper_text : Text → Text
upper_text s = map to_upper s

-- The body that the mapping functions share: the key is the input in upper case.
unfoldable pub map_input {ℓ} : {A : Type ℓ} → List (Text × A) → Text → Result A
map_input table input_str = find (upper_text input_str) table

unfoldable pub day_count_map : List (Text × DayCountRule)
day_count_map =
    (codes "ACT/360", act_360)
    ∷ (codes "ACT:360", act_360)
    ∷ (codes "ACT_360", act_360)
    ∷ (codes "ACT360", act_360)
    ∷ (codes "30E/360", thirty_e_360_isda)
    ∷ (codes "30E:360", thirty_e_360_isda)
    ∷ (codes "30E_360", thirty_e_360_isda)
    ∷ (codes "30E360", thirty_e_360_isda)
    ∷ (codes "30/360", thirty_360_bond_basis)
    ∷ (codes "30:360", thirty_360_bond_basis)
    ∷ (codes "30_360", thirty_360_bond_basis)
    ∷ (codes "30360", thirty_360_bond_basis)
    ∷ (codes "30E/360EURO", thirty_360_e_eurobond)
    ∷ (codes "30E:360EURO", thirty_360_e_eurobond)
    ∷ (codes "30E_360EURO", thirty_360_e_eurobond)
    ∷ (codes "30E360EURO", thirty_360_e_eurobond)
    ∷ (codes "ACT/365", act_365_fixed)
    ∷ (codes "ACT:365", act_365_fixed)
    ∷ (codes "ACT_365", act_365_fixed)
    ∷ (codes "ACT365", act_365_fixed)
    ∷ (codes "act/365", act_365_fixed)
    ∷ (codes "act:365", act_365_fixed)
    ∷ (codes "act_365", act_365_fixed)
    ∷ (codes "act365", act_365_fixed)
    ∷ (codes "ACT:ACT", act_act)
    ∷ (codes "ACT_ACT", act_act)
    ∷ (codes "ACT/ACT", act_act)
    ∷ (codes "ACT:ACT", act_act)
    ∷ (codes "ACT_ACT", act_act)
    ∷ (codes "ACTACT", act_act)
    ∷ []

unfoldable pub date_adjust_map : List (Text × AdjRule)
date_adjust_map =
    (codes "MF", modified_following)
    ∷ (codes "MODIFIEDFOLLOWING", modified_following)
    ∷ (codes "MODIFIED_FOLLOWING", modified_following)
    ∷ (codes "MODF", modified_following)
    ∷ (codes "MFOL", modified_following)
    ∷ (codes "P", preceding)
    ∷ (codes "PRECEDING", preceding)
    ∷ (codes "PRE", preceding)
    ∷ (codes "F", following)
    ∷ (codes "FOLLOWING", following)
    ∷ (codes "FOL", following)
    ∷ (codes "NOADJ", plain_adjustment)
    ∷ (codes "NO_ADJ", plain_adjustment)
    ∷ (codes "NONE", plain_adjustment)
    ∷ []

unfoldable pub map_input_to_day_count_enum : Text → Result DayCountRule
map_input_to_day_count_enum s = map_input day_count_map s

unfoldable pub map_input_to_day_adjust_enum : Text → Result AdjRule
map_input_to_day_adjust_enum s = map_input date_adjust_map s
