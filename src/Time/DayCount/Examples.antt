-- ===== src/Time/DayCount/Examples.antt =====
-- The theorems about day counts at concrete dates.
use odin_analytics.Prelude.{◌≡◌, refl, arith, ok, if◌then◌else◌, ◌&&◌}
use odin_analytics.Prelude.Int.{ℤ, pos, ◌+ℤ◌, eqb_ℤ, ltb_ℤ}
use odin_analytics.Prelude.Double.{numerators}
use odin_analytics.Time.Date.{Date, from_julian, gregorian}
use odin_analytics.Time.DayCount.{
  eurobond_days, isda_days, bond_basis_days, actual_days, act_act_fraction,
}
use odin_analytics.Time.DayCount.Thirty360.{isda_days-additive, bond_basis_days-eurobond_days}
use odin_analytics.Time.DayCount.ActAct.{act_act_fraction-numerators}

-- 2022-02-28, 2022-07-31 and 2024-02-29.
abbrev first : Date
first = from_julian (pos 2459639)

abbrev second : Date
second = from_julian (pos 2459792)

abbrev third : Date
third = from_julian (pos 2460370)

isda_days-additive_example :
    (m : ℤ) × (n : ℤ) × (isda_days first second ≡ ok m)
    × (isda_days second third ≡ ok n)
    × (isda_days first third ≡ ok (m +ℤ n))
isda_days-additive_example =
    isda_days-additive first second third (omega arith) (omega arith) (omega arith)

bond_basis_days-eurobond_days_example : bond_basis_days first second ≡ (
    if eqb_ℤ (gregorian second).day (pos 31) && ltb_ℤ (gregorian first).day (pos 30)
    then eurobond_days first second +ℤ pos 1
    else eurobond_days first second)
bond_basis_days-eurobond_days_example = bond_basis_days-eurobond_days first second refl

act_act_fraction-numerators_example :
    act_act_fraction numerators first third ≡ ok (actual_days first third)
act_act_fraction-numerators_example =
    act_act_fraction-numerators first third (omega arith) (omega arith)
