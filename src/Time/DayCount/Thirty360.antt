-- ===== src/Time/DayCount/Thirty360.antt =====
-- The 30/360 conventions (src/time/day_count) against one another.
use odin_analytics.Prelude.{
  ◌≡◌, sym, ap, ◌∙◌, subst, arith, Bool, false, Bool-cases, inl, inr, ◌&&◌, ◌||◌, if◌then◌else◌, ok,
}
use odin_analytics.Prelude.Int.{ℤ, pos, ◌+ℤ◌, ◌-ℤ◌, ◌*ℤ◌, neg_ℤ, ltb_ℤ, eqb_ℤ, int_laws}
use odin_analytics.Time.Date.Validity.{last_day, days_in_month-last_day, IsDate, gregorian-IsValid}
use odin_analytics.Time.Date.RoundTrip.{IsValid}
use odin_analytics.Time.Date.{from_julian, Date, YearMonthDay, gregorian, date_lt}
use odin_analytics.Time.DayCount.{
  thirty_sum, clip_31, bond_basis_ordered, bond_basis_days, eurobond_days, counts_as_30, isda_days,
}

-- Days since the start of a calendar whose months all have 30 days, with day `d` of the month.
abbrev pub days_of_30 : YearMonthDay → ℤ → ℤ
days_of_30 g d = pos 360 *ℤ g.year +ℤ pos 30 *ℤ g.month +ℤ d

thirty_sum_lem :
    (g h : YearMonthDay) (d e : ℤ) → thirty_sum g h d e ≡ days_of_30 h e -ℤ days_of_30 g d
unfolding thirty_sum
thirty_sum_lem g h d e = omega int_laws

-- The Eurobond count adds up over adjacent periods, in whatever order the dates are.
pub eurobond_days-additive :
    (a b c : Date) → eurobond_days a b +ℤ eurobond_days b c ≡ eurobond_days a c
unfolding eurobond_days
eurobond_days-additive a b c =
    rw
      (
        thirty_sum_lem (gregorian a) (gregorian b) _ _,
        thirty_sum_lem (gregorian b) (gregorian c) _ _,
        thirty_sum_lem (gregorian a) (gregorian c) _ _,
      )
      (omega int_laws)

counts_as_30-total : (g : YearMonthDay) → IsValid g → (full : Bool) × (counts_as_30 g ≡ ok full)
unfolding counts_as_30
counts_as_30-total g v = (
  eqb_ℤ g.day (pos 31) || (eqb_ℤ g.month (pos 2) && eqb_ℤ g.day (last_day g.year g.month)),
  ground (arith, days_in_month-last_day g.year g.month v.month_in.0 v.month_in.1),
)

isda_days-from :
    (a b : Date) (full1 full2 : Bool)
    → counts_as_30 (gregorian a) ≡ ok full1
    → counts_as_30 (gregorian b) ≡ ok full2
    → isda_days a b
      ≡ ok (
          days_of_30 (gregorian b) (if full2 then pos 30 else (gregorian b).day)
          -ℤ days_of_30 (gregorian a) (if full1 then pos 30 else (gregorian a).day))
unfolding isda_days
isda_days-from a b full1 full2 p q =
    rw (p, q) (ap ok (thirty_sum_lem (gregorian a) (gregorian b) _ _))

-- The ISDA count is defined on all dates, and adds up over adjacent periods.
pub isda_days-additive :
    (a b c : Date)
    → IsDate a
    → IsDate b
    → IsDate c
    → (m : ℤ) × (n : ℤ) × (isda_days a b ≡ ok m)
      × (isda_days b c ≡ ok n)
      × (isda_days a c ≡ ok (m +ℤ n))
isda_days-additive a b c ha hb hc =
    let (fa, pa) = counts_as_30-total (gregorian a) (gregorian-IsValid a ha).0 in
    let (fb, pb) = counts_as_30-total (gregorian b) (gregorian-IsValid b hb).0 in
    let (fc, pc) = counts_as_30-total (gregorian c) (gregorian-IsValid c hc).0 in
    (
      _,
      _,
      isda_days-from a b fa fb pa pb,
      isda_days-from b c fb fc pb pc,
      isda_days-from a c fa fc pa pc ∙ ap ok (telescope _ _ _),
    )
  where
    telescope : (x y z : ℤ) → z -ℤ x ≡ y -ℤ x +ℤ (z -ℤ y)
    telescope x y z = omega int_laws

same_clip :
    (d : ℤ) → (if eqb_ℤ d (pos 31) && ltb_ℤ (pos 29) (clip_31 d) then pos 30 else d) ≡ clip_31 d
unfolding clip_31
same_clip d = ground arith

bond_basis_self : (a : Date) → bond_basis_ordered a a ≡ pos 0
unfolding bond_basis_ordered
bond_basis_self a =
    rw (same_clip (gregorian a).day, thirty_sum_lem (gregorian a) (gregorian a) _ _)
      (omega int_laws)

neg_neg : (a : ℤ) → a ≡ neg_ℤ (neg_ℤ a)
neg_neg a = omega int_laws

-- Swapping the dates flips the sign of the bond basis count.
pub bond_basis_days-swap : (a b : Date) → bond_basis_days b a ≡ neg_ℤ (bond_basis_days a b)
unfolding bond_basis_days
bond_basis_days-swap a b = elim (Bool-cases (date_lt a b)) [
  | inl before ↦ let e : date_lt b a ≡ false = ground arith in rw (before, e)
  | inr not_before ↦ elim (Bool-cases (date_lt b a)) [
    | inl after ↦ rw (not_before, after) (neg_neg (bond_basis_ordered b a))
    | inr not_after ↦
        let same : a.julian ≡ b.julian = ground arith in
        rw (not_before, not_after)
          (subst (λ t. bond_basis_ordered t a ≡ neg_ℤ (bond_basis_ordered a t))
            (ap from_julian same) (bond_basis_self a ∙ zero ∙ ap neg_ℤ (sym (bond_basis_self a))))
  ]
]
  where
    zero : pos 0 ≡ neg_ℤ (pos 0)
    zero = omega int_laws

second_day :
    (d1 d2 : ℤ)
    → (if eqb_ℤ d2 (pos 31) && ltb_ℤ (pos 29) (clip_31 d1) then pos 30 else d2)
      ≡ (if eqb_ℤ d2 (pos 31) && ltb_ℤ d1 (pos 30) then clip_31 d2 +ℤ pos 1 else clip_31 d2)
unfolding clip_31 ◌+ℤ◌
second_day d1 d2 = ground arith

one_day_more :
    (g h : YearMonthDay) (d e : ℤ) → thirty_sum g h d (e +ℤ pos 1) ≡ thirty_sum g h d e +ℤ pos 1
one_day_more g h d e =
    rw (thirty_sum_lem g h d (e +ℤ pos 1), thirty_sum_lem g h d e) (omega int_laws)

-- On dates in order the bond basis count is the Eurobond count, or one more where the second date
-- is a 31st and the first comes before the 30th.
pub bond_basis_days-eurobond_days :
    (a b : Date)
    → date_lt b a ≡ false
    → bond_basis_days a b ≡ (
        if eqb_ℤ (gregorian b).day (pos 31) && ltb_ℤ (gregorian a).day (pos 30)
        then eurobond_days a b +ℤ pos 1
        else eurobond_days a b)
unfolding bond_basis_days bond_basis_ordered eurobond_days
bond_basis_days-eurobond_days a b h =
    rw (h, second_day (gregorian a).day (gregorian b).day)
      (elim (Bool-cases (eqb_ℤ (gregorian b).day (pos 31) && ltb_ℤ (gregorian a).day (pos 30))) [
        | inl late ↦ rw late (one_day_more (gregorian a) (gregorian b) _ _)
        | inr other ↦ rw other
      ])
