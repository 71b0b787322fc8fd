-- ===== src/DerivedTime/CashflowGen/Coupon/Flows.antt =====
-- What `CreateFixedCashflows` (src/derived_time/cashflow_gen/cashflow_gen.cpp) returns: a coupon for
-- each period, and the repayment.
use odin_analytics.Prelude.{
  chain_ok, guard_ok, ℕ, suc, ◌≡◌, refl, sym, ap, ◌∙◌, subst, arith, true, false, List, [], ◌∷◌, ok,
  err, ◌>>=◌, undefined, invalid_argument,
}
use odin_analytics.Prelude.Int.{ℤ, ◌≤ℤ◌, ltb_ℤ, ◌+ℤ◌, ◌-ℤ◌, neg_ℤ, pos_part}
use odin_analytics.Prelude.Double.{Double}
use odin_analytics.Time.Enums.{DayCountRule}
use odin_analytics.Time.Tenor.{Tenor, tenor}
use odin_analytics.Time.Date.{Date, date_lt, add_tenor}
use odin_analytics.Time.DayCount.{generate_day_counter}
use odin_analytics.DerivedTime.Enums.{no_stub, DateDirection, forward, backward}
use odin_analytics.DerivedTime.CashflowGen.{
  Options, Schedule, period_dates, schedule, put_first, forward_dates, backward_dates,
  unadjusted_dates, is_stub,
}
use odin_analytics.DerivedTime.CashflowGen.Coupon.Periods.{
  IsCoupon, IsRepayment, make_cashflow-IsCoupon,
}
use odin_analytics.DerivedTime.CashflowGen.Coupon.{
  CashflowStruct, make_cashflow, make_cashflows, add_principal, principal_of,
  create_fixed_cashflows,
}

module _ (double : Double) where
  open double use {Number}

  -- The coupons of the periods, one by one.
  pub data AreCoupons (freq : Tenor) (notional rate : Number) (rule : DayCountRule) (opts : Options)
      : List Date → List Date → List (CashflowStruct Number) → Type 0 where
    no_periods : {es : List Date} → AreCoupons freq notional rate rule opts [] es []
    one_more :
        {s e : Date} {ss es : List Date} {cf : CashflowStruct Number}
        {cfs : List (CashflowStruct Number)}
        → IsCoupon double freq notional rate rule opts s e cf
        → AreCoupons freq notional rate rule opts ss es cfs
        → AreCoupons freq notional rate rule opts (s ∷ ss) (e ∷ es) (cf ∷ cfs)

  -- The coupons, and behind them the repayment, by the last of them.
  pub data IsRepaid (notional : Number)
      : List (CashflowStruct Number) → List (CashflowStruct Number) → Type 0 where
    repaid :
        (last cf : CashflowStruct Number)
        → IsRepayment double notional last cf
        → IsRepaid notional (last ∷ []) (last ∷ cf ∷ [])
    before :
        (cf : CashflowStruct Number) {cfs all : List (CashflowStruct Number)}
        → IsRepaid notional cfs all
        → IsRepaid notional (cf ∷ cfs) (cf ∷ all)

not_after : (a b : Date) → date_lt a b ≡ false → b.julian ≤ℤ a.julian
not_after a b h = ground arith

-- Dates on one day, and the empty schedule between them.
same_day_lt : (a b : Date) → a.julian ≡ b.julian → date_lt a b ≡ false
same_day_lt a b h = ap (λ i. ltb_ℤ i b.julian) h ∙ itself b.julian
  where
    itself : (i : ℤ) → ltb_ℤ i i ≡ false
    itself i = ground arith

forward_dates-same_day :
    (fuel : ℕ) (start_date mat_date : Date) (freq : Tenor) (total : ℤ)
    → start_date.julian ≡ mat_date.julian
    → forward_dates (suc fuel) start_date mat_date freq start_date total ≡ ok (schedule [] [])
unfolding forward_dates
forward_dates-same_day fuel start_date mat_date freq total h =
    ap
      (λ b. elim b [
        | true ↦ add_tenor start_date freq >>= λ end_date.
            add_tenor start_date (tenor total freq.unit) >>= λ next.
            forward_dates fuel start_date mat_date freq next (total +ℤ freq.count) >>= λ rest.
            ok (put_first start_date end_date rest)
        | false ↦ ok (schedule [] [])
      ])
      (same_day_lt start_date mat_date h)

backward_dates-same_day :
    (fuel : ℕ) (start_date mat_date : Date) (freq : Tenor) (total : ℤ)
    → start_date.julian ≡ mat_date.julian
    → backward_dates (suc fuel) start_date mat_date freq mat_date total ≡ ok (schedule [] [])
unfolding backward_dates
backward_dates-same_day fuel start_date mat_date freq total h =
    ap
      (λ b. elim b [
        | true ↦ add_tenor mat_date (tenor (neg_ℤ freq.count) freq.unit) >>= λ begin_date.
            add_tenor mat_date (tenor total freq.unit) >>= λ next.
            backward_dates fuel start_date mat_date freq next (total -ℤ freq.count) >>= λ rest.
            ok (put_first begin_date mat_date rest)
        | false ↦ ok (schedule [] [])
      ])
      (same_day_lt start_date mat_date h)

unadjusted_dates-same_day :
    (d : DateDirection) (start_date mat_date : Date) (freq : Tenor)
    → start_date.julian ≡ mat_date.julian
    → unadjusted_dates d start_date mat_date freq ≡ ok (schedule [] [])
unfolding unadjusted_dates
unadjusted_dates-same_day forward start_date mat_date freq h =
    forward_dates-same_day _ start_date mat_date freq freq.count h
unadjusted_dates-same_day backward start_date mat_date freq h =
    rw
      (backward_dates-same_day (pos_part (mat_date.julian -ℤ start_date.julian)) start_date mat_date
        freq (neg_ℤ freq.count) h)
      refl

period_dates-same_day :
    (start_date mat_date : Date) (freq : Tenor) (opts : Options)
    → opts.front_stub_type ≡ no_stub
    → opts.back_stub_type ≡ no_stub
    → start_date.julian ≡ mat_date.julian
    → period_dates start_date mat_date freq opts ≡ ok (schedule [] [])
unfolding period_dates is_stub
period_dates-same_day start_date mat_date freq opts front back h =
    rw (front, back, unadjusted_dates-same_day opts.date_direction start_date mat_date freq h) refl

ok-injective {ℓ} : {A : Type ℓ} {a b : A} → ok a ≡ ok b → a ≡ b
ok-injective h = ground (arith, h)

module _ (double : Double) where
  open double use {Number}

  module _ (freq : Tenor) (notional rate : Number) (rule : DayCountRule) (opts : Options) where
    make_cashflows-AreCoupons :
        (ss es : List Date) (cfs : List (CashflowStruct Number))
        → make_cashflows double (generate_day_counter rule) freq notional rate rule opts ss es
          ≡ ok cfs
        → AreCoupons double freq notional rate rule opts ss es cfs
    unfolding make_cashflows
    make_cashflows-AreCoupons [] es cfs h =
        subst (AreCoupons double freq notional rate rule opts [] es) (ok-injective h) no_periods
    make_cashflows-AreCoupons (s ∷ ss) [] cfs h = absurd (ground arith)
    make_cashflows-AreCoupons (s ∷ ss) (e ∷ es) cfs h =
        let (cf, made, h') =
          chain_ok
            (make_cashflow double (generate_day_counter rule) freq notional rate rule opts s e) _
            cfs h in
        let (rest, others, h'') =
          chain_ok
            (make_cashflows double (generate_day_counter rule) freq notional rate rule opts ss es) _
            cfs h' in
        subst (AreCoupons double freq notional rate rule opts (s ∷ ss) (e ∷ es)) (ok-injective h'')
          (one_more (make_cashflow-IsCoupon double freq notional rate rule opts s e cf made)
            (make_cashflows-AreCoupons ss es rest others))

  principal_of-IsRepayment :
      (notional : Number) (last : CashflowStruct Number)
      → IsRepayment double notional last (principal_of double notional last)
  principal_of-IsRepayment notional last = record {
    period_start = refl;
    period_end = refl;
    starts = refl;
    ends = refl;
    fixed_on = refl;
    paid = refl;
    on_notional = refl;
    at_one = refl;
    amount = refl;
    same_npv = refl;
    counted = refl;
    part = refl;
    in_currency = refl;
    of_type = refl;
  }

  add_principal-IsRepaid :
      (notional : Number) (cfs all : List (CashflowStruct Number))
      → add_principal double notional cfs ≡ ok all
      → IsRepaid double notional cfs all
  unfolding add_principal
  add_principal-IsRepaid notional [] all h = absurd (ground arith)
  add_principal-IsRepaid notional (cf ∷ []) all h =
      subst (IsRepaid double notional (cf ∷ [])) (ok-injective h)
        (repaid cf _ (principal_of-IsRepayment notional cf))
  add_principal-IsRepaid notional (cf ∷ next ∷ cfs) all h =
      let (rest, e, h') = chain_ok (add_principal double notional (next ∷ cfs)) _ all h in
      subst (IsRepaid double notional (cf ∷ next ∷ cfs)) (ok-injective h')
        (before cf (add_principal-IsRepaid notional (next ∷ cfs) rest e))

  module _ (start_date mat_date : Date) (freq : Tenor) (notional rate : Number)
      (rule : DayCountRule) (opts : Options) where
    -- The cash flows that are returned are a coupon for each of the periods, and the repayment of the
    -- notional amount behind them; the start is not after maturity.
    pub create_fixed_cashflows-AreCoupons :
        (all : List (CashflowStruct Number))
        → create_fixed_cashflows double start_date mat_date freq notional rate rule opts ≡ ok all
        → (dates : Schedule) × (cfs : List (CashflowStruct Number)) × (period_dates start_date
              mat_date freq opts
            ≡ ok dates)
          × AreCoupons double freq notional rate rule opts dates.starts dates.ends cfs
          × IsRepaid double notional cfs all
          × (start_date.julian ≤ℤ mat_date.julian)
    unfolding create_fixed_cashflows
    create_fixed_cashflows-AreCoupons all h =
        let (in_order, on_dates) =
          guard_ok (date_lt mat_date start_date) invalid_argument _ all h in
        let (dates, made_dates, on_coupons) =
          chain_ok (period_dates start_date mat_date freq opts) _ all on_dates in
        let (cfs, made, added) =
          chain_ok
            (make_cashflows double (generate_day_counter rule) freq notional rate rule opts
              dates.starts dates.ends)
            _ all on_coupons in
        (
          dates,
          cfs,
          made_dates,
          make_cashflows-AreCoupons freq notional rate rule opts dates.starts dates.ends cfs made,
          add_principal-IsRepaid notional cfs all added,
          not_after mat_date start_date in_order,
        )

    -- Without stubs, a bond that starts on its maturity date has no period, and the repayment is
    -- copied from a vector that is empty.
    pub create_fixed_cashflows-same_day :
        opts.front_stub_type ≡ no_stub
        → opts.back_stub_type ≡ no_stub
        → start_date.julian ≡ mat_date.julian
        → create_fixed_cashflows double start_date mat_date freq notional rate rule opts
          ≡ err undefined
    unfolding create_fixed_cashflows make_cashflows add_principal
    create_fixed_cashflows-same_day front back same =
        let in_order : date_lt mat_date start_date ≡ false =
          same_day_lt mat_date start_date (sym same) in
        rw (in_order, period_dates-same_day start_date mat_date freq opts front back same) refl
