-- ===== src/DerivedTime/CashflowGen.antt =====
-- src/derived_time/cashflow_gen: the schedule of the periods of a bond, and its fixed cash flows.
pub mod Dates
pub mod Setters
pub mod Backward
pub mod Coupon
use odin_analytics.Prelude.{
  ℕ, zero, suc, Bool, true, false, not, ◌||◌, if◌then◌else◌, List, [], ◌∷◌, reverse, Result, ok,
  err, ◌>>=◌, stuck, undefined, invalid_argument,
}
use odin_analytics.Prelude.Int.{ℤ, pos, ◌+ℤ◌, ◌-ℤ◌, neg_ℤ, pos_part}
use odin_analytics.Time.Tenor.{Tenor, tenor}
use odin_analytics.Time.Date.{Date, default_date, add_tenor, value_or, date_lt}
use odin_analytics.DerivedTime.Enums.{
  Currency, usd, CashflowType, fixed, DateDirection, forward, backward, StubType, no_stub,
  short_first, short_last, long_first, long_last, ResetDirection, advance, CalcType, flat,
}
use odin_analytics.DerivedTime.Formula.{BusinessDateFormula, no_adjustment}

-- `CashflowGen::Options`. Its setters update one field each.
pub record Options : Type 0 where
  pub calc_type : CalcType
  pub currency : Currency
  pub date_direction : DateDirection
  pub cashflow_type : CashflowType
  pub reset_direction : ResetDirection
  pub front_stub_type : StubType
  pub front_stub_date : Date
  pub back_stub_type : StubType
  pub back_stub_date : Date
  pub start_adjustment : BusinessDateFormula
  pub end_adjustment : BusinessDateFormula
  pub pay_adjustment : BusinessDateFormula
  pub fix_adjustment : BusinessDateFormula

abbrev pub default_options : Options
default_options = record {
  calc_type = flat;
  currency = usd;
  date_direction = backward;
  cashflow_type = fixed;
  reset_direction = advance;
  front_stub_type = no_stub;
  front_stub_date = default_date;
  back_stub_type = no_stub;
  back_stub_date = default_date;
  start_adjustment = no_adjustment;
  end_adjustment = no_adjustment;
  pay_adjustment = no_adjustment;
  fix_adjustment = no_adjustment;
}

-- The two vectors of unadjusted dates, which grow and shrink together.
pub record Schedule : Type 0 where
  pub starts : List Date
  pub ends : List Date

abbrev pub schedule : List Date → List Date → Schedule
schedule ss es = record { starts = ss; ends = es }

abbrev pub put_first : Date → Date → Schedule → Schedule
put_first s e rest = schedule (s ∷ rest.starts) (e ∷ rest.ends)

-- The loop of the forward direction from `curr_start_date` on, on fuel. The inner test repeats the
-- loop's.
unfoldable pub forward_dates : ℕ → Date → Date → Tenor → Date → ℤ → Result Schedule
forward_dates zero start_date mat_date freq curr_start_date total_length = err stuck
forward_dates (suc fuel) start_date mat_date freq curr_start_date total_length =
    elim (date_lt curr_start_date mat_date) [
      | true ↦ add_tenor curr_start_date freq >>= λ end_date.
          add_tenor start_date (tenor total_length freq.unit) >>= λ next.
          forward_dates fuel start_date mat_date freq next (total_length +ℤ freq.count) >>= λ rest.
          ok (put_first curr_start_date end_date rest)
      | false ↦ ok (schedule [] [])
    ]

-- The loop of the backward direction from `curr_end_date` on, on fuel.
unfoldable pub backward_dates : ℕ → Date → Date → Tenor → Date → ℤ → Result Schedule
backward_dates zero start_date mat_date freq curr_end_date total_length = err stuck
backward_dates (suc fuel) start_date mat_date freq curr_end_date total_length =
    elim (date_lt start_date curr_end_date) [
      | true ↦ add_tenor curr_end_date (tenor (neg_ℤ freq.count) freq.unit) >>= λ begin_date.
          add_tenor mat_date (tenor total_length freq.unit) >>= λ next.
          backward_dates fuel start_date mat_date freq next (total_length -ℤ freq.count) >>= λ rest.
          ok (put_first begin_date curr_end_date rest)
      | false ↦ ok (schedule [] [])
    ]

-- Every round but the first moves at least one day on, if the tenor is positive.
abbrev pub schedule_fuel : Date → Date → ℕ
schedule_fuel start_date mat_date = suc (pos_part (mat_date.julian -ℤ start_date.julian))

-- The branch of `CreateFixedCashflows` on the direction.
unfoldable pub unadjusted_dates : DateDirection → Date → Date → Tenor → Result Schedule
unadjusted_dates forward start_date mat_date freq =
    forward_dates (schedule_fuel start_date mat_date) start_date mat_date freq start_date freq.count
unadjusted_dates backward start_date mat_date freq =
    backward_dates (schedule_fuel start_date mat_date) start_date mat_date freq mat_date
      (neg_ℤ freq.count)
    >>= λ dates. ok (schedule (reverse dates.starts) (reverse dates.ends))

-- `front() = date`, and `back() = date` and `pop_back()`: undefined on an empty vector.
unfoldable pub set_front : Date → List Date → Result (List Date)
set_front date [] = err undefined
set_front date (d ∷ ds) = ok (date ∷ ds)

unfoldable pub set_back : Date → List Date → Result (List Date)
set_back date [] = err undefined
set_back date (d ∷ []) = ok (date ∷ [])
set_back date (d ∷ e ∷ ds) = set_back date (e ∷ ds) >>= λ rest. ok (d ∷ rest)

unfoldable pub erase_front : List Date → Result (List Date)
erase_front [] = err undefined
erase_front (d ∷ ds) = ok ds

unfoldable pub pop_back : List Date → Result (List Date)
pop_back [] = err undefined
pop_back (d ∷ []) = ok []
pop_back (d ∷ e ∷ ds) = pop_back (e ∷ ds) >>= λ rest. ok (d ∷ rest)

set_first_start : Date → Options → Schedule → Result Schedule
set_first_start start_date opts dates =
    set_front (value_or opts.front_stub_date start_date) dates.starts >>= λ starts.
    ok (schedule starts dates.ends)

set_last_end : Date → Options → Schedule → Result Schedule
set_last_end mat_date opts dates =
    set_back (value_or opts.back_stub_date mat_date) dates.ends >>= λ ends.
    ok (schedule dates.starts ends)

-- The inner `switch` for backward dates, where the long stub falls through to the short one.
unfoldable pub front_stub : StubType → Date → Options → Schedule → Result Schedule
unfolding set_first_start
front_stub long_first start_date opts dates = erase_front dates.starts >>= λ starts.
    erase_front dates.ends >>= λ ends. set_first_start start_date opts (schedule starts ends)
front_stub short_first start_date opts dates = set_first_start start_date opts dates
front_stub no_stub start_date opts dates = ok dates
front_stub short_last start_date opts dates = ok dates
front_stub long_last start_date opts dates = ok dates

-- The inner `switch` for forward dates.
unfoldable pub back_stub : StubType → Date → Options → Schedule → Result Schedule
unfolding set_last_end
back_stub long_last mat_date opts dates = pop_back dates.ends >>= λ ends.
    pop_back dates.starts >>= λ starts. set_last_end mat_date opts (schedule starts ends)
back_stub short_last mat_date opts dates = set_last_end mat_date opts dates
back_stub no_stub mat_date opts dates = ok dates
back_stub short_first mat_date opts dates = ok dates
back_stub long_first mat_date opts dates = ok dates

unfoldable pub is_stub : StubType → Bool
is_stub no_stub = false
is_stub short_first = true
is_stub short_last = true
is_stub long_first = true
is_stub long_last = true

stub_switch : DateDirection → Date → Date → Options → Schedule → Result Schedule
stub_switch backward start_date mat_date opts dates =
    front_stub opts.front_stub_type start_date opts dates
stub_switch forward start_date mat_date opts dates =
    back_stub opts.back_stub_type mat_date opts dates

unfoldable pub stub_date_adjustments : Date → Date → Options → Schedule → Result Schedule
unfolding stub_switch
stub_date_adjustments start_date mat_date opts dates =
    stub_switch opts.date_direction start_date mat_date opts dates

-- The dates of the periods, before their adjustment to business days.
unfoldable pub period_dates : Date → Date → Tenor → Options → Result Schedule
period_dates start_date mat_date freq opts =
    unadjusted_dates opts.date_direction start_date mat_date freq >>= λ dates.
    if is_stub opts.front_stub_type || is_stub opts.back_stub_type
    then stub_date_adjustments start_date mat_date opts dates
    else ok dates
