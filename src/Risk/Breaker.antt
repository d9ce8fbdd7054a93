-- ===== src/Risk/Breaker.antt =====
-- `CircuitBreakerEngine` of forex_platform/risk_engine/circuit_breakers.py. A halt reason is kept
-- as the event with its percentage; the text around it is not modelled.
pub mod Status
use forex_platform.Decimal
use forex_platform.Decimal.{Decimal, decimal}
use forex_platform.Domain.Pair.{zero_decimal}
use forex_platform.Time.{DateTime, assume_utc, date}
use forex_platform.Prelude.{
  ℕ, ltb, if◌then◌else◌, Bool, true, false, ◌||◌, Option, none, some, pos, negsuc, Text, Result, ok,
  err,
}

pub data HaltReason : Type 0 where
  hwm_drawdown daily_drawdown : Decimal → HaltReason
  external : Text → HaltReason

pub record CircuitBreaker : Type 0 where
  pub initial_equity : Decimal
  pub current_equity : Decimal
  pub daily_open_equity : Decimal
  pub high_water_mark : Decimal
  pub current_trading_date : ℕ
  pub daily_halted : Bool
  pub safe_mode : Bool
  pub halt_reason : Option HaltReason

pub record CircuitBreakerStatus : Type 0 where
  pub current_equity : Decimal
  pub daily_open_equity : Decimal
  pub high_water_mark : Decimal
  pub daily_pnl_pct : Decimal
  pub hwm_drawdown_pct : Decimal
  pub sizing_multiplier : Decimal
  pub is_dampened : Bool
  pub is_daily_halted : Bool
  pub is_safe_mode : Bool
  pub reason : Option HaltReason

abbrev pub daily_dampener_threshold : Decimal
daily_dampener_threshold = decimal (negsuc 1) 2

abbrev pub daily_halt_threshold : Decimal
daily_halt_threshold = decimal (negsuc 3) 2

abbrev pub hwm_safe_mode_threshold : Decimal
hwm_safe_mode_threshold = decimal (negsuc 9) 2

-- `__init__`; `today` is the date at which the engine is made.
unfoldable pub new : Decimal → ℕ → CircuitBreaker
new equity today = record {
  initial_equity = equity;
  current_equity = equity;
  daily_open_equity = equity;
  high_water_mark = equity;
  current_trading_date = today;
  daily_halted = false;
  safe_mode = false;
  halt_reason = none;
}

-- The day boundary: a new date opens the day at the present equity and lifts the daily halt.
unfoldable pub roll_day : CircuitBreaker → Decimal → ℕ → CircuitBreaker
roll_day s equity today =
    if ltb s.current_trading_date today
    then record s {
      current_trading_date = today;
      daily_open_equity = equity;
      daily_halted = false;
      halt_reason = none;
    }
    else s

-- The present equity, and the high-water mark raised to it.
unfoldable pub mark : CircuitBreaker → Decimal → CircuitBreaker
mark s equity = record s {
  current_equity = equity;
  high_water_mark = if Decimal.lt s.high_water_mark equity then equity else s.high_water_mark;
}

-- (equity - base) / base, or 0.0 of a base that is not positive
unfoldable pub change_pct : Decimal → Decimal → Result Decimal
change_pct equity base =
    if Decimal.lt (decimal (pos 0) 0) base
    then Decimal.div (Decimal.sub equity base) base
    else ok zero_decimal

-- Rule 1, the stop at the high-water mark.
unfoldable pub trip_safe_mode : CircuitBreaker → Decimal → CircuitBreaker
trip_safe_mode s drawdown =
    if Decimal.le drawdown hwm_safe_mode_threshold
    then record s { safe_mode = true; halt_reason = some (hwm_drawdown drawdown) }
    else s

-- Rule 2, the daily halt.
unfoldable pub trip_daily_halt : CircuitBreaker → Decimal → CircuitBreaker
trip_daily_halt s pnl =
    if Decimal.le pnl daily_halt_threshold
    then record s {
      daily_halted = true;
      halt_reason = if s.safe_mode then s.halt_reason else some (daily_drawdown pnl);
    }
    else s

abbrev sizing_of : Bool → Decimal → Decimal × Bool
sizing_of halted pnl =
    if halted
    then (decimal (pos 0) 1, false)
    else if Decimal.le pnl daily_dampener_threshold
    then (decimal (pos 50) 2, true)
    else (decimal (pos 100) 2, false)

-- Rule 3, and the snapshot.
unfoldable pub status_of : CircuitBreaker → Decimal → Decimal → CircuitBreakerStatus
status_of s pnl drawdown =
    let (sizing, dampened) = sizing_of (s.safe_mode || s.daily_halted) pnl in
    record {
      current_equity = s.current_equity;
      daily_open_equity = s.daily_open_equity;
      high_water_mark = s.high_water_mark;
      daily_pnl_pct = pnl;
      hwm_drawdown_pct = drawdown;
      sizing_multiplier = sizing;
      is_dampened = dampened;
      is_daily_halted = s.daily_halted;
      is_safe_mode = s.safe_mode;
      reason = s.halt_reason;
    }

-- The rules at the two percentages.
unfoldable pub evaluate :
    CircuitBreaker → Decimal → Decimal → Result CircuitBreakerStatus × CircuitBreaker
unfolding trip_safe_mode trip_daily_halt status_of
evaluate s pnl drawdown =
    let tripped = trip_daily_halt (trip_safe_mode s drawdown) pnl in
    (ok (status_of tripped pnl drawdown), tripped)

-- `timestamp.date()` is that of the timestamp's own zone: an aware value is not converted.
unfoldable pub update_equity :
    Decimal → DateTime → CircuitBreaker → Result CircuitBreakerStatus × CircuitBreaker
unfolding roll_day mark evaluate
update_equity equity timestamp s =
    let marked = mark (roll_day s equity (date (assume_utc timestamp))) equity in
    elim (change_pct equity marked.daily_open_equity) [
      | err e ↦ (err e, marked)
      | ok pnl ↦ elim (change_pct equity marked.high_water_mark) [
        | err e ↦ (err e, marked)
        | ok drawdown ↦ evaluate marked pnl drawdown
      ]
    ]

unfoldable pub reset_safe_mode : Decimal → CircuitBreaker → CircuitBreaker
reset_safe_mode equity s = record s {
  current_equity = equity;
  daily_open_equity = equity;
  high_water_mark = equity;
  safe_mode = false;
  daily_halted = false;
  halt_reason = none;
}
