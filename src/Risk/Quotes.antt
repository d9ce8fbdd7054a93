-- ===== src/Risk/Quotes.antt =====
-- What `PreTradeRiskFirewall` of forex_platform/risk_engine/firewall.py reads and answers. A reason is kept as
-- a tag, and the `details` of a decision are not modelled. Differences of times are in microseconds.
use forex_platform.Decimal
use forex_platform.Decimal.{Decimal, decimal, of_int}
use forex_platform.Domain.Pair.{from_symbol, to_pips, one}
use forex_platform.Domain.Position.{Position}
use forex_platform.Portfolio.Governor.{Governor}
use forex_platform.Time.{DateTime}
use forex_platform.Prelude.{
  ℕ, Bool, false, Option, none, some, List, [], ◌∷◌, pos, Text, codes, Result, ok, ◌>>=◌,
}

pub record MarketTelemetry : Type 0 where
  pub symbol : Text
  pub bid : Decimal
  pub ask : Decimal
  pub quote_timestamp : DateTime
  pub recent_spreads_pips : List Decimal

-- Why a decision was made: the failures by tier, in the order of the code.
pub data RiskReason : Type 0 where
  approved_all : RiskReason
  unexpected_exception : RiskReason
  bad_lot_size invalid_symbol live_capital_locked bad_limit_price : RiskReason
  bad_stop_loss bad_take_profit : RiskReason
  kill_switch_active breaker_triggered : RiskReason
  missing_telemetry clock_drift stale_quote : RiskReason
  market_closed exposure_rejected : RiskReason
  rollover_blackout : RiskReason
  spread_above_limit spread_above_median : RiskReason
  margin_exceeded margin_passed : RiskReason
  no_credit_limit credit_exceeded credit_passed : RiskReason
  margin_failure position_size_exceeded : RiskReason

pub record RiskDecision : Type 0 where
  pub approved : Bool
  pub tier_failed : Option ℕ
  pub reason : RiskReason
  pub sizing_multiplier : Decimal

-- A refusal that leaves the default sizing multiplier, 1.0.
abbrev pub fail : ℕ → RiskReason → RiskDecision
fail tier why = record {
  approved = false;
  tier_failed = some tier;
  reason = why;
  sizing_multiplier = one;
}

-- A refusal with the multiplier 0.0.
abbrev pub fail_zero : ℕ → RiskReason → RiskDecision
fail_zero tier why = record (fail tier why) { sizing_multiplier = decimal (pos 0) 1 }

-- The firewall, but for the kill switch and the circuit breaker, which other components share.
-- `rounded_median` is `round(statistics.median(floats), 2)`, in binary floating point.
pub record Firewall : Type 0 where
  pub allow_live_capital : Bool
  pub exposure_governor : Governor
  pub account_equity : Decimal
  pub rounded_median : List Decimal → Decimal

-- The arguments of `evaluate_order` beside the intent.
pub record Request : Type 0 where
  pub current_time : DateTime
  pub telemetry : Option MarketTelemetry
  pub tenant_id : Option Text
  pub broker_id : Option Text
  pub strategy_id : Option Text
  pub is_carry_order : Bool
  pub open_positions : Option (List Position)
  pub account_equity : Option Decimal

abbrev pub max_clock_drift : ℕ
max_clock_drift = 200000

abbrev pub max_quote_age : ℕ
max_quote_age = 1000000

abbrev pub major_spread_limit : Decimal
major_spread_limit = decimal (pos 30) 1

abbrev pub relative_spread_multiplier : Decimal
relative_spread_multiplier = decimal (pos 25) 1

abbrev pub major_symbols : List Text
major_symbols =
    codes "EURUSD"
    ∷ codes "GBPUSD"
    ∷ codes "USDJPY"
    ∷ codes "AUDUSD"
    ∷ codes "USDCAD"
    ∷ codes "USDCHF"
    ∷ codes "NZDUSD"
    ∷ []

unfoldable pub spread_pips : MarketTelemetry → Result Decimal
spread_pips t = do pair ← from_symbol t.symbol none; to_pips pair (Decimal.sub t.ask t.bid)

unfoldable pub median_spread_pips : Firewall → MarketTelemetry → Result Decimal
unfolding spread_pips
median_spread_pips f t = elim t.recent_spreads_pips [
  | [] ↦ spread_pips t
  | s ∷ ss ↦ ok (f.rounded_median (s ∷ ss))
]
