-- ===== src/Fractal/States.antt =====
-- What the components of forex_platform/fractal_engine/ read of a `CanonicalTimeframeState` of
-- state_engine.py, with the types of forex_platform/market_model/contracts.py that it holds. Timestamps are
-- instants. Zones, swings, breaks, ranges other than the selected one, and sessions are left out.
use forex_platform.Decimal.{Decimal}
use forex_platform.Fractal.Ladder.{CanonicalTimeframe, month, week, day, h4, h1, m15, m3}
use forex_platform.Prelude.{
  ℕ, ◌==◌, Bool, true, false, Option, none, some, List, ℤ, pos, eqb_ℤ, Text, codes, negsuc,
}

pub data MarketPhase : Type 0 where
  pullback continuation : MarketPhase

pub data SwingType : Type 0 where
  high low : SwingType

unfoldable pub swing_eq : SwingType → SwingType → Bool
swing_eq high high = true
swing_eq low low = true
swing_eq _ _ = false

-- `LocationState`
pub data Location : Type 0 where
  premium equilibrium discount unknown ambiguous : Location

pub record StructuralRange : Type 0 where
  pub low : Decimal
  pub high : Decimal
  pub low_swing_index : ℕ
  pub high_swing_index : ℕ
  pub low_timestamp : ℕ
  pub high_timestamp : ℕ

pub record KeyLevel : Type 0 where
  pub swing_type : SwingType
  pub price : Decimal
  pub pivot_timestamp : ℕ
  pub available_at : ℕ
  pub weak : Bool
  pub protected : Bool

-- The labels of `transition`.
pub data Transition : Type 0 where
  state_start persistence structural_transition phase_transition : Transition
  location_migration zone_migration range_transition : Transition

pub record CanonicalTimeframeState : Type 0 where
  pub state_id : Text
  pub symbol : Text
  pub timeframe : CanonicalTimeframe
  pub timestamp : ℕ
  pub current_price : Decimal
  pub structural_trend : Option ℤ
  pub swing_state : Text
  pub phase : MarketPhase
  pub location : Location
  pub structural_range : Option StructuralRange
  pub key_levels : List KeyLevel
  pub invalidation_condition : Option Text
  pub state_signature : Text
  pub transition : List Transition

unfoldable pub timeframe_eq : CanonicalTimeframe → CanonicalTimeframe → Bool
timeframe_eq month month = true
timeframe_eq week week = true
timeframe_eq day day = true
timeframe_eq h4 h4 = true
timeframe_eq h1 h1 = true
timeframe_eq m15 m15 = true
timeframe_eq m3 m3 = true
timeframe_eq _ _ = false

-- The value of the enumeration.
abbrev pub timeframe_value : CanonicalTimeframe → Text
timeframe_value month = codes "1M"
timeframe_value week = codes "1W"
timeframe_value day = codes "1D"
timeframe_value h4 = codes "4H"
timeframe_value h1 = codes "1H"
timeframe_value m15 = codes "15M"
timeframe_value m3 = codes "3M"

-- `state.structural_trend or 0`
abbrev pub trend_or_zero : Option ℤ → ℤ
trend_or_zero none = pos 0
trend_or_zero (some t) = t

-- `trend in (-1, 1)`
abbrev pub is_direction : ℤ → Bool
is_direction (pos n) = n == 1
is_direction (negsuc n) = n == 0

-- Equality of optional integers.
unfoldable pub opt_eq : Option ℤ → Option ℤ → Bool
opt_eq none none = true
opt_eq (some a) (some b) = eqb_ℤ a b
opt_eq _ _ = false
