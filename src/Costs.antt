-- ===== src/Costs.antt =====
-- forex_platform/costs/: `CommissionModel` of commission.py, `SwapEngine` of swap_engine.py and
-- `DynamicSpreadModel` of spread_model.py.
pub mod Regimes
use forex_platform.Decimal
use forex_platform.Decimal.{Decimal, decimal, of_int}
use forex_platform.Domain.Kinds.{OrderSide, buy, sell}
use forex_platform.Domain.Lots.{LotSize, from_units, standard_lot_units}
use forex_platform.Domain.Pair.{CurrencyPair, to_price, round_price}
use forex_platform.Domain.Pips.{pip_value}
use forex_platform.Domain.Position.{Position, apply_swap}
use forex_platform.Sessions.{
  Regime, ensure_utc, is_weekend, is_rollover, get_session_state, overlap_london_ny, london_solo,
  new_york_solo, overlap_tokyo_london, asian_session, overlap_sydney_tokyo,
}
use forex_platform.Prelude.{
  ℕ, ◌==◌, if◌then◌else◌, Bool, true, false, not, ◌||◌, Option, none, some, List, [], ◌∷◌, ℤ, pos,
  leb_ℤ, Text, codes, remove_char, upper, clean_symbol, strip, Dict, lookup, insert, Result, ok,
  err, value_error, market_closed_error, ◌>>=◌,
}
use forex_platform.Time.{DateTime, weekday}

-- `CommissionModel`: the rates of a standard lot.
pub record CommissionModel : Type 0 where
  pub roundturn_per_standard_lot : Decimal
  pub half_turn_per_standard_lot : Decimal

unfoldable pub new_commissions : Decimal → Result CommissionModel
new_commissions roundturn = do
  half ← Decimal.div roundturn (of_int (pos 2))
  ok (record { roundturn_per_standard_lot = roundturn; half_turn_per_standard_lot = half })

unfoldable pub calculate_commission : CommissionModel → ℤ → Bool → Decimal → Result Decimal
calculate_commission m units is_roundturn rate =
    if leb_ℤ units (pos 0) then ok (decimal (pos 0) 2) else do
      lots ← Decimal.div (of_int units) (of_int standard_lot_units)
      let rate_per_lot =
          if is_roundturn then m.roundturn_per_standard_lot else m.half_turn_per_standard_lot
      Decimal.quantize (Decimal.mul (Decimal.mul lots rate_per_lot) rate) 4

-- Wednesday charges three days.
unfoldable pub get_swap_multiplier : DateTime → ℤ
get_swap_multiplier rollover_dt = if weekday (ensure_utc rollover_dt) == 2 then pos 3 else pos 1

abbrev pub swap_rate : OrderSide → Decimal → Decimal → Decimal
swap_rate buy long short = long
swap_rate sell long short = short

unfoldable pub calculate_swap :
    CurrencyPair → LotSize → OrderSide → DateTime → Decimal → Decimal → Decimal → Result Decimal
unfolding get_swap_multiplier
calculate_swap pair lots side rollover_dt long short rate =
    let total_pips =
      Decimal.mul (swap_rate side long short) (of_int (get_swap_multiplier rollover_dt)) in
    Decimal.quantize (Decimal.mul total_pips (pip_value pair lots rate)) 4

-- The amount that is applied, and the position after it.
unfoldable pub apply_rollover_to_position :
    Position → CurrencyPair → DateTime → Decimal → Decimal → Decimal → Result Decimal × Position
unfolding calculate_swap apply_swap
apply_rollover_to_position p pair rollover_dt long short rate =
    if not p.is_open || leb_ℤ p.units (pos 0)
    then (ok (decimal (pos 0) 4), p)
    else elim (from_units p.units standard_lot_units >>= λ lots.
        calculate_swap pair lots p.side rollover_dt long short rate) [
          | err e ↦ (err e, p)
          | ok amount ↦ (ok amount, apply_swap p amount)
        ]

-- `DynamicSpreadModel`
pub record SpreadModel : Type 0 where
  pub base_spreads : Dict Decimal
  pub asian_multiplier : Decimal
  pub rollover_multiplier : Decimal

abbrev pub default_base_spreads : Dict Decimal
default_base_spreads =
    (codes "EURUSD", decimal (pos 8) 1)
    ∷ (codes "GBPUSD", decimal (pos 10) 1)
    ∷ (codes "USDJPY", decimal (pos 9) 1)
    ∷ (codes "AUDUSD", decimal (pos 10) 1)
    ∷ (codes "USDCAD", decimal (pos 12) 1)
    ∷ (codes "USDCHF", decimal (pos 12) 1)
    ∷ (codes "EURGBP", decimal (pos 12) 1)
    ∷ (codes "EURJPY", decimal (pos 14) 1)
    ∷ (codes "GBPJPY", decimal (pos 18) 1)
    ∷ (codes "NZDUSD", decimal (pos 14) 1)
    ∷ []

-- The spreads of the caller, over the default ones. A dash stays in a key.
unfoldable pub merge_spreads : Dict Decimal → Dict Decimal → Dict Decimal
merge_spreads [] d = d
merge_spreads ((k, v) ∷ rest) d =
    merge_spreads rest (insert (remove_char 95 (remove_char 47 (upper k))) v d)

unfoldable pub new_spreads : Dict Decimal → Decimal → Decimal → SpreadModel
unfolding merge_spreads
new_spreads spreads asian rolling = record {
  base_spreads = merge_spreads spreads default_base_spreads;
  asian_multiplier = asian;
  rollover_multiplier = rolling;
}

abbrev spread_or_fallback : Option Decimal → Decimal
spread_or_fallback none = decimal (pos 15) 1
spread_or_fallback (some spread) = spread

-- The base spread of a pair by its symbol.
unfoldable pub get_base_spread : Text → SpreadModel → Decimal
get_base_spread symbol m = spread_or_fallback (lookup symbol m.base_spreads)

-- The base spread of a pair that is given as a text.
unfoldable pub base_spread_of_text : Text → SpreadModel → Decimal
unfolding get_base_spread
base_spread_of_text text m = get_base_spread (clean_symbol (strip text)) m

abbrev pub multiplier_london_ny_overlap : Decimal
multiplier_london_ny_overlap = decimal (pos 10) 1

abbrev pub multiplier_western_solo : Decimal
multiplier_western_solo = decimal (pos 13) 1

abbrev pub multiplier_quiet_hours : Decimal
multiplier_quiet_hours = decimal (pos 40) 1

abbrev pub regime_multiplier : Regime → SpreadModel → Decimal
regime_multiplier overlap_london_ny m = multiplier_london_ny_overlap
regime_multiplier london_solo m = multiplier_western_solo
regime_multiplier new_york_solo m = multiplier_western_solo
regime_multiplier overlap_tokyo_london m = multiplier_western_solo
regime_multiplier asian_session m = m.asian_multiplier
regime_multiplier overlap_sydney_tokyo m = m.asian_multiplier
regime_multiplier _ m = multiplier_quiet_hours

unfoldable pub get_spread_multiplier : DateTime → SpreadModel → Result Decimal
get_spread_multiplier dt m =
    if is_weekend dt
    then err market_closed_error
    else if is_rollover dt
    then ok m.rollover_multiplier
    else ok (regime_multiplier (get_session_state dt).regime_tag m)

abbrev base_or : Option Decimal → Decimal → Decimal
base_or none base = base
base_or (some custom) base = custom

unfoldable pub calculate_spread : Text → DateTime → Option Decimal → SpreadModel → Result Decimal
unfolding get_base_spread get_spread_multiplier
calculate_spread symbol dt custom m = do
  multiplier ← get_spread_multiplier dt m
  Decimal.quantize (Decimal.mul (base_or custom (get_base_spread symbol m)) multiplier) 2

unfoldable pub get_bid_ask :
    CurrencyPair → Decimal → DateTime → Option Decimal → SpreadModel → Result (Decimal × Decimal)
unfolding calculate_spread
get_bid_ask pair mid dt custom m = do
  spread ← calculate_spread pair.symbol dt custom m
  half ← Decimal.div (to_price pair spread) (of_int (pos 2))
  bid ← round_price pair (Decimal.sub mid half)
  ask ← round_price pair (Decimal.add mid half)
  ok (bid, ask)
