-- ===== src/Tests/Costs.antt =====
-- Examples for forex_platform/costs/.
use forex_platform.Costs.{SpreadModel, default_base_spreads, get_spread_multiplier}
use forex_platform.Costs.Regimes.{IsSessional, get_spread_multiplier-IsSessional}
use forex_platform.Decimal.{Decimal, decimal}
use forex_platform.Prelude.{true, false, pos, ok, err, market_closed_error, ◌≡◌, ◌⊎◌}
use forex_platform.Sessions.{is_weekend, is_rollover}
use forex_platform.Tests.Data.{noon}

abbrev spreads : SpreadModel
spreads = record {
  base_spreads = default_base_spreads;
  asian_multiplier = decimal (pos 35) 1;
  rollover_multiplier = decimal (pos 150) 1;
}

get_spread_multiplier-IsSessional_example :
    ((is_weekend noon ≡ true) × (get_spread_multiplier noon spreads ≡ err market_closed_error))
    ⊎ ((is_weekend noon ≡ false)
        × (is_rollover noon ≡ true)
        × (get_spread_multiplier noon spreads ≡ ok spreads.rollover_multiplier))
    ⊎ ((is_weekend noon ≡ false)
        × (is_rollover noon ≡ false)
        × ((x : Decimal) × (get_spread_multiplier noon spreads ≡ ok x) × IsSessional x spreads))
get_spread_multiplier-IsSessional_example = get_spread_multiplier-IsSessional noon spreads
