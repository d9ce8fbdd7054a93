-- ===== src/Tests/Targets.antt =====
-- Examples for forex_platform/core/instruments.py and forex_platform/portfolio_engine/target_allocator.py.
use forex_platform.Domain.Pair.{pair_of_code, CurrencyPair, from_symbol}
use forex_platform.Domain.Lots.{from_units}
use forex_platform.Portfolio.Targets.Ledger.{IsTraded, net_of}
use forex_platform.Prelude.{
  Dict, ℤ, none, true, ◌-ℤ◌, ok, is_member, text_eq, remove_char, lookup, insert, to_upper, upper,
  is_space, lstrip, negsuc, All, ◌≡◌, strip, clean_symbol, max, pos, ◌+ℤ◌, List, ℤ, ◌∷◌, false,
  Result, ◌≤◌, [], catch, Text, codes, Dict,
}
use forex_platform.Domain.Instruments.{
  spec_of_code, normalize, is_supported, InstrumentSpec, get, pair_of_spec,
}
use forex_platform.Domain.Instruments.Agreement.{Agrees, get-from_symbol}
use forex_platform.Portfolio.Targets.{
  regime_eq, is_allowed, target_intent, accept_delta, limit_delta, allocate_target,
  allocate_targets, Allocator, AllocationDecision, TargetPosition, MarketRegime, allocate, gross,
  normalize_units, units_of,
}
use forex_platform.Portfolio.Targets.Bounds.{IsBounded, allocate_bounds}
use forex_platform.Portfolio.Targets.Reach.{wanted, allocate_reaches}
use forex_platform.Decimal
use forex_platform.Prelude.{refl, catch}
use forex_platform.Tests.Data.{noon}

abbrev euro : InstrumentSpec
euro = catch (get (codes " eur/usd ")) (λ e. spec_of_code [])

euro_listed : get (codes " eur/usd ") ≡ ok euro
unfolding get is_supported normalize clean_symbol strip lstrip is_space upper to_upper remove_char
    text_eq is_member
euro_listed = refl

get-from_symbol_example :
    (p : CurrencyPair) × (from_symbol (codes " eur/usd ") none ≡ ok p)
    × (pair_of_spec euro ≡ ok p)
    × Agrees p euro
get-from_symbol_example = get-from_symbol (codes " eur/usd ") euro euro_listed

abbrev target_of : Text → ℤ → TargetPosition
target_of symbol units = record { symbol = symbol; target_units = units; strategy_id = codes "S1" }

abbrev allocator : Allocator
allocator = record {
  max_gross_units = 100000;
  max_symbol_units = 50000;
  max_currency_delta_units = 60000;
  allowed_regimes = MarketRegime.trending ∷ [];
}

abbrev held : Dict ℤ
held = (codes "EUR/USD", pos 10000) ∷ []

abbrev targets : List TargetPosition
targets = target_of (codes "EURUSD") (pos 40000) ∷ target_of (codes "EURGBP") (negsuc 19999) ∷ []

abbrev allocation : Result AllocationDecision
allocation = allocate allocator targets held MarketRegime.trending noon

abbrev rejection : AllocationDecision
rejection = record {
  approved = false;
  intents = [];
  rejected = [];
  regime = MarketRegime.trending;
  gross_units = 0;
}

abbrev decision : AllocationDecision
decision = catch allocation (λ e. rejection)

made : allocation ≡ ok decision
unfolding allocate allocate_targets allocate_target limit_delta accept_delta target_intent
    is_allowed regime_eq is_supported normalize normalize_units units_of gross insert lookup
    clean_symbol strip lstrip is_space upper to_upper remove_char text_eq is_member ◌+ℤ◌ ◌-ℤ◌
    from_units Decimal.div Decimal.quantize from_symbol pair_of_code
made = refl

passed : decision.approved ≡ true
unfolding allocate allocate_targets allocate_target limit_delta accept_delta target_intent
    is_allowed regime_eq is_supported normalize normalize_units units_of gross insert lookup
    clean_symbol strip lstrip is_space upper to_upper remove_char text_eq is_member ◌+ℤ◌ ◌-ℤ◌
    from_units Decimal.div Decimal.quantize from_symbol pair_of_code
passed = refl

allocate_bounds_example :
    (decision.gross_units ≤ max 100000 (gross (normalize_units [] held)))
    × All (IsBounded allocator) decision.intents
    × ((projected : Dict ℤ) × IsTraded (normalize_units [] held) projected decision.intents
        × (gross projected ≤ max 100000 (gross (normalize_units [] held))))
allocate_bounds_example =
    allocate_bounds allocator targets held MarketRegime.trending noon decision made

allocate_reaches_example :
    units_of (codes "EURUSD") (normalize_units [] held) +ℤ net_of (codes "EURUSD") decision.intents
    ≡ wanted (codes "EURUSD") (units_of (codes "EURUSD") (normalize_units [] held)) targets
allocate_reaches_example =
    allocate_reaches allocator targets held MarketRegime.trending noon decision (codes "EURUSD")
      made passed
