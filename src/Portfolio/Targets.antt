-- ===== src/Portfolio/Targets.antt =====
-- `TargetPositionAllocator` of forex_platform/portfolio_engine/target_allocator.py. The time of the
-- intents, `timestamp or datetime.now()`, is an argument, and the unused confidence is left out.
pub mod Steps
pub mod Ledger
pub mod Bounds
pub mod Reach
use forex_platform.Domain.Instruments.{normalize, is_supported, symbols_for_currency}
use forex_platform.Domain.Kinds.{OrderSide, buy, sell, OrderType, UrgencyLevel}
use forex_platform.Domain.Lots.{LotSize, from_units, standard_lot_units}
use forex_platform.Domain.Orders.{OrderIntent}
use forex_platform.Domain.Pair.{CurrencyPair, from_symbol}
use forex_platform.Prelude.{
  ℕ, ◌+◌, ltb, ◌==◌, if◌then◌else◌, Bool, true, false, not, ◌&&◌, ◌||◌, Option, none, some, List,
  [], ◌∷◌, ◌++◌, take, drop, ℤ, pos, ◌+ℤ◌, ◌-ℤ◌, ltb_ℤ, abs_ℕ, Text, codes, text_eq, text_lt, upper,
  Dict, lookup, insert, Result, ok, err, ◌>>=◌,
}
use forex_platform.Time.{DateTime}

-- `MarketRegime` of forex_platform/portfolio_engine/regime.py.
pub data MarketRegime : Type 0 where
  trending ranging high_volatility low_volatility unknown : MarketRegime

unfoldable pub regime_eq : MarketRegime → MarketRegime → Bool
regime_eq trending trending = true
regime_eq ranging ranging = true
regime_eq high_volatility high_volatility = true
regime_eq low_volatility low_volatility = true
regime_eq unknown unknown = true
regime_eq _ _ = false

unfoldable pub is_allowed : MarketRegime → List MarketRegime → Bool
unfolding regime_eq
is_allowed r [] = false
is_allowed r (s ∷ ss) = regime_eq r s || is_allowed r ss

pub record TargetPosition : Type 0 where
  pub symbol : Text
  pub target_units : ℤ
  pub strategy_id : Text

pub record AllocationDecision : Type 0 where
  pub approved : Bool
  pub intents : List OrderIntent
  pub rejected : List Text
  pub regime : MarketRegime
  pub gross_units : ℕ

pub record Allocator : Type 0 where
  pub max_gross_units : ℕ
  pub max_symbol_units : ℕ
  pub max_currency_delta_units : ℕ
  pub allowed_regimes : List MarketRegime

abbrev pub units_or_zero : Option ℤ → ℤ
units_or_zero none = pos 0
units_or_zero (some n) = n

-- `projected.get(symbol, 0)`
unfoldable pub units_of : Text → Dict ℤ → ℤ
units_of symbol projected = units_or_zero (lookup symbol projected)

-- `sum(abs(value) for value in projected.values())`
unfoldable pub gross : Dict ℤ → ℕ
gross [] = 0
gross ((symbol, n) ∷ rest) = abs_ℕ n + gross rest

-- The units under their normalized symbols: the last of equal ones stays.
unfoldable pub normalize_units : Dict ℤ → Dict ℤ → Dict ℤ
normalize_units made [] = made
normalize_units made ((symbol, n) ∷ rest) = normalize_units (insert (normalize symbol) n made) rest

-- What the loop over the targets changes.
pub record Progress : Type 0 where
  pub projected : Dict ℤ
  pub intents : List OrderIntent
  pub rejected : List Text

unfoldable pub reject : Text → Text → Progress → Progress
reject why symbol s = record s { rejected = s.rejected ++ (why ++ symbol) ∷ [] }

abbrev usd : Text
usd = codes "USD"

-- The side and the size of a delta that is not zero.
abbrev pub side_of : ℤ → OrderSide
side_of delta = if ltb_ℤ (pos 0) delta then buy else sell

unfoldable pub target_intent : TargetPosition → Text → ℤ → DateTime → LotSize → OrderIntent
target_intent target symbol delta timestamp lots = record {
  intent_id = codes "TARGET-" ++ (target.strategy_id ++ (codes "-" ++ symbol));
  symbol = symbol;
  side = side_of delta;
  order_type = OrderType.market;
  lot_size = lots;
  limit_price = none;
  stop_loss = none;
  take_profit = none;
  urgency = UrgencyLevel.medium;
  timestamp = timestamp;
  client_tag = some (codes "TARGET:" ++ target.strategy_id);
}

-- The intent of a delta that is within the limits, and the units that it leads to.
unfoldable pub accept_delta : TargetPosition → Text → ℤ → DateTime → Progress → Result Progress
unfolding target_intent units_of
accept_delta target symbol delta timestamp s =
    from_units (pos (abs_ℕ delta)) standard_lot_units >>= λ lots. ok (record s {
      intents = s.intents ++ target_intent target symbol delta timestamp lots ∷ [];
      projected = insert symbol (units_of symbol s.projected +ℤ delta) s.projected;
    })

-- The limits, in the order in which they are tested.
unfoldable pub limit_delta :
    Allocator → TargetPosition → Text → CurrencyPair → ℤ → DateTime → Progress → Result Progress
unfolding accept_delta reject gross
limit_delta a target symbol pair delta timestamp s =
    if ltb a.max_symbol_units (abs_ℕ (units_of symbol s.projected +ℤ delta))
    then ok (reject (codes "symbol_cap:") symbol s)
    else if ltb a.max_gross_units (gross s.projected + abs_ℕ delta)
    then ok (reject (codes "gross_cap:") symbol s)
    else if (text_eq pair.base_currency usd || text_eq pair.quote_currency usd)
        && ltb a.max_currency_delta_units (abs_ℕ delta)
    then ok (reject (codes "currency_cap:") symbol s)
    else accept_delta target symbol delta timestamp s

-- One target.
unfoldable pub allocate_target : Allocator → TargetPosition → DateTime → Progress → Result Progress
unfolding limit_delta
allocate_target a target timestamp s =
    let symbol = normalize target.symbol in
    let delta = target.target_units -ℤ units_of symbol s.projected in
    if not (is_supported symbol)
    then ok (reject (codes "unsupported:") target.symbol s)
    else (from_symbol symbol none >>= λ pair.
        if abs_ℕ delta == 0 then ok s else limit_delta a target symbol pair delta timestamp s)

unfoldable pub allocate_targets :
    Allocator → List TargetPosition → DateTime → Progress → Result Progress
unfolding allocate_target
allocate_targets a [] timestamp s = ok s
allocate_targets a (target ∷ targets) timestamp s =
    allocate_target a target timestamp s >>= allocate_targets a targets timestamp

abbrev is_nil : List Text → Bool
is_nil [] = true
is_nil (t ∷ ts) = false

unfoldable pub allocate :
    Allocator → List TargetPosition → Dict ℤ → MarketRegime → DateTime → Result AllocationDecision
unfolding is_allowed allocate_targets normalize_units
allocate a targets current regime timestamp =
    if not (is_allowed regime a.allowed_regimes)
    then ok (record {
      approved = false;
      intents = [];
      rejected = codes "regime" ∷ [];
      regime = regime;
      gross_units = 0;
    })
    else (allocate_targets a targets timestamp
          (record { projected = normalize_units [] current; intents = []; rejected = [] })
        >>= λ s. ok (record {
          approved = is_nil s.rejected;
          intents = s.intents;
          rejected = s.rejected;
          regime = regime;
          gross_units = gross s.projected;
        }))

-- The symbols of which one leg is the hedge currency.
unfoldable pub hedge_candidates : Text → List Text → List Text
hedge_candidates hedge [] = []
hedge_candidates hedge (s ∷ ss) =
    let more = hedge_candidates hedge ss in
    if text_eq hedge (take 3 s) || text_eq hedge (drop 3 s) then s ∷ more else more

-- The first of the sorted candidates: every base currency has three letters.
unfoldable pub least_text : Text → List Text → Text
least_text s [] = s
least_text s (t ∷ ts) = if text_lt t s then least_text t ts else least_text s ts

unfoldable pub hedge_side : CurrencyPair → Text → ℤ → OrderSide
hedge_side pair code delta =
    if text_eq pair.base_currency code
    then (if ltb_ℤ (pos 0) delta then sell else buy)
    else (if ltb_ℤ (pos 0) delta then buy else sell)

unfoldable pub hedge_intent : Text → Text → Text → ℤ → Text → DateTime → Result (Option OrderIntent)
unfolding hedge_side
hedge_intent symbol code hedge delta strategy_id timestamp = from_symbol symbol none >>= λ pair.
    from_units (pos (abs_ℕ delta)) standard_lot_units >>= λ lots. ok (
      some (record {
        intent_id =
            codes "HEDGE-" ++ (strategy_id ++ (codes "-" ++ (code ++ (codes "-" ++ hedge))));
        symbol = symbol;
        side = hedge_side pair code delta;
        order_type = OrderType.market;
        lot_size = lots;
        limit_price = none;
        stop_loss = none;
        take_profit = none;
        urgency = UrgencyLevel.medium;
        timestamp = timestamp;
        client_tag = some (codes "HEDGE:" ++ strategy_id);
      }))

unfoldable pub hedge_currency_delta :
    Text → ℤ → Text → Text → DateTime → Result (Option OrderIntent)
unfolding hedge_candidates least_text hedge_intent
hedge_currency_delta currency delta hedge_currency strategy_id timestamp =
    let code = upper currency in
    let hedge = upper hedge_currency in
    if text_eq code hedge || abs_ℕ delta == 0
    then ok none
    else (symbols_for_currency code >>= λ symbols. elim (hedge_candidates hedge symbols) [
      | [] ↦ ok none
      | s ∷ ss ↦ hedge_intent (least_text s ss) code hedge delta strategy_id timestamp
    ])
