-- ===== src/Portfolio/Exposure.antt =====
-- `calculate_portfolio_exposure` of forex_platform/portfolio_engine/exposure_matrix.py.
pub mod Balance
use forex_platform.Decimal
use forex_platform.Decimal.{Decimal, decimal}
use forex_platform.Domain.Orders.{OrderIntent}
use forex_platform.Domain.Pair.{zero_decimal, one}
use forex_platform.Domain.Position.{Position}
use forex_platform.Portfolio.Rates.{
  ExposureMatrix, rate_symbol, get_rate_to_account, decompose_position, decompose_order_intent,
}
use forex_platform.Prelude.{
  add_sorted, ℕ, ltb, ◌==◌, if◌then◌else◌, Bool, true, false, not, Option, none, some, List, [],
  ◌∷◌, pos, Text, text_eq, upper, Dict, lookup, insert, Result, ok, err, ◌>>=◌,
}

pub record CurrencyDelta : Type 0 where
  pub currency : Text
  pub raw_delta : Decimal
  pub rate_to_account : Decimal
  pub base_delta : Decimal
  pub exposure_pct : Decimal
  pub abs_exposure_pct : Decimal

pub record ExposureSnapshot : Type 0 where
  pub account_currency : Text
  pub account_equity : Decimal
  pub deltas : Dict CurrencyDelta
  pub max_currency_exposure_pct : Decimal
  pub dominant_currency : Text
  pub gross_exposure_base : Decimal
  pub is_balanced : Bool
  pub active_pairs : List Text

abbrev amount_or_zero : Option Decimal → Decimal
amount_or_zero none = zero_decimal
amount_or_zero (some a) = a

-- `raw_totals[curr] += amt` for each leg
unfoldable pub add_legs : Dict Decimal → Dict Decimal → Dict Decimal
add_legs totals [] = totals
add_legs totals ((curr, amount) ∷ rest) =
    let up = upper curr in
    add_legs (insert up (Decimal.add (amount_or_zero (lookup up totals)) amount) totals) rest

abbrev pub price_of : Option (Dict Decimal) → Text → Option Decimal
price_of none symbol = none
price_of (some prices) symbol = lookup symbol prices

pub record Accumulated : Type 0 where
  pub raw_totals : Dict Decimal
  pub active_pairs : List Text

unfoldable pub add_positions :
    ExposureMatrix → Option (Dict Decimal) → List Position → Accumulated → Result Accumulated
unfolding add_legs
add_positions m prices [] acc = ok acc
add_positions m prices (p ∷ rest) acc =
    let pair_sym = rate_symbol p.symbol in
    let skipped = add_positions m prices rest acc in
    let added = λ (decomp : Dict Decimal). add_positions m prices rest (record {
      raw_totals = add_legs acc.raw_totals decomp;
      active_pairs = add_sorted pair_sym acc.active_pairs;
    }) in
    if not p.is_open then skipped else decompose_position p (price_of prices pair_sym) m >>= added

unfoldable pub add_intents :
    ExposureMatrix → Option (Dict Decimal) → List OrderIntent → Accumulated → Result Accumulated
unfolding add_legs
add_intents m prices [] acc = ok acc
add_intents m prices (i ∷ rest) acc =
    let pair_sym = rate_symbol i.symbol in
    decompose_order_intent i (price_of prices pair_sym) m >>= λ decomp.
    add_intents m prices rest (record {
      raw_totals = add_legs acc.raw_totals decomp;
      active_pairs = add_sorted pair_sym acc.active_pairs;
    })

-- The loop that converts the totals keeps these.
pub record Converted : Type 0 where
  pub deltas : Dict CurrencyDelta
  pub max_pct : Decimal
  pub dominant : Text
  pub gross_base : Decimal
  pub is_balanced : Bool

unfoldable pub currency_delta :
    ExposureMatrix → Option (Dict Decimal) → Decimal → Text → Decimal → Result CurrencyDelta
currency_delta m prices equity curr raw = do
  rate ← get_rate_to_account curr prices m
  base ← Decimal.quantize (Decimal.mul raw rate) 2
  share ← Decimal.div base equity
  pct ← Decimal.quantize share 4
  ok (record {
    currency = curr;
    raw_delta = raw;
    rate_to_account = rate;
    base_delta = base;
    exposure_pct = pct;
    abs_exposure_pct = Decimal.abs pct;
  })

unfoldable pub record_delta : Decimal → Converted → CurrencyDelta → Converted
record_delta cap c d =
    let above = Decimal.lt c.max_pct d.abs_exposure_pct in
    record {
      deltas = insert d.currency d c.deltas;
      max_pct = if above then d.abs_exposure_pct else c.max_pct;
      dominant = if above then d.currency else c.dominant;
      gross_base = Decimal.add c.gross_base (Decimal.abs d.base_delta);
      is_balanced = if Decimal.lt cap d.abs_exposure_pct then false else c.is_balanced;
    }

unfoldable pub convert :
    ExposureMatrix
    → Option (Dict Decimal)
    → Decimal
    → Decimal
    → Dict Decimal
    → Converted
    → Result Converted
unfolding record_delta
convert m prices equity cap [] c = ok c
convert m prices equity cap ((curr, raw) ∷ rest) c =
    currency_delta m prices equity curr raw >>= λ d.
    convert m prices equity cap rest (record_delta cap c d)

-- `{c: Decimal("0.0") for c in SUPPORTED_CURRENCIES}`
unfoldable pub zero_totals : List Text → Dict Decimal → Dict Decimal
zero_totals [] d = d
zero_totals (c ∷ cs) d = zero_totals cs (insert c zero_decimal d)

abbrev pub nothing_converted : Converted
nothing_converted = record {
  deltas = [];
  max_pct = zero_decimal;
  dominant = [];
  gross_base = zero_decimal;
  is_balanced = true;
}

-- An equity that is not positive counts as 1.0.
abbrev pub usable_equity : Decimal → Decimal
usable_equity equity = if Decimal.lt (decimal (pos 0) 0) equity then equity else one

unfoldable pub calculate_portfolio_exposure :
    List Position
    → Decimal
    → List OrderIntent
    → Option (Dict Decimal)
    → Decimal
    → ExposureMatrix
    → Result ExposureSnapshot
unfolding zero_totals
calculate_portfolio_exposure positions account_equity pending prices cap m =
    let equity = usable_equity account_equity in
    let start : Accumulated = record {
      raw_totals = zero_totals m.supported_currencies [];
      active_pairs = [];
    } in
    do
      held ← add_positions m prices positions start
      all ← add_intents m prices pending held
      c ← convert m prices equity cap all.raw_totals nothing_converted
      ok (record {
        account_currency = m.account_currency;
        account_equity = equity;
        deltas = c.deltas;
        max_currency_exposure_pct = c.max_pct;
        dominant_currency = c.dominant;
        gross_exposure_base = c.gross_base;
        is_balanced = c.is_balanced;
        active_pairs = all.active_pairs;
      })

unfoldable pub simulate_order_exposure :
    List Position
    → OrderIntent
    → Decimal
    → Option (Dict Decimal)
    → Decimal
    → ExposureMatrix
    → Result ExposureSnapshot
unfolding calculate_portfolio_exposure
simulate_order_exposure positions intent equity prices cap m =
    calculate_portfolio_exposure positions equity (intent ∷ []) prices cap m
