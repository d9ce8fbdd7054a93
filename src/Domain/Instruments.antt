-- ===== src/Domain/Instruments.antt =====
-- The registry of forex_platform/core/instruments.py. The typical spreads, which are float literals
-- there, are exact decimals, and the conversions of a specification to float are not modelled.
pub mod Agreement
use forex_platform.Decimal.{Decimal, decimal}
use forex_platform.Domain.Pair.{CurrencyPair, from_symbol}
use forex_platform.Prelude.{
  ℕ, Bool, true, false, ◌||◌, if◌then◌else◌, Option, some, List, [], ◌∷◌, ◌++◌, take, drop, pos,
  Text, codes, text_eq, upper, strip, clean_symbol, is_member, Result, ok, err, value_error, ◌>>=◌,
}

pub data LiquidityTier : Type 0 where
  major cross : LiquidityTier

pub record InstrumentSpec : Type 0 where
  pub symbol : Text
  pub base_currency : Text
  pub quote_currency : Text
  pub liquidity_tier : LiquidityTier
  pub typical_spread_pips : Decimal
  pub price_precision : ℕ
  pub pip_decimal_places : ℕ

abbrev pub usd_majors : List Text
usd_majors =
    codes "EURUSD"
    ∷ codes "GBPUSD"
    ∷ codes "USDJPY"
    ∷ codes "USDCHF"
    ∷ codes "AUDUSD"
    ∷ codes "USDCAD"
    ∷ codes "NZDUSD"
    ∷ []

abbrev pub crosses : List Text
crosses =
    codes "EURGBP"
    ∷ codes "EURJPY"
    ∷ codes "EURCHF"
    ∷ codes "EURAUD"
    ∷ codes "EURNZD"
    ∷ codes "EURCAD"
    ∷ codes "GBPJPY"
    ∷ codes "GBPCHF"
    ∷ codes "GBPAUD"
    ∷ codes "GBPNZD"
    ∷ codes "GBPCAD"
    ∷ codes "AUDJPY"
    ∷ codes "AUDCHF"
    ∷ codes "AUDNZD"
    ∷ codes "AUDCAD"
    ∷ codes "NZDJPY"
    ∷ codes "NZDCHF"
    ∷ codes "NZDCAD"
    ∷ codes "CADJPY"
    ∷ codes "CADCHF"
    ∷ codes "CHFJPY"
    ∷ []

abbrev pub symbols : List Text
symbols = usd_majors ++ crosses

abbrev jpy_crosses : List Text
jpy_crosses =
    codes "EURJPY"
    ∷ codes "GBPJPY"
    ∷ codes "AUDJPY"
    ∷ codes "NZDJPY"
    ∷ codes "CADJPY"
    ∷ codes "CHFJPY"
    ∷ []

unfoldable pub normalize : Text → Text
normalize symbol = clean_symbol (strip symbol)

-- The specification of a clean symbol of the universe.
unfoldable pub spec_of_code : Text → InstrumentSpec
spec_of_code clean =
    let jpy = text_eq (drop 3 clean) (codes "JPY") in
    let is_major = is_member clean usd_majors in
    record {
      symbol = clean;
      base_currency = take 3 clean;
      quote_currency = drop 3 clean;
      liquidity_tier = if is_major then major else cross;
      typical_spread_pips =
          if is_member clean jpy_crosses
          then decimal (pos 15) 1
          else if is_major
          then decimal (pos 9) 1
          else decimal (pos 18) 1;
      price_precision = if jpy then 3 else 5;
      pip_decimal_places = if jpy then 2 else 4;
    }

unfoldable pub is_supported : Text → Bool
unfolding normalize
is_supported symbol = is_member (normalize symbol) symbols

-- `_spec`, and `get`
unfoldable pub get : Text → Result InstrumentSpec
unfolding spec_of_code
get symbol = if is_supported symbol then ok (spec_of_code (normalize symbol)) else err value_error

unfoldable pub pair_of_spec : InstrumentSpec → Result CurrencyPair
pair_of_spec spec = from_symbol spec.symbol (some spec.price_precision)

unfoldable pub specs_of : List Text → Result (List InstrumentSpec)
unfolding get
specs_of [] = ok []
specs_of (s ∷ ss) = get s >>= λ spec. specs_of ss >>= λ specs. ok (spec ∷ specs)

unfoldable pub all_specs : Result (List InstrumentSpec)
unfolding specs_of
all_specs = specs_of symbols

unfoldable pub symbols_with : Text → List InstrumentSpec → List Text
symbols_with code [] = []
symbols_with code (spec ∷ specs) =
    let more = symbols_with code specs in
    if text_eq code spec.base_currency || text_eq code spec.quote_currency
    then spec.symbol ∷ more
    else more

unfoldable pub symbols_for_currency : Text → Result (List Text)
unfolding all_specs symbols_with
symbols_for_currency currency =
    all_specs >>= λ specs. ok (symbols_with (upper (strip currency)) specs)
