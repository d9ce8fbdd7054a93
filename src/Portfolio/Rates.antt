-- ===== src/Portfolio/Rates.antt =====
-- The rates and the decompositions of `CurrencyExposureMatrix`, of
-- forex_platform/portfolio_engine/exposure_matrix.py.
use forex_platform.Decimal
use forex_platform.Decimal.{Decimal, decimal, of_int}
use forex_platform.Domain.Kinds.{OrderSide, buy, sell}
use forex_platform.Domain.Orders.{OrderIntent}
use forex_platform.Domain.Pair.{CurrencyPair, from_symbol, one}
use forex_platform.Domain.Position.{Position}
use forex_platform.Prelude.{
  ◌==◌, ◌++◌, pos, leb_ℤ, if◌then◌else◌, Bool, not, Option, none, some, List, [], ◌∷◌, length, take,
  drop, Text, codes, text_eq, upper, strip, remove_char, Dict, lookup, insert, Result, ok, ◌>>=◌,
}

pub record ExposureMatrix : Type 0 where
  pub account_currency : Text
  pub rates : Dict Decimal
  pub supported_currencies : List Text  -- the set's elements, in the order of its iteration

-- `s.upper().replace("/", "").replace("_", "")`
unfoldable pub rate_symbol : Text → Text
rate_symbol s = remove_char b'_' (remove_char b'/' (upper s))

abbrev pub default_rates : Dict Decimal
default_rates =
    (codes "EURUSD", decimal (pos 10800) 4)
    ∷ (codes "GBPUSD", decimal (pos 12800) 4)
    ∷ (codes "USDJPY", decimal (pos 15500) 2)
    ∷ (codes "AUDUSD", decimal (pos 6500) 4)
    ∷ (codes "USDCAD", decimal (pos 13800) 4)
    ∷ (codes "USDCHF", decimal (pos 9000) 4)
    ∷ (codes "NZDUSD", decimal (pos 6000) 4)
    ∷ (codes "EURGBP", decimal (pos 8437) 4)
    ∷ (codes "EURJPY", decimal (pos 16740) 2)
    ∷ (codes "GBPJPY", decimal (pos 19840) 2)
    ∷ []

-- `rates` with each entry of a dict put in under its cleaned symbol
unfoldable pub merge_rates : Dict Decimal → Dict Decimal → Dict Decimal
merge_rates rates [] = rates
merge_rates rates ((symbol, rate) ∷ rest) =
    merge_rates (insert (rate_symbol (strip symbol)) rate rates) rest

-- `__init__`; `currencies` lists the set of supported currencies.
unfoldable pub new : Text → Dict Decimal → List Text → ExposureMatrix
new account_currency overrides currencies = record {
  account_currency = upper account_currency;
  rates = merge_rates default_rates overrides;
  supported_currencies = currencies;
}

unfoldable pub update_rate : Text → Decimal → ExposureMatrix → ExposureMatrix
update_rate symbol rate m = record m { rates = insert (rate_symbol (strip symbol)) rate m.rates }

abbrev is_positive : Decimal → Bool
is_positive d = Decimal.lt (decimal (pos 0) 0) d

-- 1 / rate of the inverse pair, or 1.0 where there is none with a positive rate
unfoldable pub inverse_rate : Option Decimal → Result Decimal
inverse_rate none = ok one
inverse_rate (some rate) = if is_positive rate then Decimal.div one rate else ok one

unfoldable pub get_rate : Text → ExposureMatrix → Result Decimal
unfolding inverse_rate
get_rate symbol m =
    let clean = rate_symbol (strip symbol) in
    elim (lookup clean m.rates) [
      | some rate ↦ ok rate
      | none ↦
          if length clean == 6
          then inverse_rate (lookup (drop 3 clean ++ take 3 clean) m.rates)
          else ok one
    ]

-- The direct rate, the inverse of the inverse pair's, or 1.0.
unfoldable pub direct_or_inverse : Text → Text → Dict Decimal → Result Decimal
unfolding inverse_rate
direct_or_inverse from to rates = elim (lookup (from ++ to) rates) [
  | some rate ↦ ok rate
  | none ↦ inverse_rate (lookup (to ++ from) rates)
]

-- `_rate_between`
unfoldable pub rate_between : Text → Text → Dict Decimal → Result Decimal
unfolding direct_or_inverse
rate_between from to rates = if text_eq from to then ok one else direct_or_inverse from to rates

abbrev has_positive : Option Decimal → Bool
has_positive none = Bool.false
has_positive (some rate) = is_positive rate

-- The cross rate through USD.
unfoldable pub triangulate : Text → Text → Dict Decimal → Result Decimal
triangulate curr acct rates = do
  curr_to_usd ← rate_between curr (codes "USD") rates
  usd_to_acct ← rate_between (codes "USD") acct rates
  ok (Decimal.mul curr_to_usd usd_to_acct)

abbrev pub rates_with : Option (Dict Decimal) → Dict Decimal → Dict Decimal
rates_with none rates = rates
rates_with (some current) rates = merge_rates rates current

unfoldable pub get_rate_to_account : Text → Option (Dict Decimal) → ExposureMatrix → Result Decimal
unfolding triangulate
get_rate_to_account currency current_rates m =
    let curr = upper (strip currency) in
    let acct = m.account_currency in
    let rates = rates_with current_rates m.rates in
    if text_eq curr acct then ok one else elim (lookup (curr ++ acct) rates) [
      | some rate ↦ ok rate
      | none ↦
          if has_positive (lookup (acct ++ curr) rates)
          then inverse_rate (lookup (acct ++ curr) rates)
          else if not (text_eq acct (codes "USD"))
          then triangulate curr acct rates
          else ok one
    ]

-- The two legs, {base: units, quote: -quote_units} of a purchase and the opposite of a sale.
unfoldable pub legs : OrderSide → CurrencyPair → Decimal → Decimal → Dict Decimal
legs buy pair units quote_units =
    insert pair.quote_currency (Decimal.neg quote_units) (insert pair.base_currency units [])
legs sell pair units quote_units =
    insert pair.quote_currency quote_units (insert pair.base_currency (Decimal.neg units) [])

-- The legs at a price, with the quote leg rounded to cents.
unfoldable pub legs_at : OrderSide → CurrencyPair → Decimal → Decimal → Result (Dict Decimal)
unfolding legs
legs_at side pair units price = do
  quote_units ← Decimal.quantize (Decimal.mul units price) 2
  ok (legs side pair units quote_units)

abbrev price_or : Option Decimal → Decimal → Decimal
price_or none d = d
price_or (some p) d = p

-- `price if price > 0 else get_rate(symbol)`
unfoldable pub positive_or_rate : Decimal → Text → ExposureMatrix → Result Decimal
positive_or_rate price symbol m = if is_positive price then ok price else get_rate symbol m

unfoldable pub decompose_position :
    Position → Option Decimal → ExposureMatrix → Result (Dict Decimal)
unfolding positive_or_rate legs_at
decompose_position p current_price m =
    if not p.is_open then ok [] else if leb_ℤ p.units (pos 0) then ok [] else do
      pair ← from_symbol p.symbol none
      let price = price_or current_price p.current_price
      let price' = if is_positive price then price else p.average_entry_price
      price'' ← positive_or_rate price' pair.symbol m
      legs_at p.side pair (of_int p.units) price''

-- `intent.limit_price or self.get_rate(symbol)`: a price of zero counts as absent.
unfoldable pub limit_or_rate : Option Decimal → Text → ExposureMatrix → Result Decimal
limit_or_rate none symbol m = get_rate symbol m
limit_or_rate (some p) symbol m = if Decimal.is_zero p then get_rate symbol m else ok p

unfoldable pub intent_price : OrderIntent → Option Decimal → Text → ExposureMatrix → Result Decimal
unfolding limit_or_rate
intent_price intent none symbol m = limit_or_rate intent.limit_price symbol m
intent_price intent (some p) symbol m = ok p

unfoldable pub decompose_order_intent :
    OrderIntent → Option Decimal → ExposureMatrix → Result (Dict Decimal)
unfolding intent_price positive_or_rate legs_at
decompose_order_intent intent current_price m =
    if leb_ℤ intent.lot_size.units (pos 0) then ok [] else do
      pair ← from_symbol intent.symbol none
      price ← intent_price intent current_price pair.symbol m
      price' ← positive_or_rate price pair.symbol m
      legs_at intent.side pair (of_int intent.lot_size.units) price'
