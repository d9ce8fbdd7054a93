-- ===== src/Domain/Pair.antt =====
-- `CurrencyPair` of forex_platform/core/domain.py.
use forex_platform.Decimal
use forex_platform.Decimal.{Decimal, decimal}
use forex_platform.Prelude.{
  ℕ, ◌==◌, if◌then◌else◌, Bool, Option, none, some, ◌++◌, length, take, drop, Text, codes, text_eq,
  strip, clean_symbol, pos, Result, ok, err, value_error,
}

pub record CurrencyPair : Type 0 where
  pub base_currency : Text
  pub quote_currency : Text
  pub symbol : Text
  pub price_precision : ℕ
  pub pip_decimal_places : ℕ
  pub pip_size : Decimal
  pub pipette_size : Decimal
  pub standard_lot_units : ℕ
  pub is_jpy_cross : Bool

abbrev or_default : Option ℕ → ℕ → ℕ
or_default none d = d
or_default (some p) d = p

-- The pair of a cleaned six-letter code.
unfoldable pub pair_of_code : Text → Option ℕ → CurrencyPair
pair_of_code cleaned price_precision =
    let base = take 3 cleaned in
    let quote = drop 3 cleaned in
    let is_jpy = text_eq quote (codes "JPY") in
    record {
      base_currency = base;
      quote_currency = quote;
      symbol = base ++ quote;
      price_precision = or_default price_precision (if is_jpy then 3 else 5);
      pip_decimal_places = if is_jpy then 2 else 4;
      pip_size = if is_jpy then decimal (pos 1) 2 else decimal (pos 1) 4;
      pipette_size = if is_jpy then decimal (pos 1) 3 else decimal (pos 1) 5;
      standard_lot_units = 100000;
      is_jpy_cross = is_jpy;
    }

unfoldable pub from_symbol : Text → Option ℕ → Result CurrencyPair
unfolding pair_of_code
from_symbol symbol price_precision =
    let cleaned = clean_symbol (strip symbol) in
    if length cleaned == 6 then ok (pair_of_code cleaned price_precision) else err value_error

unfoldable pub to_pips : CurrencyPair → Decimal → Result Decimal
to_pips pair price_diff = Decimal.div price_diff pair.pip_size

unfoldable pub to_price : CurrencyPair → Decimal → Decimal
to_price pair pips = Decimal.mul pips pair.pip_size

unfoldable pub round_price : CurrencyPair → Decimal → Result Decimal
round_price pair price = Decimal.quantize price pair.price_precision

unfoldable pub round_pips : CurrencyPair → Decimal → ℕ → Result Decimal
round_pips pair pips decimal_places = Decimal.quantize pips decimal_places

abbrev pub one : Decimal
one = decimal (pos 10) 1

abbrev pub zero_decimal : Decimal
zero_decimal = decimal (pos 0) 1

unfoldable pub quote_to_account_rate : CurrencyPair → Decimal → Text → Result Decimal
quote_to_account_rate pair price account_currency =
    if Decimal.le price (decimal (pos 0) 0)
    then ok one
    else if text_eq pair.quote_currency account_currency
    then ok one
    else if text_eq pair.base_currency account_currency
    then Decimal.div one price
    else if text_eq pair.quote_currency (codes "JPY")
    then Decimal.div one price
    else Decimal.div one price
