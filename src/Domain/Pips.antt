-- ===== src/Domain/Pips.antt =====
-- `PipCalculator` of forex_platform/core/domain.py.
use forex_platform.Decimal
use forex_platform.Decimal.{Decimal, of_int}
use forex_platform.Domain.Kinds.{OrderSide, buy, sell}
use forex_platform.Domain.Lots.{LotSize}
use forex_platform.Domain.Pair.{CurrencyPair, to_pips}
use forex_platform.Prelude.{Result}

unfoldable pub pip_value_in_quote : CurrencyPair → LotSize → Decimal
pip_value_in_quote pair lot_size = Decimal.mul (of_int lot_size.units) pair.pip_size

unfoldable pub pip_value : CurrencyPair → LotSize → Decimal → Decimal
unfolding pip_value_in_quote
pip_value pair lot_size rate = Decimal.mul (pip_value_in_quote pair lot_size) rate

-- The change of the price in favour of the side.
abbrev pub favourable : OrderSide → Decimal → Decimal → Decimal
favourable buy entry exit = Decimal.sub exit entry
favourable sell entry exit = Decimal.sub entry exit

unfoldable pub price_diff_in_pips : OrderSide → Decimal → Decimal → CurrencyPair → Result Decimal
unfolding to_pips
price_diff_in_pips side entry exit pair = to_pips pair (favourable side entry exit)

unfoldable pub calculate_pnl : OrderSide → Decimal → Decimal → LotSize → Decimal → Decimal
calculate_pnl side entry exit lot_size rate =
    Decimal.mul (Decimal.mul (of_int lot_size.units) (favourable side entry exit)) rate
