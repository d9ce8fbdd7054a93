-- ===== src/Domain/Position.antt =====
-- `Position` of forex_platform/core/domain.py. A method that mutates the position returns the new
-- one, beside the exception where it may raise one.
use forex_platform.Decimal
use forex_platform.Decimal.{Decimal, of_int}
use forex_platform.Time.{DateTime}
use forex_platform.Domain.Kinds.{OrderSide, side_eq}
use forex_platform.Domain.Orders.{Fill}
use forex_platform.Domain.Pair.{zero_decimal}
use forex_platform.Domain.Pips.{favourable}
use forex_platform.Prelude.{
  ℤ, pos, ◌-ℤ◌, eqb_ℤ, min_ℤ, Bool, false, if◌then◌else◌, Text, text_eq, Result, ok, err,
  value_error,
}

pub record Position : Type 0 where
  pub position_id : Text
  pub symbol : Text
  pub side : OrderSide
  pub units : ℤ
  pub average_entry_price : Decimal
  pub current_price : Decimal
  pub realized_pnl : Decimal
  pub unrealized_pnl : Decimal
  pub total_commission : Decimal
  pub total_swap : Decimal
  pub opened_at : DateTime
  pub updated_at : DateTime
  pub is_open : Bool

unfoldable pub update_market_price : Position → Decimal → Decimal → Position
update_market_price p new_price rate =
    let diff = favourable p.side p.average_entry_price new_price in
    record p {
      current_price = new_price;
      unrealized_pnl = Decimal.mul (Decimal.mul (of_int p.units) diff) rate;
    }

-- The branch of `apply_fill` that grows the position. A zero total raises when the average is
-- taken, before anything but the commission is written.
unfoldable pub increase : Position → Fill → Result (Unit {0}) × Position
increase p fill =
    let current_units = of_int p.units in
    let fill_units = of_int fill.units in
    let total_units = Decimal.add current_units fill_units in
    let total_cost =
      Decimal.add (Decimal.mul current_units p.average_entry_price)
        (Decimal.mul fill_units fill.fill_price) in
    elim (Decimal.div total_cost total_units) [
      | ok average ↦
          (ok tt, record p { average_entry_price = average; units = Decimal.to_int total_units })
      | err e ↦ (err e, p)
    ]

-- The branch of `apply_fill` that reduces or closes the position.
unfoldable pub reduce : Position → Fill → Decimal → Position
reduce p fill rate =
    let closed_units = min_ℤ p.units fill.units in
    let trade_diff = favourable p.side p.average_entry_price fill.fill_price in
    let realized_account = Decimal.mul (Decimal.mul (of_int closed_units) trade_diff) rate in
    let remaining = p.units -ℤ closed_units in
    let reduced = record p {
      realized_pnl = Decimal.add p.realized_pnl realized_account;
      units = remaining;
    } in
    if eqb_ℤ remaining (pos 0)
    then record reduced { is_open = false; unrealized_pnl = zero_decimal }
    else reduced

unfoldable pub apply_fill : Position → Fill → Decimal → Result (Unit {0}) × Position
unfolding increase reduce
apply_fill p fill rate =
    let charged = record p { total_commission = Decimal.add p.total_commission fill.commission } in
    if text_eq fill.symbol p.symbol
    then (if side_eq fill.side p.side
        then increase charged fill
        else (ok tt, reduce charged fill rate))
    else (err value_error, p)

unfoldable pub apply_swap : Position → Decimal → Position
apply_swap p swap_amount = record p { total_swap = Decimal.add p.total_swap swap_amount }

-- `close` returns the closing PnL.
unfoldable pub close : Position → Decimal → Decimal → Decimal × Position
close p price rate =
    let diff = favourable p.side p.average_entry_price price in
    let closing_pnl = Decimal.mul (Decimal.mul (of_int p.units) diff) rate in
    (
      closing_pnl,
      record p {
        realized_pnl = if p.is_open then Decimal.add p.realized_pnl closing_pnl else p.realized_pnl;
        unrealized_pnl = zero_decimal;
        units = pos 0;
        is_open = false;
      },
    )
