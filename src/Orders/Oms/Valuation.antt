-- ===== src/Orders/Oms/Valuation.antt =====
-- Quotes, positions and the sums of the account, of forex_platform/order_management/oms.py.
use forex_platform.Decimal
use forex_platform.Decimal.{Decimal}
use forex_platform.Domain.Kinds.{OrderSide, buy, sell}
use forex_platform.Domain.Pair.{zero_decimal}
use forex_platform.Domain.Position.{Position, update_market_price}
use forex_platform.Orders.Oms.State.{Oms}
use forex_platform.Prelude.{
  Option, none, some, List, foldl, Text, clean_symbol, lookup, insert, values,
}

abbrev valuation_price : OrderSide → Decimal → Decimal → Decimal
valuation_price buy bid ask = bid
valuation_price sell bid ask = ask

unfoldable pub update_quotes : Text → Decimal → Decimal → Decimal → Oms → Oms
update_quotes symbol bid ask rate s =
    let clean = clean_symbol symbol in
    let quoted = record s {
      latest_quotes =
          insert clean (record { bid = bid; ask = ask; quote_to_account_rate = rate })
            s.latest_quotes;
    } in
    elim (lookup clean s.open_positions) [
      | none ↦ quoted
      | some p ↦ record quoted {
        open_positions =
            insert clean (update_market_price p (valuation_price p.side bid ask) rate)
              s.open_positions;
      }
    ]

unfoldable pub inject_position : Position → Oms → Oms
inject_position p s = record s {
  open_positions = insert (clean_symbol p.symbol) p s.open_positions;
}

unfoldable pub get_position : Text → Oms → Option Position
get_position symbol s = lookup (clean_symbol symbol) s.open_positions

unfoldable pub get_open_positions : Oms → List Position
get_open_positions s = values s.open_positions

unfoldable pub get_closed_positions : Oms → List Position
get_closed_positions s = s.closed_positions

-- `sum((f(p) for p in ps), Decimal("0.0"))`
unfoldable pub sum_of : (Position → Decimal) → List Position → Decimal
sum_of f ps = foldl (λ acc p. Decimal.add acc (f p)) zero_decimal ps

unfoldable pub get_unrealized_pnl : Oms → Decimal
get_unrealized_pnl s = sum_of (λ p. p.unrealized_pnl) (get_open_positions s)

unfoldable pub get_realized_pnl : Oms → Decimal
get_realized_pnl s =
    Decimal.add (sum_of (λ p. p.realized_pnl) (get_open_positions s))
      (sum_of (λ p. p.realized_pnl) s.closed_positions)

unfoldable pub get_total_commissions : Oms → Decimal
get_total_commissions s =
    Decimal.add (sum_of (λ p. p.total_commission) (get_open_positions s))
      (sum_of (λ p. p.total_commission) s.closed_positions)

unfoldable pub get_total_swap : Oms → Decimal
get_total_swap s =
    Decimal.add (sum_of (λ p. p.total_swap) (get_open_positions s))
      (sum_of (λ p. p.total_swap) s.closed_positions)

unfoldable pub get_total_equity : Oms → Decimal
get_total_equity s =
    Decimal.add
      (Decimal.sub
        (Decimal.add (Decimal.add s.initial_balance (get_realized_pnl s)) (get_unrealized_pnl s))
        (get_total_commissions s))
      (get_total_swap s)
