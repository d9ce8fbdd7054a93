-- ===== src/Orders/Oms/Filling.antt =====
-- Fills, cancellations and unknown orders, of forex_platform/order_management/oms.py.
use forex_platform.Decimal
use forex_platform.Decimal.{Decimal, of_int}
use forex_platform.Domain.Kinds.{OrderStatus}
use forex_platform.Domain.Orders.{ExecutionOrder, Fill}
use forex_platform.Domain.Pair.{zero_decimal}
use forex_platform.Domain.Position.{Position, apply_fill}
use forex_platform.Orders.Lifecycle
use forex_platform.Orders.Oms.State.{Oms, Quote, Method, move_machine, update_order, with_status}
use forex_platform.Orders.Router.{Ref}
use forex_platform.Prelude.{
  if◌then◌else◌, Bool, true, ◌++◌, Option, none, some, [], ◌∷◌, get_elem?, set, take, pos, ◌+ℤ◌,
  ◌-ℤ◌, leb_ℤ, max_ℤ, Text, codes, clean_symbol, lookup, insert, erase, ok, err, key_error,
}
use forex_platform.Time.{DateTime}

-- The order's figures after a fill.
abbrev pub fill_order : Fill → ExecutionOrder → ExecutionOrder
fill_order fill o =
    let new_filled = o.filled_units +ℤ fill.units in
    record o {
      filled_units = new_filled;
      remaining_units = max_ℤ (pos 0) (o.lot_size.units -ℤ new_filled);
      average_fill_price = some fill.fill_price;
      updated_at = fill.timestamp;
    }

-- `remaining <= 0` after the fill
abbrev pub is_completed : Fill → ExecutionOrder → Bool
is_completed fill o = leb_ℤ (o.lot_size.units -ℤ (o.filled_units +ℤ fill.units)) (pos 0)

unfoldable pub new_position : Fill → Position
new_position fill = record {
  position_id = codes "POS-" ++ (fill.symbol ++ (codes "-" ++ take 8 fill.fill_id));
  symbol = fill.symbol;
  side = fill.side;
  units = fill.units;
  average_entry_price = fill.fill_price;
  current_price = fill.fill_price;
  realized_pnl = zero_decimal;
  unrealized_pnl = zero_decimal;
  total_commission = fill.commission;
  total_swap = zero_decimal;
  opened_at = fill.timestamp;
  updated_at = fill.timestamp;
  is_open = true;
}

-- The net result of a position, which a close adds to the balance.
abbrev pub net_realized : Position → Decimal
net_realized p = Decimal.sub p.realized_pnl p.total_commission

-- A position that is no longer open leaves the book for the closed list.
unfoldable pub settle_position : Text → Position → Oms → Oms
settle_position symbol p s =
    if p.is_open then record s { open_positions = insert symbol p s.open_positions } else record s {
      balance = Decimal.add s.balance (net_realized p);
      closed_positions = s.closed_positions ++ p ∷ [];
      open_positions = erase symbol s.open_positions;
    }

abbrev pub rate_of : Option Quote → Decimal
rate_of none = of_int (pos 1)
rate_of (some q) = q.quote_to_account_rate

-- The last part of `process_fill`.
unfoldable pub attribute_fill : Fill → Method Position
unfolding new_position settle_position
attribute_fill fill s = elim (lookup fill.symbol s.open_positions) [
  | none ↦
      let p = new_position fill in
      (ok p, record s { open_positions = insert fill.symbol p s.open_positions })
  | some p ↦
      let rate = rate_of (lookup (clean_symbol fill.symbol) s.latest_quotes) in
      let (applied, p') = apply_fill p fill rate in
      elim applied [
        | err e ↦ (err e, record s { open_positions = insert fill.symbol p' s.open_positions })
        | ok _ ↦ (ok p', settle_position fill.symbol p' s)
      ]
]

-- The transition and the status of the order that a fill brings.
unfoldable pub advance_filled : Fill → Ref → Bool → Method (Unit {0})
unfolding move_machine update_order
advance_filled fill ref completed s =
    let target = if completed then Lifecycle.filled else Lifecycle.partially_filled in
    let reason = if completed then codes "Filled completely" else codes "Partial fill" in
    let status = if completed then OrderStatus.filled else OrderStatus.partially_filled in
    let (moved, s') = move_machine fill.order_id target fill.timestamp reason s in
    elim moved [ err e ↦ (err e, s') | ok _ ↦ (ok tt, update_order ref (with_status status) s') ]

unfoldable pub process_fill : Fill → Method Position
unfolding advance_filled attribute_fill
process_fill fill s = elim (lookup fill.order_id s.orders) [
  | none ↦ (err key_error, s)
  | some ref ↦ elim (get_elem? s.heap ref) [
    | none ↦ (err key_error, s)
    | some o ↦ elim (lookup fill.order_id s.state_machines) [
      | none ↦ (err key_error, s)
      | some _ ↦
          let noted = record s {
            fills = insert fill.fill_id fill s.fills;
            heap = set s.heap ref (fill_order fill o);
          } in
          let (advanced, s') = advance_filled fill ref (is_completed fill o) noted in
          elim advanced [ err e ↦ (err e, s') | ok _ ↦ attribute_fill fill s' ]
    ]
  ]
]

unfoldable pub cancel_order : Text → DateTime → Text → Method Ref
unfolding move_machine update_order
cancel_order order_id timestamp reason s = elim (lookup order_id s.orders) [
  | none ↦ (err key_error, s)
  | some ref ↦
      let (moved, s') = move_machine order_id Lifecycle.cancelled timestamp reason s in
      elim moved [
        | err e ↦ (err e, s')
        | ok _ ↦ (
          ok ref,
          update_order ref
              (λ o. record o { status = OrderStatus.cancelled; updated_at = timestamp }) s',
        )
      ]
]

unfoldable pub mark_order_unknown : Text → DateTime → Text → Method (Unit {0})
unfolding move_machine update_order
mark_order_unknown order_id timestamp reason s = elim (lookup order_id s.orders) [
  | none ↦ (err key_error, s)
  | some ref ↦
      let (moved, s') = move_machine order_id Lifecycle.unknown timestamp reason s in
      elim moved [
        | err e ↦ (err e, s')
        | ok _ ↦ (ok tt, update_order ref (with_status OrderStatus.rejected) s')
      ]
]
