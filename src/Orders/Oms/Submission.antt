-- ===== src/Orders/Oms/Submission.antt =====
-- Submission and acknowledgement, of forex_platform/order_management/oms.py.
use forex_platform.Decimal
use forex_platform.Decimal.{Decimal, decimal, of_int}
use forex_platform.Domain.Kinds.{OrderStatus}
use forex_platform.Domain.Lots.{from_units, standard_lot_units}
use forex_platform.Domain.Orders.{OrderIntent, ExecutionOrder}
use forex_platform.Orders.Lifecycle
use forex_platform.Orders.Lifecycle.{OrderStateMachine, transition_to}
use forex_platform.Orders.Oms.State.{Oms, Method, move_machine, update_order, with_status}
use forex_platform.Orders.Router.{Ref, route_intent}
use forex_platform.Risk.Firewall.{evaluate_order}
use forex_platform.Risk.Quotes.{Request, RiskDecision}
use forex_platform.Prelude.{
  if◌then◌else◌, ◌&&◌, Option, none, some, List, [], ◌∷◌, get_elem?, pos, ltb_ℤ, Text, codes,
  lookup, insert, Result, ok, err, key_error, ◌>>=◌,
}
use forex_platform.Time.{DateTime}

-- The request that `submit_intent` makes: it passes neither the open positions nor an equity.
abbrev pub request_of : Request → Request
request_of r = record r { open_positions = none; account_equity = none }

-- The intent at the units that the multiplier leaves, if it lies between 0 and 1 and leaves any.
unfoldable pub dampen : OrderIntent → Decimal → Result OrderIntent
dampen intent multiplier =
    let units = Decimal.to_int (Decimal.mul (of_int intent.lot_size.units) multiplier) in
    if Decimal.lt multiplier (decimal (pos 10) 1)
      && Decimal.lt (decimal (pos 0) 1) multiplier
      && ltb_ℤ (pos 0) units
    then (from_units units standard_lot_units >>= λ lots. ok (record intent { lot_size = lots }))
    else ok intent

-- A machine that has passed the risk check and the submission, both legal from CREATED.
unfoldable pub submitted_machine : ExecutionOrder → DateTime → DateTime → OrderStateMachine
submitted_machine o now current_time =
    let fresh = Lifecycle.new o.order_id o.symbol Lifecycle.created now in
    let checked =
      (transition_to Lifecycle.risk_checked current_time (codes "Risk check passed") fresh).1 in
    (transition_to Lifecycle.submitted current_time (codes "Submitted to router") checked).1

-- An order is recorded with its machine, and marked as submitted.
unfoldable pub record_order : Ref → DateTime → DateTime → Oms → Oms
unfolding update_order submitted_machine
record_order ref now current_time s = elim (get_elem? s.heap ref) [
  | none ↦ s
  | some o ↦ update_order ref (with_status OrderStatus.submitted) (record s {
    orders = insert o.order_id ref s.orders;
    state_machines = insert o.order_id (submitted_machine o now current_time) s.state_machines;
  })
]

unfoldable pub record_orders : List Ref → DateTime → DateTime → Oms → Oms
unfolding record_order
record_orders [] now current_time s = s
record_orders (ref ∷ refs) now current_time s =
    record_orders refs now current_time (record_order ref now current_time s)

-- The routing of an approved intent; `now` is the clock of the router and the machines.
unfoldable pub route_approved :
    OrderIntent → RiskDecision → DateTime → DateTime → Method (RiskDecision × List Ref)
unfolding dampen record_orders
route_approved intent decision now current_time s =
    elim (dampen intent decision.sizing_multiplier) [
      | err e ↦ (err e, s)
      | ok adjusted ↦
          let (routed, router, heap) =
            route_intent (codes "PAPER_ENGINE") now adjusted s.router s.heap in
          elim routed [
            | err e ↦ (err e, record s { router = router; heap = heap })
            | ok refs ↦ (
              ok (decision, refs),
              record_orders refs now current_time (record s { router = router; heap = heap }),
            )
          ]
    ]

unfoldable pub submit_intent : OrderIntent → Request → DateTime → Method (RiskDecision × List Ref)
unfolding route_approved
submit_intent intent r now s =
    let (decision, cb) =
      evaluate_order s.firewall (request_of r) intent s.kill_switch s.circuit_breaker in
    let evaluated = record s { circuit_breaker = cb } in
    if decision.approved
    then route_approved intent decision now r.current_time evaluated
    else (ok (decision, []), evaluated)

unfoldable pub acknowledge_order : Text → DateTime → Method (Unit {0})
unfolding move_machine update_order
acknowledge_order order_id timestamp s = elim (lookup order_id s.orders) [
  | none ↦ (err key_error, s)
  | some ref ↦
      let (moved, s') =
        move_machine order_id Lifecycle.acked timestamp (codes "Acknowledged by broker") s in
      elim moved [
        | err e ↦ (err e, s')
        | ok _ ↦ (ok tt, update_order ref (with_status OrderStatus.submitted) s')
      ]
]

unfoldable pub get_order : Text → Oms → Option ExecutionOrder
get_order order_id s = elim (lookup order_id s.orders) [
  | none ↦ none
  | some ref ↦ get_elem? s.heap ref
]
