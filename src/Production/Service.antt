-- ===== src/Production/Service.antt =====
-- `ProductionExecutionService.submit_intent` of forex_platform/production/execution.py. The broker
-- registry is an interface, which the client instantiates. What the method writes to the order store and
-- the audit log, and what it hands to the broker, is the list of its events, in their order. The
-- telemetry and the clock are arguments. Metrics and the texts of messages are not modelled.
pub mod Clearance
pub mod Journal
use forex_platform.Decimal.{Decimal, decimal}
use forex_platform.Domain.Kinds.{OrderStatus}
use forex_platform.Domain.Orders.{OrderIntent, ExecutionOrder, Fill}
use forex_platform.Orders.Oms.Filling.{process_fill, cancel_order, mark_order_unknown}
use forex_platform.Orders.Oms.State.{Oms, update_order, with_status}
use forex_platform.Orders.Oms.Submission
use forex_platform.Orders.Oms.Submission.{acknowledge_order}
use forex_platform.Orders.Oms.Valuation.{get_open_positions}
use forex_platform.Orders.Router.{Ref}
use forex_platform.Production.Kernel.{Kernel, is_approved, evaluate}
use forex_platform.Risk.Quotes.{Request}
use forex_platform.Prelude.{
  Bool, true, false, not, if◌then◌else◌, Option, none, some, List, [], ◌∷◌, ◌++◌, get_elem?, ℤ, pos,
  eqb_ℤ, Text, codes, Result, ok, err,
}
use forex_platform.Time.{DateTime}

-- `BrokerOrderAck` of forex_platform/broker_adapters/base.py.
pub record Ack : Type 0 where
  pub order_id : Text
  pub broker_ticket : Text
  pub status : OrderStatus
  pub timestamp : DateTime
  pub filled_units : ℤ
  pub fill_price : Option Decimal

-- What the service calls of the broker registry: an order may raise, and changes the state of the brokers.
pub record Gateway (B : Type 0) : Type 0 where
  pub send_order : OrderIntent → B → Result (Text × Ack) × B
  pub cancel : Text → Text → B → Bool × B

pub data Event : Type 0 where
  persisted : Text → OrderStatus → Event
  sent : OrderIntent → Event
  fill_stored : Fill → Event
  audited : Text → Event

pub data Route : Type 0 where
  route_failed : Text → Route
  routed : Text → Text → Ack → Bool → Route

pub record ExecutionResult : Type 0 where
  pub approved : Bool
  pub child_orders : List Ref
  pub routes : List Route

pub record World (B : Type 0) : Type 0 where
  pub oms : Oms
  pub broker : B

abbrev id_or : Option Text → Text → Text
id_or none order_id = order_id
id_or (some []) order_id = order_id
id_or (some (c ∷ s)) order_id = c ∷ s

-- `_child_intent`
unfoldable pub child_intent : ExecutionOrder → OrderIntent → DateTime → OrderIntent
child_intent o parent now = record {
  intent_id = id_or o.intent_id o.order_id;
  symbol = o.symbol;
  side = o.side;
  order_type = o.order_type;
  lot_size = o.lot_size;
  limit_price = o.limit_price;
  stop_loss = o.stop_loss;
  take_profit = o.take_profit;
  urgency = parent.urgency;
  timestamp = now;
  client_tag = some o.order_id;
}

abbrev price_or : Option Decimal → Option Decimal → Option Decimal
price_or none old = old
price_or (some p) old = some p

abbrev units_or : ℤ → ℤ → ℤ
units_or n old = if eqb_ℤ n (pos 0) then old else n

-- The order as the acknowledgement has it.
unfoldable pub apply_ack : Ack → ExecutionOrder → ExecutionOrder
apply_ack ack o = record o {
  status = ack.status;
  average_fill_price = price_or ack.fill_price o.average_fill_price;
  filled_units = units_or ack.filled_units o.filled_units;
}

abbrev text_or : Text → Text → Text
text_or [] other = other
text_or (c ∷ s) other = c ∷ s

-- The fill of an order that was filled at once.
unfoldable pub ack_fill : Ack → ExecutionOrder → Option Fill
ack_fill ack o = elim ack.status [
  | OrderStatus.filled ↦ elim ack.fill_price [
    | none ↦ none
    | some price ↦ some (record {
      fill_id = codes "FILL-" ++ text_or ack.broker_ticket o.order_id;
      order_id = o.order_id;
      symbol = o.symbol;
      side = o.side;
      fill_price = price;
      units = units_or ack.filled_units o.lot_size.units;
      commission = decimal (pos 0) 1;
      timestamp = ack.timestamp;
      liquidity_flag = codes "TAKER";
    })
  ]
  | _ ↦ none
]

abbrev is_ok {ℓ} : {A : Type ℓ} → Result A → Bool
is_ok (ok a) = true
is_ok (err e) = false

-- An acknowledged order: the events, whether its fill was recorded, and the system after it.
unfoldable pub settle_ack : Ack → Ref → ExecutionOrder → Oms → List Event × Bool × Oms
unfolding apply_ack ack_fill
settle_ack ack ref o s =
    let noted = update_order ref (apply_ack ack) s in
    let acknowledged = (acknowledge_order o.order_id ack.timestamp noted).1 in
    elim (ack_fill ack o) [
      | none ↦ ([], false, acknowledged)
      | some fill ↦
          let (outcome, filled) = process_fill fill acknowledged in
          (fill_stored fill ∷ [], is_ok outcome, filled)
    ]

-- A child whose route failed is rejected, and in doubt.
unfoldable pub fail_route : DateTime → Ref → ExecutionOrder → Oms → Oms
fail_route now ref o s =
    (mark_order_unknown o.order_id now (codes "Broker route failed: ")
      (update_order ref (with_status OrderStatus.rejected) s)).1

module _ {B : Type 0} (g : Gateway B) where
  -- One round of the loop over the child orders.
  unfoldable pub route_child :
      OrderIntent → DateTime → Ref → World B → List Route × List Event × World B
  unfolding child_intent settle_ack fail_route
  route_child parent now ref w = elim (get_elem? w.oms.heap ref) [
    | none ↦ ([], [], w)
    | some o ↦
        let child = child_intent o parent now in
        let begun = persisted o.order_id OrderStatus.pending ∷ sent child ∷ [] in
        let (answer, broker) = g.send_order child w.broker in
        elim answer [
          | err e ↦ (
            route_failed o.order_id ∷ [],
            begun ++ persisted o.order_id OrderStatus.rejected ∷ [],
            record { oms = fail_route now ref o w.oms; broker = broker },
          )
          | ok reply ↦
              let (account, ack) = reply in
              let (events, recorded, oms) = settle_ack ack ref o w.oms in
              (
                routed o.order_id account ack recorded ∷ [],
                begun ++ (events ++ persisted o.order_id ack.status ∷ []),
                record { oms = oms; broker = broker },
              )
        ]
  ]

  unfoldable pub route_children :
      OrderIntent → DateTime → List Ref → World B → List Route × List Event × World B
  unfolding route_child
  route_children parent now [] w = ([], [], w)
  route_children parent now (ref ∷ refs) w =
      let (routes, events, w') = route_child parent now ref w in
      let (more_routes, more_events, w'') = route_children parent now refs w' in
      (routes ++ more_routes, events ++ more_events, w'')

  -- The kernel and the system are asked at the same time.
  unfoldable pub submit_intent :
      Kernel
      → OrderIntent
      → Request
      → DateTime
      → World B
      → Result ExecutionResult × List Event × World B
  unfolding route_children
  submit_intent k intent asked now w =
      let r = record asked { current_time = now } in
      let refusal : ExecutionResult = record { approved = false; child_orders = []; routes = [] } in
      let (decision, cb) = evaluate k intent r (get_open_positions w.oms) w.oms in
      let evaluated = record w.oms { circuit_breaker = cb } in
      elim decision [
        | err e ↦ (err e, [], record w { oms = evaluated })
        | ok d ↦
            if not (is_approved d)
            then (
              ok refusal,
              audited (codes "execution.rejected") ∷ [],
              record w { oms = evaluated },
            )
            else (let (submitted, oms) = Submission.submit_intent intent r now evaluated in
                elim submitted [
                  | err e ↦ (
                    ok refusal,
                    audited (codes "execution.routing_error") ∷ [],
                    record w { oms = oms },
                  )
                  | ok children ↦
                      let (routes, events, w') =
                        route_children intent now children.1 (record w { oms = oms }) in
                      (
                        ok (record { approved = true; child_orders = children.1; routes = routes }),
                        events ++ audited (codes "execution.submitted") ∷ [],
                        w',
                      )
                ])
      ]

  -- `cancel`: an exception of the system is dropped.
  unfoldable pub cancel : Text → Text → DateTime → World B → Bool × List Event × World B
  cancel order_id account_id now w =
      let (cancelled, broker) = g.cancel order_id account_id w.broker in
      let oms =
        if cancelled
        then (cancel_order order_id now (codes "operator cancel") w.oms).1
        else w.oms in
      (cancelled, audited (codes "execution.cancel") ∷ [], record { oms = oms; broker = broker })
