-- ===== src/Production/Brokers.antt =====
-- `BrokerRegistry` and `AccountSpec` of forex_platform/production/brokers.py, and how MT5RemoteAdapter sends an
-- order. The adapters are an interface over a state of their own, as IBrokerAdapter is; the request to the
-- agent is a parameter. Locks, metrics, the rate limiter and the texts of errors are not modelled.
pub mod Failover
use forex_platform.Decimal
use forex_platform.Decimal.{Decimal, decimal}
use forex_platform.Domain.Kinds.{
  OrderStatus, submitted, filled, partially_filled, cancelled, rejected, expired,
}
use forex_platform.Domain.Orders.{OrderIntent}
use forex_platform.Production.LiveGate.{Adapter, verify_live_capital_guard}
use forex_platform.Production.Service.{Ack, Gateway}
use forex_platform.Prelude.{
  ℕ, Bool, true, false, not, ◌&&◌, ◌||◌, if◌then◌else◌, Option, none, some, List, [], ◌∷◌, ℤ, pos,
  ltb_ℤ, Text, codes, text_eq, text_lt, upper, is_member, Dict, lookup, insert, values, Result, ok,
  err, value_error, connection_error, broker_error, no_route_available, or_raise, ◌>>=◌,
}
use forex_platform.Time.{DateTime}

pub data ExecutionMode : Type 0 where
  paper demo live : ExecutionMode

abbrev pub mode_value : ExecutionMode → Text
mode_value paper = codes "PAPER"
mode_value demo = codes "DEMO"
mode_value live = codes "LIVE"

pub record AccountSpec : Type 0 where
  pub account_id : Text
  pub broker : Text
  pub mode : ExecutionMode
  pub adapter : Text
  pub enabled : Bool
  pub supports_live : Bool
  pub priority : ℤ
  pub requested_capital : Decimal

abbrev pub is_live : ExecutionMode → Bool
is_live live = true
is_live _ = false

abbrev pub is_paper : ExecutionMode → Bool
is_paper paper = true
is_paper _ = false

unfoldable pub validate_execution_boundary : AccountSpec → Result AccountSpec
validate_execution_boundary spec =
    if is_paper spec.mode && not (text_eq spec.adapter (codes "paper"))
    then err value_error
    else if not (is_paper spec.mode) && not (text_eq spec.adapter (codes "mt5_remote"))
    then err value_error
    else if is_live spec.mode
        && (not spec.supports_live || Decimal.le spec.requested_capital (decimal (pos 0) 0))
    then err value_error
    else ok spec

-- What the agent answers to an order.
pub record Reply : Type 0 where
  pub status : Text
  pub filled_units : ℤ
  pub ticket : Text
  pub fill_price : Option Decimal

unfoldable pub map_status : Text → ℤ → ℤ → OrderStatus
map_status raw filled_units total_units =
    let status = upper raw in
    if is_member status (codes "FILLED" ∷ codes "DONE" ∷ [])
    then filled
    else if is_member status (codes "PARTIAL" ∷ codes "PARTIALLY_FILLED" ∷ [])
    then partially_filled
    else if is_member status (codes "REJECTED" ∷ codes "ERROR" ∷ [])
    then rejected
    else if is_member status (codes "CANCELED" ∷ codes "CANCELLED" ∷ [])
    then cancelled
    else if text_eq status (codes "EXPIRED")
    then expired
    else if ltb_ℤ (pos 0) filled_units && ltb_ℤ filled_units total_units
    then partially_filled
    else submitted

abbrev is_rejected : OrderStatus → Bool
is_rejected rejected = true
is_rejected _ = false

abbrev ack_of : OrderIntent → DateTime → Reply → Ack
ack_of intent now reply = record {
  order_id = intent.intent_id;
  broker_ticket = reply.ticket;
  status = map_status reply.status reply.filled_units intent.lot_size.units;
  timestamp = now;
  filled_units = reply.filled_units;
  fill_price = reply.fill_price;
}

abbrev accept_ack : Ack → Result Ack
accept_ack ack = if is_rejected ack.status then err broker_error else ok ack

-- `MT5RemoteAdapter.send_order`: the request is made only when the guard of live capital holds.
unfoldable pub remote_send :
    {W : Type 0}
    → (OrderIntent → W → Result Reply × W)
    → Adapter
    → Bool
    → DateTime
    → OrderIntent
    → W
    → Result Ack × W
unfolding map_status
remote_send request adapter connected now intent w =
    if not connected then (err connection_error, w) else elim (verify_live_capital_guard adapter) [
      | err e ↦ (err e, w)
      | ok _ ↦
          let (reply, w') = request intent w in
          (elim reply [ err e ↦ err e | ok r ↦ accept_ack (ack_of intent now r) ], w')
    ]

-- What the registry calls of its adapters, each named by its account.
pub record Adapters (W : Type 0) : Type 0 where
  pub is_connected : Text → W → Bool
  pub send : Text → OrderIntent → W → Result Ack × W
  pub cancel : Text → Text → W → Result Bool × W

pub record Registry : Type 0 where
  pub default_execution_mode : Text
  pub specs : Dict AccountSpec

-- The account is registered together with an adapter for it.
unfoldable pub register : AccountSpec → Registry → Registry
register spec r = record r { specs = insert spec.account_id spec r.specs }

unfoldable pub require_spec : Text → Registry → Result AccountSpec
require_spec account_id r = or_raise (lookup account_id r.specs) broker_error

-- The order of the candidates: by priority, then by account.
abbrev pub precedes : AccountSpec → AccountSpec → Bool
precedes a b =
    if ltb_ℤ a.priority b.priority
    then true
    else if ltb_ℤ b.priority a.priority
    then false
    else not (text_lt b.account_id a.account_id)

unfoldable pub insert_spec : AccountSpec → List AccountSpec → List AccountSpec
insert_spec a [] = a ∷ []
insert_spec a (b ∷ bs) =
    let rest = insert_spec a bs in if precedes a b then a ∷ b ∷ bs else b ∷ rest

abbrev pub is_eligible : Text → AccountSpec → Bool
is_eligible mode spec = text_eq (mode_value spec.mode) mode && spec.enabled

unfoldable pub eligible : Text → List AccountSpec → List AccountSpec
unfolding insert_spec
eligible mode [] = []
eligible mode (spec ∷ specs) =
    let rest = eligible mode specs in if is_eligible mode spec then insert_spec spec rest else rest

abbrev pub or_default : Option Text → Text → Text
or_default none other = other
or_default (some []) other = other
or_default (some (c ∷ cs)) other = c ∷ cs

-- `_candidates`: a named account is the only one, an empty name counts as none.
unfoldable pub candidates : Option Text → Option Text → Registry → Result (List AccountSpec)
unfolding eligible
candidates mode (some (c ∷ cs)) r = require_spec (c ∷ cs) r >>= λ spec. ok (spec ∷ [])
candidates mode _ r =
    ok (eligible (upper (or_default mode r.default_execution_mode)) (values r.specs))

module _ {W : Type 0} (adapters : Adapters W) where
  -- The loop over the candidates: the first that accepts the order ends it.
  unfoldable pub try_routes : OrderIntent → List AccountSpec → W → Result (Text × Ack) × W
  try_routes intent [] w = (err no_route_available, w)
  try_routes intent (spec ∷ specs) w =
      if not (adapters.is_connected spec.account_id w)
      then try_routes intent specs w
      else (let (answer, w') = adapters.send spec.account_id intent w in
          elim answer [
            | ok ack ↦ (ok (spec.account_id, ack), w')
            | err e ↦ try_routes intent specs w'
          ])

  unfoldable pub send_order :
      Option Text → Option Text → Registry → OrderIntent → W → Result (Text × Ack) × W
  unfolding candidates try_routes
  send_order mode account_id r intent w = elim (candidates mode account_id r) [
    | err e ↦ (err e, w)
    | ok specs ↦ try_routes intent specs w
  ]

  unfoldable pub cancel : Registry → Text → Text → W → Bool × W
  cancel r order_id account_id w = elim (lookup account_id r.specs) [
    | none ↦ (false, w)
    | some spec ↦
        if not (adapters.is_connected account_id w)
        then (false, w)
        else (let (answer, w') = adapters.cancel account_id order_id w in
            (elim answer [ ok done ↦ done | err e ↦ false ], w'))
  ]

  -- The registry as what the execution service calls.
  abbrev pub registry_gateway : Option Text → Option Text → Registry → Gateway W
  registry_gateway mode account_id r = record {
    send_order = send_order mode account_id r;
    cancel = cancel r;
  }
