-- ===== src/Orders/Oms/State.antt =====
-- The state of `OrderManagementSystem` of forex_platform/order_management/oms.py, its alert handler,
-- and the writes to its machines and orders that its methods share.
use forex_platform.Decimal.{Decimal}
use forex_platform.Domain.Kinds.{OrderStatus}
use forex_platform.Domain.Orders.{ExecutionOrder, Fill}
use forex_platform.Domain.Position.{Position}
use forex_platform.Orders.Lifecycle.{
  OrderStateMachine, OrderLifecycleState, ReconciliationAlert, transition_to,
}
use forex_platform.Orders.Router.{Router, Ref, Heap}
use forex_platform.Risk.Breaker.{CircuitBreaker}
use forex_platform.Risk.Quotes.{Firewall}
use forex_platform.Risk.KillSwitch.{KillSwitch, arm_pair}
use forex_platform.Prelude.{
  ◌++◌, Option, none, some, List, [], ◌∷◌, get_elem?, set, Text, codes, Dict, lookup, insert,
  Result, ok, err, key_error,
}
use forex_platform.Time.{DateTime}

pub record Quote : Type 0 where
  pub bid : Decimal
  pub ask : Decimal
  pub quote_to_account_rate : Decimal

pub record Oms : Type 0 where
  pub firewall : Firewall
  pub circuit_breaker : CircuitBreaker  -- the firewall's
  pub kill_switch : KillSwitch
  pub router : Router
  pub heap : Heap  -- the order objects that the router and the system share
  pub initial_balance : Decimal
  pub balance : Decimal
  pub orders : Dict Ref
  pub state_machines : Dict OrderStateMachine
  pub open_positions : Dict Position
  pub closed_positions : List Position
  pub fills : Dict Fill
  pub latest_quotes : Dict Quote
  pub alerts : List ReconciliationAlert

-- A method of the system.
abbrev pub Method : Type 0 → Type 0
Method A = Oms → Result A × Oms

-- `__init__`
unfoldable pub new : Firewall → CircuitBreaker → KillSwitch → Router → Decimal → Oms
new firewall circuit_breaker kill_switch router initial_balance = record {
  firewall = firewall;
  circuit_breaker = circuit_breaker;
  kill_switch = kill_switch;
  router = router;
  heap = [];
  initial_balance = initial_balance;
  balance = initial_balance;
  orders = [];
  state_machines = [];
  open_positions = [];
  closed_positions = [];
  fills = [];
  latest_quotes = [];
  alerts = [];
}

-- `_on_reconciliation_alert`
unfoldable pub on_reconciliation_alert : ReconciliationAlert → Oms → Oms
on_reconciliation_alert alert s = record s {
  alerts = s.alerts ++ alert ∷ [];
  kill_switch =
      arm_pair alert.symbol
        (codes "UNKNOWN order " ++ (alert.order_id ++ codes " triggered pair lock")) s.kill_switch;
}

unfoldable pub handle_alert : Option ReconciliationAlert → Oms → Oms
unfolding on_reconciliation_alert
handle_alert none s = s
handle_alert (some alert) s = on_reconciliation_alert alert s

-- `self._state_machines[order_id].transition_to(…)`
unfoldable pub move_machine : Text → OrderLifecycleState → DateTime → Text → Method (Unit {0})
unfolding handle_alert
move_machine order_id target timestamp reason s = elim (lookup order_id s.state_machines) [
  | none ↦ (err key_error, s)
  | some m ↦
      let (outcome, m') = transition_to target timestamp reason m in
      elim outcome [
        | err e ↦ (err e, s)
        | ok alert ↦ (
          ok tt,
          handle_alert alert (record s { state_machines = insert order_id m' s.state_machines }),
        )
      ]
]

-- A write to a shared order object.
unfoldable pub update_order : Ref → (ExecutionOrder → ExecutionOrder) → Oms → Oms
update_order ref f s = elim (get_elem? s.heap ref) [
  | none ↦ s
  | some o ↦ record s { heap = set s.heap ref (f o) }
]

abbrev pub with_status : OrderStatus → ExecutionOrder → ExecutionOrder
with_status status o = record o { status = status }
