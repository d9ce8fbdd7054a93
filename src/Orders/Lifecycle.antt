-- ===== src/Orders/Lifecycle.antt =====
-- `OrderStateMachine` of forex_platform/order_management/state_machine.py. The callback of the
-- machine is its caller's: a transition returns the alert that it emits.
pub mod History
use forex_platform.Prelude.{
  if◌then◌else◌, Bool, true, false, not, Option, none, some, List, [], ◌∷◌, ◌++◌, Text, codes,
  Result, ok, err, illegal_transition,
}
use forex_platform.Time.{DateTime, assume_utc}

pub data OrderLifecycleState : Type 0 where
  created risk_checked submitted acked partially_filled filled rejected : OrderLifecycleState
  cancelled expired failed unknown : OrderLifecycleState

pub OrderLifecycleState-discrete : Discrete OrderLifecycleState
OrderLifecycleState-discrete = hlevel

-- Equality of states, by their places in the enumeration.
unfoldable pub state_eq : OrderLifecycleState → OrderLifecycleState → Bool
state_eq created created = true
state_eq risk_checked risk_checked = true
state_eq submitted submitted = true
state_eq acked acked = true
state_eq partially_filled partially_filled = true
state_eq filled filled = true
state_eq rejected rejected = true
state_eq cancelled cancelled = true
state_eq expired expired = true
state_eq failed failed = true
state_eq unknown unknown = true
state_eq _ _ = false

-- `target in LEGAL_TRANSITIONS[state]`
unfoldable pub is_legal : OrderLifecycleState → OrderLifecycleState → Bool
is_legal created risk_checked = true
is_legal created rejected = true
is_legal created failed = true
is_legal risk_checked submitted = true
is_legal risk_checked rejected = true
is_legal risk_checked cancelled = true
is_legal risk_checked failed = true
is_legal submitted acked = true
is_legal submitted partially_filled = true
is_legal submitted filled = true
is_legal submitted rejected = true
is_legal submitted failed = true
is_legal submitted unknown = true
is_legal acked partially_filled = true
is_legal acked filled = true
is_legal acked cancelled = true
is_legal acked expired = true
is_legal acked failed = true
is_legal acked unknown = true
is_legal partially_filled partially_filled = true
is_legal partially_filled filled = true
is_legal partially_filled cancelled = true
is_legal partially_filled expired = true
is_legal partially_filled unknown = true
is_legal unknown filled = true
is_legal unknown cancelled = true
is_legal unknown failed = true
is_legal _ _ = false

-- `state in TERMINAL_STATES`
abbrev pub is_terminal_state : OrderLifecycleState → Bool
is_terminal_state filled = true
is_terminal_state rejected = true
is_terminal_state cancelled = true
is_terminal_state expired = true
is_terminal_state failed = true
is_terminal_state _ = false

pub record ReconciliationAlert : Type 0 where
  pub order_id : Text
  pub symbol : Text
  pub previous_state : OrderLifecycleState
  pub timestamp : DateTime
  pub reason : Text

pub record Entry : Type 0 where
  pub state : OrderLifecycleState
  pub timestamp : DateTime
  pub reason : Text

pub record OrderStateMachine : Type 0 where
  pub order_id : Text
  pub symbol : Text
  pub current_state : OrderLifecycleState
  pub state_history : List Entry

-- `__init__`; `now` is the time at which the machine is made.
unfoldable pub new : Text → Text → OrderLifecycleState → DateTime → OrderStateMachine
new order_id symbol initial_state now = record {
  order_id = order_id;
  symbol = symbol;
  current_state = initial_state;
  state_history =
      record { state = initial_state; timestamp = now; reason = codes "Initialization" } ∷ [];
}

unfoldable pub is_terminal : OrderStateMachine → Bool
is_terminal m = is_terminal_state m.current_state

abbrev pub reason_or_default : Text → Text
reason_or_default [] = codes "Order entered UNKNOWN state (possible connection/broker timeout)"
reason_or_default (c ∷ s) = c ∷ s

unfoldable pub alert_for :
    OrderStateMachine → OrderLifecycleState → DateTime → Text → Option ReconciliationAlert
alert_for m unknown timestamp reason = some (record {
  order_id = m.order_id;
  symbol = m.symbol;
  previous_state = m.current_state;
  timestamp = timestamp;
  reason = reason_or_default reason;
})
alert_for m _ timestamp reason = none

-- The result is the alert, if the transition emits one.
unfoldable pub transition_to :
    OrderLifecycleState
    → DateTime
    → Text
    → OrderStateMachine
    → Result (Option ReconciliationAlert) × OrderStateMachine
unfolding is_legal alert_for
transition_to target timestamp reason m =
    let utc = assume_utc timestamp in
    if state_eq m.current_state target
    then (ok none, m)
    else if not (is_legal m.current_state target)
    then (err illegal_transition, m)
    else (
      ok (alert_for m target utc reason),
      record m {
        current_state = target;
        state_history =
            m.state_history ++ record { state = target; timestamp = utc; reason = reason } ∷ [];
      },
    )
