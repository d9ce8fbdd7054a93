-- ===== src/Tests/Orders.antt =====
-- Examples for the order state machine and the slices of forex_platform/order_management/.
use forex_platform.Orders.Lifecycle
use forex_platform.Orders.Lifecycle.{
  OrderLifecycleState, alert_for, OrderStateMachine, ReconciliationAlert, created, risk_checked,
  submitted, filled, unknown, is_legal, is_terminal, state_eq, transition_to,
}
use forex_platform.Orders.Lifecycle.History.{
  Request, serve_all, IsWalk, visited, after_submission, serve_all_records, granted, alerted,
  alerts, record_of, is_granted, serve_all-IsWalk, submission_precedes,
}
use forex_platform.Orders.Router.Slices.{slice_sizes, sum, slice_sizes_sound}
use forex_platform.Prelude.{
  map, ◌++◌, ◌+◌, ◌*◌, ◌<◌, ◌≤◌, true, List, [], ◌∷◌, codes, length, All, ◌≡◌, refl,
}
use forex_platform.Tests.Data.{noon}

abbrev fresh : OrderStateMachine
fresh = record {
  order_id = codes "O1";
  symbol = codes "EURUSD";
  current_state = created;
  state_history =
      record { state = created; timestamp = noon; reason = codes "Initialization" } ∷ [];
}

abbrev ask_for : OrderLifecycleState → Request
ask_for target = record { target = target; timestamp = noon; reason = codes "asked" }

abbrev route : List Request
route = ask_for risk_checked ∷ ask_for submitted ∷ ask_for unknown ∷ ask_for filled ∷ []

serve_all_records_example :
    ((serve_all route fresh).state_history
      ≡ fresh.state_history ++ map record_of (granted created route))
    × (alerts route fresh ≡ alerted (codes "O1") (codes "EURUSD") created route)
serve_all_records_example = serve_all_records route fresh

-- The route is granted whole, with one alert.
route-granted : granted created route ≡ route
unfolding is_granted is_legal state_eq
route-granted = refl

abbrev done : OrderStateMachine
done = record fresh { current_state = filled }

done_terminal : is_terminal done ≡ true
unfolding is_terminal
done_terminal = refl

abbrev doubtful : OrderStateMachine
doubtful = record fresh { current_state = unknown }

serve_all-IsWalk_example :
    IsWalk (serve_all route (Lifecycle.new (codes "O1") (codes "EURUSD") created noon))
serve_all-IsWalk_example = serve_all-IsWalk route (codes "O1") (codes "EURUSD") created noon

abbrev routed : OrderStateMachine
routed = serve_all route (Lifecycle.new (codes "O1") (codes "EURUSD") created noon)

routed_late : after_submission routed.current_state ≡ true
unfolding serve_all transition_to state_eq is_legal alert_for Lifecycle.new
routed_late = refl

submission_precedes_example :
    (visited risk_checked routed.state_history ≡ true)
    × (visited submitted routed.state_history ≡ true)
submission_precedes_example =
    submission_precedes route (codes "O1") (codes "EURUSD") noon routed_late

slice_sizes_sound_example :
    (sum (slice_sizes 1200000) ≡ 1200000)
    × All (λ c. (1 ≤ c) × (c ≤ 500000)) (slice_sizes 1200000)
    × (length (slice_sizes 1200000) * 500000 < 1200000 + 500000)
slice_sizes_sound_example = slice_sizes_sound 1200000
