-- ===== src/Reconciliation/Freeze.antt =====
-- A breach stops trading.
use forex_platform.Domain.Orders.{OrderIntent}
use forex_platform.Reconciliation.{
  BrokerPosition, Observation, Reconciler, leg_of_position, leg_of_broker, report_of, enforce,
  reconcile_once, run_round, run_loop,
}
use forex_platform.Reconciliation.Nets.{total}
use forex_platform.Reconciliation.Verdict.{report_of-clean}
use forex_platform.Risk.Breaker.{CircuitBreaker}
use forex_platform.Risk.Firewall.{evaluate_order, kill_query}
use forex_platform.Risk.Quotes.{Firewall, Request}
use forex_platform.Risk.Firewall.Gates.{evaluate_order_approved}
use forex_platform.Risk.KillSwitch.{KillSwitch, KillQuery, is_killed, arm_global}
use forex_platform.Prelude.{
  Error, true, false, List, [], ◌∷◌, ◌++◌, map, Text, ok, err, ◌≡◌, ◌≢◌, ◌⊎◌, inl, inr, Bool-cases,
  arith,
}

-- The broker fails to answer, or the ledgers differ in a symbol.
abbrev pub IsBreach : Observation → Type 0
IsBreach o =
    ((e : Error) × (o.broker_positions ≡ err e))
    ⊎ ((ps : List BrokerPosition) × (k : Text) × (o.broker_positions ≡ ok ps)
        × (total k (map leg_of_position o.oms_positions) ≢ total k (map leg_of_broker ps)))

run_round-breach :
    (o : Observation) (r : Reconciler)
    → IsBreach o
    → (run_round o r).kill_switch.global_killed ≡ true
unfolding run_round reconcile_once enforce arm_global
run_round-breach o r (inl (e, failed)) = ground arith
run_round-breach o r (inr (ps, k, answered, differ)) =
    let oms = map leg_of_position o.oms_positions in
    let broker = map leg_of_broker ps in
    elim (Bool-cases (report_of o.now oms broker).is_clean) [
      | inl clean ↦ absurd (differ ((report_of-clean o.now oms broker).0 clean k))
      | inr broken ↦ ground arith
    ]

run_round-keeps :
    (o : Observation) (r : Reconciler)
    → r.kill_switch.global_killed ≡ true
    → (run_round o r).kill_switch.global_killed ≡ true
unfolding run_round reconcile_once enforce arm_global
run_round-keeps o r h = ground arith

run_loop-keeps :
    (os : List Observation) (r : Reconciler)
    → r.kill_switch.global_killed ≡ true
    → (run_loop os r).kill_switch.global_killed ≡ true
unfolding run_loop
run_loop-keeps [] r h = h
run_loop-keeps (o ∷ os) r h = run_loop-keeps os (run_round o r) (run_round-keeps o r h)

run_loop-breach :
    (before after : List Observation) (o : Observation) (r : Reconciler)
    → IsBreach o
    → (run_loop (before ++ o ∷ after) r).kill_switch.global_killed ≡ true
unfolding run_loop
run_loop-breach [] after o r breach =
    run_loop-keeps after (run_round o r) (run_round-breach o r breach)
run_loop-breach (p ∷ before) after o r breach =
    run_loop-breach before after o (run_round p r) breach

globally_killed :
    (q : KillQuery) (s : KillSwitch) → s.global_killed ≡ true → (is_killed q s).0 ≡ true
unfolding is_killed
globally_killed q s h = ground arith

-- Once a round of the daemon finds that the ledgers differ in a symbol, or gets no answer from the broker,
-- the firewall approves no order, whatever later rounds find.
pub breach_freezes :
    (before after : List Observation) (o : Observation) (r : Reconciler) (f : Firewall)
    (request : Request) (intent : OrderIntent) (cb : CircuitBreaker)
    → IsBreach o
    → (evaluate_order f request intent (run_loop (before ++ o ∷ after) r).kill_switch cb).0.approved
      ≡ false
breach_freezes before after o r f request intent cb breach =
    let ks = (run_loop (before ++ o ∷ after) r).kill_switch in
    let killed =
      globally_killed (kill_query request intent) ks (run_loop-breach before after o r breach) in
    elim (Bool-cases (evaluate_order f request intent ks cb).0.approved) [
      | inr refused ↦ refused
      | inl passed ↦
          let alive = (evaluate_order_approved f request intent ks cb passed).alive in
          absurd (ground arith)
    ]
