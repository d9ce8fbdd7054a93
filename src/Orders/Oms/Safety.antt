-- ===== src/Orders/Oms/Safety.antt =====
-- A pair that an order of unknown state has locked stays locked for the system's own calls.
use forex_platform.Domain.Orders.{OrderIntent, ExecutionOrder, Fill}
use forex_platform.Orders.Lifecycle
use forex_platform.Orders.Lifecycle.{
  OrderLifecycleState, OrderStateMachine, ReconciliationAlert, alert_for, is_legal, state_eq,
  transition_to,
}
use forex_platform.Orders.Oms.Calls.{
  Call, submit, acknowledge, fill, cancel, mark_unknown, quote, inject, after_call, after_calls,
  after_calls-keeps,
}
use forex_platform.Orders.Oms.State.{
  Oms, handle_alert, on_reconciliation_alert, move_machine, update_order,
}
use forex_platform.Orders.Oms.Submission.{
  request_of, dampen, record_order, record_orders, route_approved, submit_intent, acknowledge_order,
}
use forex_platform.Orders.Oms.Filling.{
  fill_order, is_completed, settle_position, attribute_fill, advance_filled, process_fill,
  cancel_order, mark_order_unknown,
}
use forex_platform.Orders.Oms.Valuation.{update_quotes, inject_position}
use forex_platform.Orders.Router.{Ref, route_intent}
use forex_platform.Risk.Firewall.{evaluate_order, kill_query, sanity_gate}
use forex_platform.Risk.Quotes.{Firewall, Request, RiskDecision, fail, kill_switch_active}
use forex_platform.Risk.Firewall.Verdicts.{evaluate_order_killed}
use forex_platform.Risk.KillSwitch.{KillQuery, is_killed, arm_pair}
use forex_platform.Risk.KillSwitch.Levels.{arm, arm-is_killed, arm_pair_kills, arm_all, pair}
use forex_platform.Prelude.{
  Bool, true, false, if◌then◌else◌, Option, none, some, List, [], ◌∷◌, get_elem?, set, insert,
  clean_symbol, Text, codes, lookup, ok, ◌≡◌, ◌≢◌, refl, inl, inr, Result-cases, Option-cases,
  arith, ◌++◌,
}
use forex_platform.Time.{DateTime}

-- The firewall of a state is the given one, and the query is killed.
abbrev IsLocked : Firewall → KillQuery → Oms → Type 0
IsLocked f q s = (s.firewall ≡ f) × ((is_killed q s.kill_switch).0 ≡ true)

on_reconciliation_alert-IsLocked :
    (f : Firewall) (q : KillQuery) (alert : ReconciliationAlert) (s : Oms)
    → IsLocked f q s
    → IsLocked f q (on_reconciliation_alert alert s)
unfolding on_reconciliation_alert
on_reconciliation_alert-IsLocked f q alert s h = (
  h.0,
  unfold arm in
      arm-is_killed
        (pair alert.symbol
          (codes "UNKNOWN order " ++ (alert.order_id ++ codes " triggered pair lock")))
        q s.kill_switch h.1,
)

handle_alert-IsLocked :
    (f : Firewall) (q : KillQuery) (alert : Option ReconciliationAlert) (s : Oms)
    → IsLocked f q s
    → IsLocked f q (handle_alert alert s)
unfolding handle_alert
handle_alert-IsLocked f q none s h = h
handle_alert-IsLocked f q (some alert) s h = on_reconciliation_alert-IsLocked f q alert s h

module _ (f : Firewall) (q : KillQuery) where
  move_machine-IsLocked :
      (id : Text) (target : OrderLifecycleState) (t : DateTime) (reason : Text) (s : Oms)
      → IsLocked f q s
      → IsLocked f q (move_machine id target t reason s).1
  unfolding move_machine
  move_machine-IsLocked id target t reason s h = elim (Option-cases (lookup id s.state_machines)) [
    | inl missing ↦ ground arith
    | inr (m, known) ↦ elim (Result-cases (transition_to target t reason m).0) [
      | inr (x, raised) ↦ ground arith
      | inl (alert, moved) ↦ ground (
        arith,
        handle_alert-IsLocked f q alert
            (record s {
              state_machines = insert id (transition_to target t reason m).1 s.state_machines;
            })
            h,
      )
    ]
  ]

  update_order-IsLocked :
      (ref : Ref) (g : ExecutionOrder → ExecutionOrder) (s : Oms)
      → IsLocked f q s
      → IsLocked f q (update_order ref g s)
  unfolding update_order
  update_order-IsLocked ref g s h = ground arith

  acknowledge_order-IsLocked :
      (id : Text) (t : DateTime) (s : Oms)
      → IsLocked f q s
      → IsLocked f q (acknowledge_order id t s).1
  unfolding acknowledge_order update_order
  acknowledge_order-IsLocked id t s h =
      ground
        (arith, move_machine-IsLocked id Lifecycle.acked t (codes "Acknowledged by broker") s h)

  cancel_order-IsLocked :
      (id : Text) (t : DateTime) (reason : Text) (s : Oms)
      → IsLocked f q s
      → IsLocked f q (cancel_order id t reason s).1
  unfolding cancel_order update_order
  cancel_order-IsLocked id t reason s h =
      ground (arith, move_machine-IsLocked id Lifecycle.cancelled t reason s h)

  mark_order_unknown-IsLocked :
      (id : Text) (t : DateTime) (reason : Text) (s : Oms)
      → IsLocked f q s
      → IsLocked f q (mark_order_unknown id t reason s).1
  unfolding mark_order_unknown update_order
  mark_order_unknown-IsLocked id t reason s h =
      ground (arith, move_machine-IsLocked id Lifecycle.unknown t reason s h)

  record_orders-IsLocked :
      (refs : List Ref) (now t : DateTime) (s : Oms)
      → IsLocked f q s
      → IsLocked f q (record_orders refs now t s)
  unfolding record_orders
  record_orders-IsLocked [] now t s h = h
  record_orders-IsLocked (ref ∷ refs) now t s h =
      record_orders-IsLocked refs now t (record_order ref now t s)
        (unfold record_order update_order in ground arith)

  route_approved-IsLocked :
      (intent : OrderIntent) (d : RiskDecision) (now t : DateTime) (s : Oms)
      → IsLocked f q s
      → IsLocked f q (route_approved intent d now t s).1
  unfolding route_approved
  route_approved-IsLocked intent d now t s h =
      elim (Result-cases (dampen intent d.sizing_multiplier)) [
        | inr (x, raised) ↦ ground arith
        | inl (adjusted, sized) ↦
            let routed = route_intent (codes "PAPER_ENGINE") now adjusted s.router s.heap in
            let at_route = record s { router = routed.1; heap = routed.2 } in
            elim (Result-cases routed.0) [
              | inr (x, raised) ↦ ground arith
              | inl (refs, made) ↦ ground (arith, record_orders-IsLocked refs now t at_route h)
            ]
      ]

  submit_intent-IsLocked :
      (intent : OrderIntent) (r : Request) (now : DateTime) (s : Oms)
      → IsLocked f q s
      → IsLocked f q (submit_intent intent r now s).1
  unfolding submit_intent
  submit_intent-IsLocked intent r now s h =
      let evaluated =
        evaluate_order s.firewall (request_of r) intent s.kill_switch s.circuit_breaker in
      ground (
        arith,
        route_approved-IsLocked intent evaluated.0 now r.current_time
            (record s { circuit_breaker = evaluated.1 }) h,
      )

  attribute_fill-IsLocked :
      (g : Fill) (s : Oms) → IsLocked f q s → IsLocked f q (attribute_fill g s).1
  unfolding attribute_fill settle_position
  attribute_fill-IsLocked g s h = ground arith

  advance_filled-IsLocked :
      (g : Fill) (ref : Ref) (completed : Bool) (s : Oms)
      → IsLocked f q s
      → IsLocked f q (advance_filled g ref completed s).1
  unfolding advance_filled update_order
  advance_filled-IsLocked g ref completed s h =
      let target = if completed then Lifecycle.filled else Lifecycle.partially_filled in
      let reason = if completed then codes "Filled completely" else codes "Partial fill" in
      ground (arith, move_machine-IsLocked g.order_id target g.timestamp reason s h)

  process_fill-IsLocked : (g : Fill) (s : Oms) → IsLocked f q s → IsLocked f q (process_fill g s).1
  unfolding process_fill
  process_fill-IsLocked g s h = elim (Option-cases (lookup g.order_id s.orders)) [
    | inl missing ↦ ground arith
    | inr (ref, known) ↦ elim (Option-cases (get_elem? s.heap ref)) [
      | inl missing ↦ ground arith
      | inr (o, found) ↦
          let noted = record s {
            fills = insert g.fill_id g s.fills;
            heap = set s.heap ref (fill_order g o);
          } in
          let done = is_completed g o in
          let kept = advance_filled-IsLocked g ref done noted h in
          ground (arith, kept, attribute_fill-IsLocked g (advance_filled g ref done noted).1 kept)
    ]
  ]

  after_call-IsLocked : (c : Call) (s : Oms) → IsLocked f q s → IsLocked f q (after_call c s)
  unfolding after_call
  after_call-IsLocked (submit intent r now) s h = submit_intent-IsLocked intent r now s h
  after_call-IsLocked (acknowledge id t) s h = acknowledge_order-IsLocked id t s h
  after_call-IsLocked (fill g) s h = process_fill-IsLocked g s h
  after_call-IsLocked (cancel id t reason) s h = cancel_order-IsLocked id t reason s h
  after_call-IsLocked (mark_unknown id t reason) s h = mark_order_unknown-IsLocked id t reason s h
  after_call-IsLocked (quote symbol bid ask rate) s h = unfold update_quotes in ground arith
  after_call-IsLocked (inject p) s h = unfold inject_position in h

legal_unknown_ne :
    (c : OrderLifecycleState)
    → is_legal c Lifecycle.unknown ≡ true
    → state_eq c Lifecycle.unknown ≡ false
unfolding is_legal state_eq
legal_unknown_ne c h = ground arith

-- An order of unknown state arms the switch of its pair.
mark_order_unknown-kill_switch :
    (id reason : Text) (t : DateTime) (s : Oms) (ref : Ref) (m : OrderStateMachine)
    → lookup id s.orders ≡ some ref
    → lookup id s.state_machines ≡ some m
    → is_legal m.current_state Lifecycle.unknown ≡ true
    → (why : Text) × ((mark_order_unknown id t reason s).1.kill_switch
        ≡ arm_pair m.symbol why s.kill_switch)
      × ((mark_order_unknown id t reason s).1.firewall ≡ s.firewall)
unfolding mark_order_unknown move_machine transition_to handle_alert on_reconciliation_alert
    alert_for update_order
mark_order_unknown-kill_switch id reason t s ref m known machine legal = (
  codes "UNKNOWN order " ++ (m.order_id ++ codes " triggered pair lock"),
  ground (arith, legal_unknown_ne m.current_state legal),
  ground (arith, legal_unknown_ne m.current_state legal),
)

-- Once an order is marked as unknown, from a state that allows it, every sane intent for a spelling of its
-- pair is refused by the kill switch and creates no order, after any sequence of further calls on the
-- system, calls that raise included.
pub unknown_locks_pair :
    (id reason : Text) (t : DateTime) (s : Oms) (ref : Ref) (m : OrderStateMachine) (cs : List Call)
    (intent : OrderIntent) (r : Request) (now : DateTime)
    → lookup id s.orders ≡ some ref
    → lookup id s.state_machines ≡ some m
    → is_legal m.current_state Lifecycle.unknown ≡ true
    → intent.symbol ≢ []
    → clean_symbol intent.symbol ≡ clean_symbol m.symbol
    → sanity_gate s.firewall intent ≡ none
    → (submit_intent intent r now (after_calls cs (mark_order_unknown id t reason s).1)).0
      ≡ ok (fail 2 kill_switch_active, [])
unfolding submit_intent arm_all
unknown_locks_pair id reason t s ref m cs intent r now known machine legal ne same sane =
    let q = kill_query r intent in
    let marked = (mark_order_unknown id t reason s).1 in
    let (why, arms, keeps) =
      mark_order_unknown-kill_switch id reason t s ref m known machine legal in
    let locked : (is_killed q (arm_pair m.symbol why s.kill_switch)).0 ≡ true =
      arm_pair_kills m.symbol why intent.symbol [] q s.kill_switch refl ne same in
    let (same_firewall, killed) =
      after_calls-keeps (IsLocked s.firewall q) (after_call-IsLocked s.firewall q) cs marked
        (keeps, ground (arith, locked)) in
    let s' = after_calls cs marked in
    ground (
      arith,
      evaluate_order_killed s'.firewall (request_of r) intent s'.kill_switch s'.circuit_breaker
          (ground arith) killed,
    )
