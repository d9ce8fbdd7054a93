-- ===== src/Orders/Oms/Accounts.antt =====
-- The balance of the account is that of the closed positions.
use forex_platform.Decimal
use forex_platform.Decimal.{Decimal}
use forex_platform.Domain.Orders.{OrderIntent, ExecutionOrder, Fill}
use forex_platform.Domain.Position.{Position, apply_fill}
use forex_platform.Orders.Lifecycle.{OrderLifecycleState}
use forex_platform.Orders.Oms.Calls.{
  Call, submit, acknowledge, fill, cancel, mark_unknown, quote, inject, after_call, after_calls,
  after_calls-keeps,
}
use forex_platform.Orders.Oms.State.{
  Oms, new, handle_alert, on_reconciliation_alert, move_machine, update_order,
}
use forex_platform.Orders.Oms.Submission.{
  request_of, dampen, record_order, record_orders, route_approved, submit_intent, acknowledge_order,
}
use forex_platform.Orders.Oms.Filling.{
  net_realized, rate_of, fill_order, is_completed, settle_position, attribute_fill, advance_filled,
  process_fill, cancel_order, mark_order_unknown,
}
use forex_platform.Orders.Oms.Valuation.{update_quotes, inject_position}
use forex_platform.Orders.Router.{Ref, Router, route_intent}
use forex_platform.Risk.Breaker.{CircuitBreaker}
use forex_platform.Risk.Firewall.{evaluate_order}
use forex_platform.Risk.Quotes.{Firewall, Request, RiskDecision}
use forex_platform.Risk.KillSwitch.{KillSwitch}
use forex_platform.Prelude.{
  Bool, List, [], ◌∷◌, foldl, foldl-append, get_elem?, set, insert, clean_symbol, Text, codes,
  lookup, ◌≡◌, refl, ◌∙◌, inl, inr, Result-cases, Option-cases, arith,
}
use forex_platform.Time.{DateTime}

-- The account of a state.
abbrev pub Account : Type 0
Account = Decimal × Decimal × List Position

abbrev account : Oms → Account
account s = (s.initial_balance, s.balance, s.closed_positions)

abbrev pub add_net : Decimal → Position → Decimal
add_net b p = Decimal.add b (net_realized p)

-- The balance is the initial balance with the net result of each closed position added in turn.
abbrev pub IsBooked : Oms → Type 0
IsBooked s = s.balance ≡ foldl add_net s.initial_balance s.closed_positions

move_machine-account :
    (id : Text) (target : OrderLifecycleState) (t : DateTime) (reason : Text) (s : Oms)
    → account (move_machine id target t reason s).1 ≡ account s
unfolding move_machine handle_alert on_reconciliation_alert
move_machine-account id target t reason s = ground arith

update_order-account :
    (ref : Ref) (f : ExecutionOrder → ExecutionOrder) (s : Oms)
    → account (update_order ref f s) ≡ account s
unfolding update_order
update_order-account ref f s = ground arith

acknowledge_order-account :
    (id : Text) (t : DateTime) (s : Oms) → account (acknowledge_order id t s).1 ≡ account s
unfolding acknowledge_order move_machine handle_alert on_reconciliation_alert update_order
acknowledge_order-account id t s = ground arith

cancel_order-account :
    (id : Text) (t : DateTime) (reason : Text) (s : Oms)
    → account (cancel_order id t reason s).1 ≡ account s
unfolding cancel_order move_machine handle_alert on_reconciliation_alert update_order
cancel_order-account id t reason s = ground arith

mark_order_unknown-account :
    (id : Text) (t : DateTime) (reason : Text) (s : Oms)
    → account (mark_order_unknown id t reason s).1 ≡ account s
unfolding mark_order_unknown move_machine handle_alert on_reconciliation_alert update_order
mark_order_unknown-account id t reason s = ground arith

record_order-account :
    (ref : Ref) (now t : DateTime) (s : Oms) → account (record_order ref now t s) ≡ account s
unfolding record_order update_order
record_order-account ref now t s = ground arith

record_orders-account :
    (refs : List Ref) (now t : DateTime) (s : Oms)
    → account (record_orders refs now t s) ≡ account s
unfolding record_orders record_order update_order
record_orders-account [] now t s = refl
record_orders-account (ref ∷ refs) now t s =
    record_orders-account refs now t (record_order ref now t s) ∙ record_order-account ref now t s

route_approved-account :
    (intent : OrderIntent) (d : RiskDecision) (now t : DateTime) (s : Oms)
    → account (route_approved intent d now t s).1 ≡ account s
unfolding route_approved
route_approved-account intent d now t s = elim (Result-cases (dampen intent d.sizing_multiplier)) [
  | inr (x, raised) ↦ ground arith
  | inl (adjusted, sized) ↦
      let routed = route_intent (codes "PAPER_ENGINE") now adjusted s.router s.heap in
      let at_route = record s { router = routed.1; heap = routed.2 } in
      elim (Result-cases routed.0) [
        | inr (x, raised) ↦ ground arith
        | inl (refs, made) ↦ ground (arith, record_orders-account refs now t at_route)
      ]
]

submit_intent-account :
    (intent : OrderIntent) (r : Request) (now : DateTime) (s : Oms)
    → account (submit_intent intent r now s).1 ≡ account s
unfolding submit_intent route_approved
submit_intent-account intent r now s = ground (
  arith,
  route_approved-account intent
      (evaluate_order s.firewall (request_of r) intent s.kill_switch s.circuit_breaker).0 now
      r.current_time
      (record s {
        circuit_breaker =
            (evaluate_order s.firewall (request_of r) intent s.kill_switch s.circuit_breaker).1;
      }),
)

advance_filled-account :
    (f : Fill) (ref : Ref) (completed : Bool) (s : Oms)
    → account (advance_filled f ref completed s).1 ≡ account s
unfolding advance_filled move_machine handle_alert on_reconciliation_alert update_order
advance_filled-account f ref completed s = ground arith

settle_position-IsBooked :
    (symbol : Text) (p : Position) (s : Oms) → IsBooked s → IsBooked (settle_position symbol p s)
unfolding settle_position
settle_position-IsBooked symbol p s h =
    ground (arith, foldl-append {0, 0} add_net s.initial_balance s.closed_positions (p ∷ []))

attribute_fill-IsBooked : (f : Fill) (s : Oms) → IsBooked s → IsBooked (attribute_fill f s).1
unfolding attribute_fill
attribute_fill-IsBooked f s h = elim (Option-cases (lookup f.symbol s.open_positions)) [
  | inl fresh ↦ ground arith
  | inr (p, held) ↦
      let (applied, p') =
        apply_fill p f (rate_of (lookup (clean_symbol f.symbol) s.latest_quotes)) in
      elim (Result-cases applied) [
        | inr (x, raised) ↦ ground arith
        | inl (done, fits) ↦ ground (arith, settle_position-IsBooked f.symbol p' s h)
      ]
]

-- The account alone decides.
IsBooked-account : (s s' : Oms) → account s' ≡ account s → IsBooked s → IsBooked s'
IsBooked-account s s' same h = ground arith

process_fill-IsBooked : (f : Fill) (s : Oms) → IsBooked s → IsBooked (process_fill f s).1
unfolding process_fill
process_fill-IsBooked f s h = elim (Option-cases (lookup f.order_id s.orders)) [
  | inl missing ↦ ground arith
  | inr (ref, known) ↦ elim (Option-cases (get_elem? s.heap ref)) [
    | inl missing ↦ ground arith
    | inr (o, found) ↦ elim (Option-cases (lookup f.order_id s.state_machines)) [
      | inl missing ↦ ground arith
      | inr (m, machine) ↦
          let noted = record s {
            fills = insert f.fill_id f s.fills;
            heap = set s.heap ref (fill_order f o);
          } in
          let (advanced, s') = advance_filled f ref (is_completed f o) noted in
          let booked =
            IsBooked-account noted s' (advance_filled-account f ref (is_completed f o) noted) h in
          elim (Result-cases advanced) [
            | inr (x, raised) ↦ ground arith
            | inl (done, moved) ↦ ground (arith, attribute_fill-IsBooked f s' booked)
          ]
    ]
  ]
]

after_call-IsBooked : (c : Call) (s : Oms) → IsBooked s → IsBooked (after_call c s)
unfolding after_call
after_call-IsBooked (submit intent r now) s h =
    IsBooked-account s (submit_intent intent r now s).1 (submit_intent-account intent r now s) h
after_call-IsBooked (acknowledge id t) s h =
    IsBooked-account s (acknowledge_order id t s).1 (acknowledge_order-account id t s) h
after_call-IsBooked (fill f) s h = process_fill-IsBooked f s h
after_call-IsBooked (cancel id t reason) s h =
    IsBooked-account s (cancel_order id t reason s).1 (cancel_order-account id t reason s) h
after_call-IsBooked (mark_unknown id t reason) s h =
    IsBooked-account s (mark_order_unknown id t reason s).1
      (mark_order_unknown-account id t reason s) h
after_call-IsBooked (quote symbol bid ask rate) s h = unfold update_quotes in ground arith
after_call-IsBooked (inject p) s h = unfold inject_position in h

-- After any sequence of calls on a new system, calls that raise included, the balance is the initial
-- balance with the realized result less the commission of each closed position added, in the order in which
-- they closed.
pub balance-IsBooked :
    (cs : List Call) (f : Firewall) (cb : CircuitBreaker) (ks : KillSwitch) (router : Router)
    (initial : Decimal)
    → IsBooked (after_calls cs (new f cb ks router initial))
balance-IsBooked cs f cb ks router initial =
    after_calls-keeps IsBooked after_call-IsBooked cs (new f cb ks router initial)
      (unfold new in refl)
