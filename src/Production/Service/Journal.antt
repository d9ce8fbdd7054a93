-- ===== src/Production/Service/Journal.antt =====
-- The order of what a submission writes and sends.
use forex_platform.Domain.Kinds.{OrderStatus}
use forex_platform.Domain.Orders.{OrderIntent, ExecutionOrder}
use forex_platform.Orders.Oms.Submission
use forex_platform.Orders.Oms.Valuation.{get_open_positions}
use forex_platform.Orders.Router.{Ref}
use forex_platform.Production.Kernel.{Kernel, is_approved, evaluate}
use forex_platform.Production.Service.{
  Oms, Ack, Event, persisted, sent, fill_stored, audited, Gateway, World, child_intent, ack_fill,
  settle_ack, route_child, route_children, submit_intent,
}
use forex_platform.Risk.Quotes.{Request}
use forex_platform.Prelude.{
  Bool, true, false, ◌&&◌, Option, none, some, List, [], ◌∷◌, ◌++◌, get_elem?, Text, text_eq,
  text_eq_refl, ◌≡◌, refl, Bool-cases, Option-cases, Result-cases, inl, inr, arith, codes,
}
use forex_platform.Time.{DateTime}

-- The pending order that an event leaves to be sent next.
abbrev pending_of : Text → OrderStatus → Option Text
pending_of id OrderStatus.pending = some id
pending_of id _ = none

abbrev names : Option Text → Option Text → Bool
names none tag = false
names (some id) none = false
names (some id) (some tag) = text_eq id tag

-- Each order that is sent has been stored as pending, under its client tag, just before.
abbrev pub journaled : Option Text → List Event → Bool
journaled last [] = true
journaled last (persisted id status ∷ es) = journaled (pending_of id status) es
journaled last (sent child ∷ es) = names last child.client_tag && journaled none es
journaled last (fill_stored fill ∷ es) = journaled none es
journaled last (audited action ∷ es) = journaled none es

journaled-later :
    (last : Option Text) (es : List Event) → journaled none es ≡ true → journaled last es ≡ true
journaled-later last [] h = refl
journaled-later last (persisted id status ∷ es) h = h
journaled-later last (sent child ∷ es) h = cc
journaled-later last (fill_stored fill ∷ es) h = h
journaled-later last (audited action ∷ es) h = h

journaled-append :
    (last : Option Text) (es fs : List Event)
    → journaled last es ≡ true
    → journaled none fs ≡ true
    → journaled last (es ++ fs) ≡ true
journaled-append last [] fs h k = journaled-later last fs k
journaled-append last (persisted id status ∷ es) fs h k =
    journaled-append (pending_of id status) es fs h k
journaled-append last (sent child ∷ es) fs h k = ground (arith, journaled-append none es fs)
journaled-append last (fill_stored fill ∷ es) fs h k = journaled-append none es fs h k
journaled-append last (audited action ∷ es) fs h k = journaled-append none es fs h k

settle_ack-journaled :
    (ack : Ack) (ref : Ref) (o : ExecutionOrder) (s : Oms)
    → journaled none ((settle_ack ack ref o s).0 ++ persisted o.order_id ack.status ∷ []) ≡ true
unfolding settle_ack
settle_ack-journaled ack ref o s = elim (Option-cases (ack_fill ack o)) [
  | inl unfilled ↦ ground arith
  | inr (fill, filled) ↦ ground arith
]

module _ {B : Type 0} (g : Gateway B) where
  route_child-journaled :
      (parent : OrderIntent) (now : DateTime) (ref : Ref) (w : World B)
      → journaled none (route_child g parent now ref w).1 ≡ true
  unfolding route_child child_intent
  route_child-journaled parent now ref w = elim (Option-cases (get_elem? w.oms.heap ref)) [
    | inl missing ↦ ground arith
    | inr (o, found) ↦
        let (answer, broker) = g.send_order (child_intent o parent now) w.broker in
        elim (Result-cases answer) [
          | inr (x, raised) ↦ ground (arith, text_eq_refl o.order_id)
          | inl ((account, ack), got) ↦
              ground (arith, text_eq_refl o.order_id, settle_ack-journaled ack ref o w.oms)
        ]
  ]

  route_children-journaled :
      (parent : OrderIntent) (now : DateTime) (refs : List Ref) (w : World B)
      → journaled none (route_children g parent now refs w).1 ≡ true
  unfolding route_children
  route_children-journaled parent now [] w = refl
  route_children-journaled parent now (ref ∷ refs) w =
      let next = route_child g parent now ref w in
      journaled-append none next.1 (route_children g parent now refs next.2).1
        (route_child-journaled parent now ref w) (route_children-journaled parent now refs next.2)

-- In what a submission does, in its order, every order that is handed to the brokers has been stored as
-- pending, under the identifier that it is sent with, just before.
pub submit_intent-journaled :
    {B : Type 0} (g : Gateway B) (k : Kernel) (intent : OrderIntent) (r : Request) (now : DateTime)
    (w : World B)
    → journaled none (submit_intent g k intent r now w).1 ≡ true
unfolding submit_intent
submit_intent-journaled g k intent asked now w =
    let r = record asked { current_time = now } in
    let (decision, cb) = evaluate k intent r (get_open_positions w.oms) w.oms in
    let evaluated = record w.oms { circuit_breaker = cb } in
    elim (Result-cases decision) [
      | inr (x, raised) ↦ ground arith
      | inl (d, decided) ↦ elim (Bool-cases (is_approved d)) [
        | inr refused ↦ ground arith
        | inl approved ↦
            let (submitted, oms) = Submission.submit_intent intent r now evaluated in
            elim (Result-cases submitted) [
              | inr (x, raised) ↦ ground arith
              | inl (children, made) ↦
                  let at = record w { oms = oms } in
                  let routed = route_children g intent now children.1 at in
                  ground (
                    arith,
                    journaled-append none routed.1 (audited (codes "execution.submitted") ∷ [])
                        (route_children-journaled g intent now children.1 at) refl,
                  )
            ]
      ]
    ]
