-- ===== src/Production/Service/Clearance.antt =====
-- Nothing reaches a broker that was not cleared.
use forex_platform.Domain.Orders.{OrderIntent}
use forex_platform.Orders.Oms.Valuation.{get_open_positions}
use forex_platform.Production.Kernel.{Kernel, is_approved, evaluate}
use forex_platform.Production.Kernel.Gates.{Admitted, evaluate_approved}
use forex_platform.Production.Service.{Gateway, World, submit_intent}
use forex_platform.Risk.Quotes.{Request}
use forex_platform.Prelude.{◌⊎◌, ◌≡◌, ◌≢◌, Bool-cases, Result-cases, inl, inr, arith}
use forex_platform.Time.{DateTime}

pub submit_intent-cases :
    {B : Type 0} (g : Gateway B) (k : Kernel) (intent : OrderIntent) (r : Request) (now : DateTime)
    (w : World B)
    → Admitted k intent (record r { current_time = now }) (get_open_positions w.oms) w.oms
      ⊎ ((submit_intent g k intent r now w).2.broker ≡ w.broker)
unfolding submit_intent
submit_intent-cases g k intent r now w =
    let positions = get_open_positions w.oms in
    let at = record r { current_time = now } in
    elim (Result-cases (evaluate k intent at positions w.oms).0) [
      | inr (x, raised) ↦ inr (ground arith)
      | inl (d, decided) ↦ elim (Bool-cases (is_approved d)) [
        | inr refused ↦ inr (ground arith)
        | inl approved ↦ inl (evaluate_approved k intent at positions w.oms d decided approved)
      ]
    ]

-- If a submitted intent changes the state of the brokers in any way, the kernel and the firewall have admitted
-- it, at the time of the submission and with the open positions of the system.
pub submit_intent-Admitted :
    {B : Type 0} (g : Gateway B) (k : Kernel) (intent : OrderIntent) (r : Request) (now : DateTime)
    (w : World B)
    → (submit_intent g k intent r now w).2.broker ≢ w.broker
    → Admitted k intent (record r { current_time = now }) (get_open_positions w.oms) w.oms
submit_intent-Admitted g k intent r now w changed = elim (submit_intent-cases g k intent r now w) [
  | inl admitted ↦ admitted
  | inr same ↦ absurd (changed same)
]
