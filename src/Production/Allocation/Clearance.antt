-- ===== src/Production/Allocation/Clearance.antt =====
-- Which targets can reach a broker.
use forex_platform.Domain.Orders.{OrderIntent}
use forex_platform.Orders.Oms.Valuation.{get_open_positions}
use forex_platform.Portfolio.Targets.{AllocationDecision, MarketRegime, TargetPosition, allocate}
use forex_platform.Portfolio.Targets.Bounds.{IsBounded, allocate_bounds}
use forex_platform.Production.Allocation.{
  Options, default_allocator, target_request, current_units, submit_each, submit_targets,
}
use forex_platform.Production.Kernel.{Kernel}
use forex_platform.Production.Kernel.Gates.{Admitted}
use forex_platform.Production.Service.{ExecutionResult, Gateway, World, submit_intent}
use forex_platform.Production.Service.Clearance.{submit_intent-cases}
use forex_platform.Prelude.{
  All, subst, sym, ap, length, ◌++◌, ℕ, ◌+◌, List, [], ◌∷◌, ok, ◌≡◌, ◌≢◌, ◌⊎◌, inl, inr, refl,
  arith, Result-cases,
}
use forex_platform.Time.{DateTime}

module _ {B : Type 0} (g : Gateway B) (k : Kernel) (options : Options) (clock : ℕ → DateTime) where
  -- One of the intents is admitted by the kernel at its reading of the clock, in the world that the submission of
  -- the intents before it left, none of which raised.
  pub record WasAdmitted (tick : ℕ) (intents : List OrderIntent) (w : World B) : Type 0 where
    pub before : List OrderIntent
    pub intent : OrderIntent
    pub after : List OrderIntent
    pub split : intents ≡ before ++ intent ∷ after
    pub results : List ExecutionResult
    pub submitted : (submit_each g k options clock tick before w).0 ≡ ok results
    pub admitted :
        let now = clock (tick + length before) in
        let reached = (submit_each g k options clock tick before w).2 in
        Admitted k intent
          (target_request options intent now)
          (get_open_positions reached.oms)
          reached.oms

  WasAdmitted-first :
      (tick : ℕ) (intent : OrderIntent) (intents : List OrderIntent) (w : World B)
      → Admitted k intent
          (target_request options intent (clock tick))
          (get_open_positions w.oms)
          w.oms
      → WasAdmitted tick (intent ∷ intents) w
  unfolding submit_each
  WasAdmitted-first tick intent intents w admitted =
      let at : tick ≡ tick + 0 = omega arith in
      record {
        before = [];
        intent = intent;
        after = intents;
        split = refl;
        results = [];
        submitted = refl;
        admitted =
            subst
              (λ t.
                Admitted k intent (target_request options intent (clock t))
                  (get_open_positions w.oms) w.oms)
              at admitted;
      }

  WasAdmitted-later :
      (tick : ℕ) (intent : OrderIntent) (intents : List OrderIntent) (w : World B)
      → let next =
          submit_intent g k intent (target_request options intent (clock tick)) (clock tick) w in
        (result : ExecutionResult)
        → next.0 ≡ ok result
        → WasAdmitted (tick + 1) intents next.2
        → WasAdmitted tick (intent ∷ intents) w
  unfolding submit_each
  WasAdmitted-later tick intent intents w result made h =
      let next =
        submit_intent g k intent (target_request options intent (clock tick)) (clock tick) w in
      let later = submit_each g k options clock (tick + 1) h.before next.2 in
      let all = submit_each g k options clock tick (intent ∷ h.before) w in
      let world : all.2 ≡ later.2 = ground arith in
      let at : tick + length (intent ∷ h.before) ≡ tick + 1 + length h.before = omega arith in
      record {
        before = intent ∷ h.before;
        intent = h.intent;
        after = h.after;
        split = ap (λ (is : List OrderIntent). intent ∷ is) h.split;
        results = result ∷ h.results;
        submitted = ground (arith, h.submitted);
        admitted =
            subst
              (λ t.
                Admitted k h.intent (target_request options h.intent (clock t))
                  (get_open_positions all.2.oms) all.2.oms)
              (sym at)
              (subst
                (λ v.
                  Admitted k h.intent
                    (target_request options h.intent (clock (tick + 1 + length h.before)))
                    (get_open_positions v.oms) v.oms)
                (sym world) h.admitted);
      }

  submit_each-cases :
      (tick : ℕ) (intents : List OrderIntent) (w : World B)
      → WasAdmitted tick intents w
        ⊎ ((submit_each g k options clock tick intents w).2.broker ≡ w.broker)
  unfolding submit_each
  submit_each-cases tick [] w = inr refl
  submit_each-cases tick (intent ∷ intents) w =
      let now = clock tick in
      let r = target_request options intent now in
      let next = submit_intent g k intent r now w in
      elim (submit_intent-cases g k intent r now w) [
        | inl admitted ↦ inl (WasAdmitted-first tick intent intents w admitted)
        | inr same ↦ elim (Result-cases next.0) [
          | inr (x, raised) ↦ inr (ground arith)
          | inl (result, made) ↦ elim (submit_each-cases (tick + 1) intents next.2) [
            | inl later ↦ inl (WasAdmitted-later tick intent intents w result made later)
            | inr kept ↦ inr (ground arith)
          ]
        ]
      ]

-- If submitting targets changes the state of the brokers in any way, then the allocator made a decision whose
-- intents are for instruments of the universe and within the gross limit, and the kernel and the firewall
-- admitted one of them, at its reading of the clock and in the world, with the open positions, that the
-- submission of the intents before it left.
pub submit_targets-Admitted :
    {B : Type 0} (g : Gateway B) (k : Kernel) (options : Options) (clock : ℕ → DateTime)
    (targets : List TargetPosition) (regime : MarketRegime) (w : World B)
    → (submit_targets g k options clock targets regime w).2.broker ≢ w.broker
    → (d : AllocationDecision) × (allocate default_allocator targets
          (current_units (get_open_positions w.oms) [])
          regime
          (clock 0)
        ≡ ok d)
      × All (IsBounded default_allocator) d.intents
      × WasAdmitted g k options clock 1 d.intents w
unfolding submit_targets
submit_targets-Admitted g k options clock targets regime w changed =
    let held = current_units (get_open_positions w.oms) [] in
    elim (Result-cases (allocate default_allocator targets held regime (clock 0))) [
      | inr (x, raised) ↦ absurd (changed (ground arith))
      | inl (d, made) ↦ elim (submit_each-cases g k options clock 1 d.intents w) [
        | inl admitted ↦ (
          d,
          made,
          (allocate_bounds default_allocator targets held regime (clock 0) d made).1,
          admitted,
        )
        | inr same ↦ elim (Result-cases (submit_each g k options clock 1 d.intents w).0) [
          | inr (x, raised) ↦ absurd (changed (ground arith))
          | inl (results, done) ↦ absurd (changed (ground arith))
        ]
      ]
    ]
