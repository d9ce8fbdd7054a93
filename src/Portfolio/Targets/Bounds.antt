-- ===== src/Portfolio/Targets/Bounds.antt =====
-- The limits of an allocation.
use forex_platform.Domain.Instruments.{is_supported, normalize}
use forex_platform.Domain.Orders.{OrderIntent}
use forex_platform.Portfolio.Targets.{
  Allocator, AllocationDecision, MarketRegime, Progress, TargetPosition, units_of, gross,
  normalize_units, target_intent, allocate_target, allocate_targets, allocate, is_allowed,
}
use forex_platform.Portfolio.Targets.Steps.{delta_of, allocate_target-cases}
use forex_platform.Portfolio.Targets.Ledger.{IsTraded, IsTraded-grown, from_units-units}
use forex_platform.Prelude.{
  add_zero, sym, ℕ, ◌+◌, ◌≤◌, max, true, List, [], ◌∷◌, ℤ, pos, ◌+ℤ◌, abs_ℕ, Text, Dict, lookup,
  insert, ok, >>=-eq-ok, ◌≡◌, All, All-append, Bool-cases, Result-cases, inl, inr, arith, subst,
}
use forex_platform.Time.{DateTime}

abs_ℕ-add_ℤ : (a b : ℤ) → abs_ℕ (a +ℤ b) ≤ abs_ℕ a + abs_ℕ b
unfolding ◌+ℤ◌
abs_ℕ-add_ℤ a b = ground arith

gross-insert :
    (k : Text) (delta : ℤ) (d : Dict ℤ)
    → gross (insert k (units_of k d +ℤ delta) d) ≤ gross d + abs_ℕ delta
unfolding gross insert units_of lookup
gross-insert k delta [] = ground (arith, abs_ℕ-add_ℤ (pos 0) delta)
gross-insert k delta ((j, n) ∷ d) = ground (arith, abs_ℕ-add_ℤ n delta, gross-insert k delta d)

-- An order for an instrument of the universe, of at least one unit and at most the gross limit.
abbrev pub IsBounded : Allocator → OrderIntent → Type 0
IsBounded a i =
    (is_supported i.symbol ≡ true)
    × ((n : ℕ) × (i.lot_size.units ≡ pos n) × (1 ≤ n) × (n ≤ a.max_gross_units))

record Kept (a : Allocator) (held : Dict ℤ) (s : Progress) : Type 0 where
  within : gross s.projected ≤ max a.max_gross_units (gross held)
  traded : IsTraded held s.projected s.intents
  bounded : All (IsBounded a) s.intents

step-Kept :
    (a : Allocator) (target : TargetPosition) (t : DateTime) (held : Dict ℤ) (s s' : Progress)
    → Kept a held s
    → allocate_target a target t s ≡ ok s'
    → Kept a held s'
unfolding target_intent
step-Kept a target t held s s' k e =
    let symbol = normalize target.symbol in
    let delta = delta_of target s in
    elim (allocate_target-cases a target t s s' e) [
      | inl (why, same) ↦
          subst (Kept a held) (sym same)
            (record { within = k.within; traded = k.traded; bounded = k.bounded })
      | inr (inl (reached, same)) ↦ subst (Kept a held) (sym same) k
      | inr (inr (known, (fits, (lots, made, grown)))) ↦
          let (sized, positive) = from_units-units (abs_ℕ delta) lots made in
          subst (Kept a held) (sym grown) (record {
            within = ground (arith, gross-insert symbol delta s.projected);
            traded = IsTraded-grown target t lots held s sized k.traded;
            bounded =
                All-append (IsBounded a) s.intents (target_intent target symbol delta t lots ∷ [])
                  k.bounded ((known, (abs_ℕ delta, sized, positive, ground arith)), tt);
          })
    ]

steps-Kept :
    (a : Allocator) (targets : List TargetPosition) (t : DateTime) (held : Dict ℤ) (s s' : Progress)
    → Kept a held s
    → allocate_targets a targets t s ≡ ok s'
    → Kept a held s'
unfolding allocate_targets
steps-Kept a [] t held s s' k e = subst (Kept a held) (ground arith) k
steps-Kept a (target ∷ targets) t held s s' k e =
    let (next, made, run) = >>=-eq-ok (allocate_target a target t s) _ e in
    steps-Kept a targets t held next s' (step-Kept a target t held s next k made) run

-- The positions to which the intents of an allocation lead, from those held and with the units of the intents
-- added by symbol, never have more gross units than the limit, unless the portfolio held more before, and
-- then no more than that; nor does the allocation report more. Each of its intents is for an instrument of
-- the universe, with at least one unit and at most the gross limit.
pub allocate_bounds :
    (a : Allocator) (targets : List TargetPosition) (current : Dict ℤ) (regime : MarketRegime)
    (t : DateTime) (d : AllocationDecision)
    → allocate a targets current regime t ≡ ok d
    → (d.gross_units ≤ max a.max_gross_units (gross (normalize_units [] current)))
      × All (IsBounded a) d.intents
      × ((projected : Dict ℤ) × IsTraded (normalize_units [] current) projected d.intents
          × (gross projected ≤ max a.max_gross_units (gross (normalize_units [] current))))
unfolding allocate
allocate_bounds a targets current regime t d e =
    elim (Bool-cases (is_allowed regime a.allowed_regimes)) [
      | inr barred ↦ (
        ground arith,
        let none_made : [] ≡ d.intents = ground arith in subst (All (IsBounded a)) none_made tt,
        (
          normalize_units [] current,
          let none_made : [] ≡ d.intents = ground arith in
              let held = normalize_units [] current in
              subst (IsTraded held held) none_made (λ k. sym (add_zero (units_of k held))),
          omega arith,
        ),
      )
      | inl free ↦
          let held = normalize_units [] current in
          elim (Result-cases (
            allocate_targets a targets t
              (record { projected = held; intents = []; rejected = [] }))) [
                | inr (x, raised) ↦ absurd (ground arith)
                | inl (s, made) ↦
                    let k =
                      steps-Kept a targets t held _ s
                        (record {
                          within = ground arith;
                          traded = λ k. sym (add_zero (units_of k held));
                          bounded = tt;
                        })
                        made in
                    let same : s.intents ≡ d.intents = ground arith in
                    (
                      ground (arith, k.within),
                      subst (All (IsBounded a)) same k.bounded,
                      (s.projected, subst (IsTraded held s.projected) same k.traded, k.within),
                    )
              ]
    ]
