-- ===== src/Risk/Integrated/Composition.antt =====
-- The two firewalls together.
use forex_platform.Domain.Pair.{from_symbol}
use forex_platform.Decimal
use forex_platform.Decimal.{Decimal, decimal, of_int}
use forex_platform.Domain.Orders.{OrderIntent}
use forex_platform.Risk.Breaker.{CircuitBreaker}
use forex_platform.Risk.Firewall.{evaluate_order}
use forex_platform.Risk.KillSwitch.{KillSwitch}
use forex_platform.Risk.Integrated.{
  unexpected_exception, fail_zero, IntegratedFirewall, additional_checks, base_firewall, equity_of,
  evaluate_integrated_order, margin_tier, size_tier,
}
use forex_platform.Risk.Margin.{check_margin, required_margin}
use forex_platform.Risk.Quotes.{
  Request, RiskDecision, fail_zero, margin_failure, position_size_exceeded, unexpected_exception,
}
use forex_platform.Prelude.{
  Error, Option-cases, catch, ℕ, true, false, Bool-cases, Option, none, some, Result-cases, ok, err,
  [], ◌∷◌, Any, pos, ◌≡◌, ◌⊎◌, refl, inl, inr,
}

-- The equity covers what the leverage asks for the order at the price, when there is one.
abbrev pub Covered : IntegratedFirewall → OrderIntent → Decimal → Option Decimal → Type 0
Covered f intent equity none = Unit
Covered f intent equity (some price) =
    (required : Decimal) × (required_margin f.margin_credit_check intent price ≡ ok required)
    × (Decimal.le required equity ≡ true)

-- The order has at most the greatest size, when there is one.
abbrev pub Sized : IntegratedFirewall → OrderIntent → Type 0
Sized f intent = elim f.max_position_size [
  | none ↦ Unit
  | some limit ↦ Decimal.le (of_int intent.lot_size.units) limit ≡ true
]

-- A refusal by the checks that are added, with its tier: the margin, the size or an exception.
abbrev pub IsAdded : RiskDecision → Type 0
IsAdded d =
    (d.approved ≡ false)
    × (d.sizing_multiplier ≡ decimal (pos 0) 1)
    × Any (λ (tier : ℕ). d.tier_failed ≡ some tier) (7 ∷ 8 ∷ 0 ∷ [])

margin_tier-cases :
    (f : IntegratedFirewall) (intent : OrderIntent) (equity : Decimal) (price : Option Decimal)
    → ((e : Error) × (margin_tier f intent equity price ≡ err e))
      ⊎ (margin_tier f intent equity price ≡ ok (some (fail_zero 7 margin_failure)))
      ⊎ ((margin_tier f intent equity price ≡ ok none) × Covered f intent equity price)
unfolding check_margin
margin_tier-cases f intent equity none = inr (inr (refl, tt))
margin_tier-cases f intent equity (some price) =
    elim (Result-cases (from_symbol intent.symbol none)) [
      | inr (e, unknown) ↦ inl (e, rw unknown refl)
      | inl (pair, known) ↦
          elim (Result-cases (required_margin f.margin_credit_check intent price)) [
            | inr (e, failed) ↦ inl (e, rw (known, failed) refl)
            | inl (required, asked) ↦ elim (Bool-cases (Decimal.lt equity required)) [
              | inl above ↦ inr (inl (rw (known, asked, above) refl))
              | inr covered ↦
                  inr (inr (rw (known, asked, covered) refl, (required, asked, rw covered refl)))
            ]
          ]
    ]

size_tier-cases :
    (f : IntegratedFirewall) (intent : OrderIntent)
    → (size_tier f.max_position_size intent ≡ some (fail_zero 8 position_size_exceeded))
      ⊎ ((size_tier f.max_position_size intent ≡ none) × Sized f intent)
size_tier-cases f intent = elim (Option-cases f.max_position_size) [
  | inl e ↦ inr (rw e (refl, tt))
  | inr (limit, e) ↦ elim (Bool-cases (Decimal.lt limit (of_int intent.lot_size.units))) [
    | inl above ↦ inl (rw (e, above) refl)
    | inr fits ↦ inr (rw (e, fits) (refl, refl))
  ]
]

-- What the added checks make of a decision that is approved.
abbrev pub Checked :
    IntegratedFirewall
    → OrderIntent
    → Decimal
    → Option Decimal
    → RiskDecision
    → RiskDecision
    → Type 0
Checked f intent equity price base d =
    IsAdded d
    ⊎ ((d.approved ≡ true)
        × (d.sizing_multiplier ≡ base.sizing_multiplier)
        × Covered f intent equity price
        × Sized f intent)

additional_checks-Checked :
    (f : IntegratedFirewall) (intent : OrderIntent) (equity : Decimal) (price : Option Decimal)
    (base : RiskDecision)
    → Checked f intent equity price base (
        catch
          (additional_checks f intent equity price base)
          (λ _. fail_zero 0 unexpected_exception))
unfolding additional_checks
additional_checks-Checked f intent equity price base =
    elim (margin_tier-cases f intent equity price) [
      | inl (e, failed) ↦ rw failed (inl (refl, refl, inr (inr (inl refl))))
      | inr (inl above) ↦ rw above (inl (refl, refl, inl refl))
      | inr (inr (passed, covered)) ↦ elim (size_tier-cases f intent) [
        | inl large ↦ rw (passed, large) (inl (refl, refl, inr (inl refl)))
        | inr (small, sized) ↦ rw (passed, small) (inr (refl, refl, covered, sized))
      ]
    ]

-- The integrated firewall changes the circuit breaker as the base firewall does and only adds refusals to it: what
-- the base firewall refuses is its own decision, and an order that it approves is refused with the multiplier 0
-- at tier 7, 8 or 0, or approved with the base firewall's multiplier, when the equity covers the margin
-- at the price that is given and the order is at most of the greatest size.
pub evaluate_integrated_order_composes :
    (f : IntegratedFirewall) (r : Request) (price : Option Decimal) (intent : OrderIntent)
    (ks : KillSwitch) (cb : CircuitBreaker)
    → let equity = equity_of f r in
      let base =
        evaluate_order (base_firewall f) (record r { account_equity = some equity }) intent ks cb in
      let d = evaluate_integrated_order f r price intent ks cb in
      (d.1 ≡ base.1)
      × (((base.0.approved ≡ false) × (d.0 ≡ base.0))
          ⊎ ((base.0.approved ≡ true) × Checked f intent equity price base.0 d.0))
unfolding evaluate_integrated_order
evaluate_integrated_order_composes f r price intent ks cb =
    let equity = equity_of f r in
    let base =
      evaluate_order (base_firewall f) (record r { account_equity = some equity }) intent ks cb in
    elim (Bool-cases base.0.approved) [
      | inr refused ↦ rw refused (refl, inl (refl, refl))
      | inl approved ↦
          rw approved (refl, inr (refl, additional_checks-Checked f intent equity price base.0))
    ]
