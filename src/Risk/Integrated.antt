-- ===== src/Risk/Integrated.antt =====
-- `IntegratedPreTradeRiskFirewall` of forex_platform/risk_engine/integrated/integrated_firewall.py: the checks after
-- those of the base firewall. The details of a margin decision never have a multiplier, so its use is left out.
pub mod Composition
use forex_platform.Decimal
use forex_platform.Decimal.{Decimal, decimal, of_int}
use forex_platform.Domain.Orders.{OrderIntent}
use forex_platform.Portfolio.Governor.{Governor}
use forex_platform.Risk.Breaker.{CircuitBreaker}
use forex_platform.Risk.Firewall.{evaluate_order}
use forex_platform.Risk.KillSwitch.{KillSwitch}
use forex_platform.Risk.Margin.{MarginCreditCheck, check_margin}
use forex_platform.Risk.Quotes.{
  Firewall, Request, RiskDecision, approved_all, fail_zero, margin_failure, position_size_exceeded,
  unexpected_exception,
}
use forex_platform.Prelude.{
  true, if◌then◌else◌, Option, none, some, Result, ok, err, catch, ◌>>=◌, false, List,
}

pub record IntegratedFirewall : Type 0 where
  pub exposure_governor : Governor
  pub account_equity : Decimal
  pub rounded_median : List Decimal → Decimal
  pub margin_credit_check : MarginCreditCheck
  pub max_position_size : Option Decimal

-- The base firewall keeps live capital locked.
abbrev pub base_firewall : IntegratedFirewall → Firewall
base_firewall f = record {
  allow_live_capital = false;
  exposure_governor = f.exposure_governor;
  account_equity = f.account_equity;
  rounded_median = f.rounded_median;
}

-- `eq`
abbrev pub equity_of : IntegratedFirewall → Request → Decimal
equity_of f r = elim r.account_equity [ none ↦ f.account_equity | some equity ↦ equity ]

-- The margin check, when there is a price.
abbrev pub margin_tier :
    IntegratedFirewall → OrderIntent → Decimal → Option Decimal → Result (Option RiskDecision)
margin_tier f intent equity none = ok none
margin_tier f intent equity (some price) = do
  margin ← check_margin f.margin_credit_check intent equity price
  ok (if margin.approved then none else some (fail_zero 7 margin_failure))

-- The limit of a position's size, when there is one.
abbrev pub size_tier : Option Decimal → OrderIntent → Option RiskDecision
size_tier none intent = none
size_tier (some limit) intent =
    if Decimal.lt limit (of_int intent.lot_size.units)
    then some (fail_zero 8 position_size_exceeded)
    else none

unfoldable pub additional_checks :
    IntegratedFirewall → OrderIntent → Decimal → Option Decimal → RiskDecision → Result RiskDecision
unfolding check_margin
additional_checks f intent equity current_price base = do
  margin ← margin_tier f intent equity current_price
  ok (elim margin [
    | some refused ↦ refused
    | none ↦ elim (size_tier f.max_position_size intent) [
      | some refused ↦ refused
      | none ↦ record {
        approved = true;
        tier_failed = none;
        reason = approved_all;
        sizing_multiplier = base.sizing_multiplier;
      }
    ]
  ])

-- `evaluate_order` of the integrated firewall: an exception of the additional checks is a refusal at tier 0.
unfoldable pub evaluate_integrated_order :
    IntegratedFirewall
    → Request
    → Option Decimal
    → OrderIntent
    → KillSwitch
    → CircuitBreaker
    → RiskDecision × CircuitBreaker
unfolding additional_checks
evaluate_integrated_order f r current_price intent ks cb =
    let equity = equity_of f r in
    let (base, cb') =
      evaluate_order (base_firewall f) (record r { account_equity = some equity }) intent ks cb in
    if base.approved
    then (
      catch (additional_checks f intent equity current_price base)
          (λ _. fail_zero 0 unexpected_exception),
      cb',
    )
    else (base, cb')
