-- ===== src/Risk/Margin.antt =====
-- `MarginCreditCheck` of forex_platform/risk_engine/margin_credit.py. The texts of a decision's details are left
-- out.
pub mod Credit
use forex_platform.Decimal
use forex_platform.Decimal.{Decimal, decimal, of_int}
use forex_platform.Domain.Orders.{OrderIntent}
use forex_platform.Domain.Pair.{from_symbol, one}
use forex_platform.Risk.Quotes.{
  RiskDecision, RiskReason, credit_exceeded, credit_passed, margin_exceeded, margin_passed,
  no_credit_limit,
}
use forex_platform.Prelude.{
  Bool, true, false, if◌then◌else◌, Option, none, some, Text, Dict, lookup, insert, erase, Result,
  ok, err, pos, [], ◌>>=◌,
}

pub record MarginCreditCheck : Type 0 where
  pub leverage_limit : Decimal
  pub credit_limits : Dict Decimal
  pub used_credit : Dict Decimal

-- A decision with the default multiplier and no tier.
abbrev pub decide : Bool → RiskReason → RiskDecision
decide approved why = record {
  approved = approved;
  tier_failed = none;
  reason = why;
  sizing_multiplier = one;
}

-- What the leverage asks for an order at a price.
abbrev pub required_margin : MarginCreditCheck → OrderIntent → Decimal → Result Decimal
required_margin m intent price =
    Decimal.div (Decimal.mul (of_int intent.lot_size.units) price) m.leverage_limit

unfoldable pub check_margin :
    MarginCreditCheck → OrderIntent → Decimal → Decimal → Result RiskDecision
check_margin m intent account_equity current_price = do
  _ ← from_symbol intent.symbol none
  required ← required_margin m intent current_price
  ok (
      if Decimal.lt account_equity required
      then decide false margin_exceeded
      else decide true margin_passed)

abbrev pub or_zero : Option Decimal → Decimal
or_zero none = decimal (pos 0) 0
or_zero (some used) = used

-- `self._used_credit.get(counterparty, Decimal("0"))`
abbrev pub used_of : Text → MarginCreditCheck → Decimal
used_of counterparty m = or_zero (lookup counterparty m.used_credit)

unfoldable pub check_credit : Text → Decimal → MarginCreditCheck → RiskDecision
check_credit counterparty additional_exposure m = elim (lookup counterparty m.credit_limits) [
  | none ↦ decide true no_credit_limit
  | some limit ↦
      if Decimal.lt limit (Decimal.add (used_of counterparty m) additional_exposure)
      then decide false credit_exceeded
      else decide true credit_passed
]

unfoldable pub update_used_credit : Text → Decimal → MarginCreditCheck → MarginCreditCheck
update_used_credit counterparty amount m = record m {
  used_credit = insert counterparty (Decimal.add (used_of counterparty m) amount) m.used_credit;
}

-- For one counterparty, or for all of them.
unfoldable pub reset_used_credit : Option Text → MarginCreditCheck → MarginCreditCheck
reset_used_credit none m = record m { used_credit = [] }
reset_used_credit (some counterparty) m = record m {
  used_credit = erase counterparty m.used_credit;
}
