-- ===== src/Tests/Margin.antt =====
-- Examples for forex_platform/risk_engine/margin_credit.py and integrated/integrated_firewall.py.
use forex_platform.Decimal
use forex_platform.Decimal.{Decimal, decimal, of_int}
use forex_platform.Risk.Firewall.{evaluate_order}
use forex_platform.Risk.Integrated.{IntegratedFirewall, base_firewall, evaluate_integrated_order}
use forex_platform.Risk.Integrated.Composition.{Checked, evaluate_integrated_order_composes}
use forex_platform.Risk.KillSwitch
use forex_platform.Risk.Margin.{
  MarginCreditCheck, check_credit, update_used_credit, or_zero, used_of,
}
use forex_platform.Risk.Margin.Credit.{WithinCredit, update_used_credit-WithinCredit}
use forex_platform.Prelude.{
  arith, true, false, some, none, [], ◌∷◌, pos, codes, lookup, text_eq, ◌+ℤ◌, ◌-ℤ◌, ◌≡◌, ◌⊎◌, refl,
  Bool-cases, inl, inr, subst, ap,
}
use forex_platform.Tests.Data.{breaker, firewall, governor, equity, request, small}

abbrev margin : MarginCreditCheck
margin = record {
  leverage_limit = decimal (pos 500) 1;
  credit_limits = (codes "BANK", decimal (pos 1000) 0) ∷ [];
  used_credit = (codes "BANK", decimal (pos 600) 0) ∷ [];
}

credit_fits : (check_credit (codes "BANK") (decimal (pos 400) 0) margin).approved ≡ true
unfolding check_credit lookup text_eq Decimal.add Decimal.lt ◌+ℤ◌ ◌-ℤ◌
credit_fits = refl

margin-WithinCredit : WithinCredit margin
unfolding lookup Decimal.lt
margin-WithinCredit name limit e = elim (Bool-cases (text_eq name (codes "BANK"))) [
  | inl same ↦
      let at_bank : some (decimal (pos 1000) 0) ≡ some limit = rw (lookup, same) at e in
      subst (λ d. Decimal.le (used_of name margin) d ≡ true) (ap or_zero at_bank)
        (rw (lookup, same) refl)
  | inr other ↦
      let nowhere : none ≡ some limit = rw (lookup, other) at e in absurd (ground (arith, nowhere))
]

update_used_credit-WithinCredit_example :
    WithinCredit (update_used_credit (codes "BANK") (decimal (pos 400) 0) margin)
update_used_credit-WithinCredit_example =
    update_used_credit-WithinCredit (codes "BANK") (decimal (pos 400) 0) margin credit_fits
      margin-WithinCredit

abbrev integrated : IntegratedFirewall
integrated = record {
  exposure_governor = governor;
  account_equity = equity;
  rounded_median = firewall.rounded_median;
  margin_credit_check = margin;
  max_position_size = some (decimal (pos 50000) 0);
}

evaluate_integrated_order_composes_example :
    ((evaluate_integrated_order integrated request
        (some (decimal (pos 10800) 4))
        small
        KillSwitch.new
        breaker).1
      ≡ (evaluate_order
          (base_firewall integrated)
          (record request { account_equity = some equity })
          small
          KillSwitch.new
          breaker).1)
    × ((((evaluate_order
              (base_firewall integrated)
              (record request { account_equity = some equity })
              small
              KillSwitch.new
              breaker).0.approved
            ≡ false)
          × ((evaluate_integrated_order integrated request
                (some (decimal (pos 10800) 4))
                small
                KillSwitch.new
                breaker).0
              ≡ (evaluate_order
                  (base_firewall integrated)
                  (record request { account_equity = some equity })
                  small
                  KillSwitch.new
                  breaker).0))
        ⊎ (((evaluate_order
                (base_firewall integrated)
                (record request { account_equity = some equity })
                small
                KillSwitch.new
                breaker).0.approved
              ≡ true)
            × Checked integrated small equity
                (some (decimal (pos 10800) 4))
                (evaluate_order
                  (base_firewall integrated)
                  (record request { account_equity = some equity })
                  small
                  KillSwitch.new
                  breaker).0
                (evaluate_integrated_order integrated request
                  (some (decimal (pos 10800) 4))
                  small
                  KillSwitch.new
                  breaker).0))
evaluate_integrated_order_composes_example =
    evaluate_integrated_order_composes integrated request (some (decimal (pos 10800) 4)) small
      KillSwitch.new breaker
