-- ===== src/Risk/Margin/Credit.antt =====
-- The credit that each counterparty has used.
use forex_platform.Decimal
use forex_platform.Decimal.{Decimal}
use forex_platform.Risk.Margin.{
  MarginCreditCheck, check_credit, update_used_credit, or_zero, used_of,
}
use forex_platform.Prelude.{
  if◌then◌else◌, inr, inl, true, false, Bool-cases, some, Text, text_eq, text_eq_sound, lookup,
  insert, lookup-insert, ◌≡◌, refl, ap, sym, subst, arith,
}

-- No counterparty with a limit has used more than it.
abbrev pub WithinCredit : MarginCreditCheck → Type 0
WithinCredit m =
    (counterparty : Text) (limit : Decimal)
    → lookup counterparty m.credit_limits ≡ some limit
    → Decimal.le (used_of counterparty m) limit ≡ true

used_of-insert :
    (c name : Text) (v : Decimal) (m : MarginCreditCheck)
    → used_of name (record m { used_credit = insert c v m.used_credit })
      ≡ (if text_eq name c then v else used_of name m)
used_of-insert c name v m =
    let law = lookup-insert c name v m.used_credit in
    elim (Bool-cases (text_eq name c)) [
      | inl same ↦ rw same (ap or_zero (rw same at law))
      | inr other ↦ rw other (ap or_zero (rw other at law))
    ]

approved_fits :
    (c : Text) (amount limit : Decimal) (m : MarginCreditCheck)
    → lookup c m.credit_limits ≡ some limit
    → (check_credit c amount m).approved ≡ true
    → Decimal.le (Decimal.add (used_of c m) amount) limit ≡ true
unfolding check_credit
approved_fits c amount limit m e approved =
    elim (Bool-cases (Decimal.lt limit (Decimal.add (used_of c m) amount))) [
      | inr fits ↦ rw fits refl
      | inl above ↦
          let refused : false ≡ true = rw (check_credit, e, above) at approved in
          absurd (ground (arith, refused))
    ]

-- An amount that `check_credit` approves for a counterparty and that is then used leaves every counterparty
-- within its credit limit, when they were so before.
pub update_used_credit-WithinCredit :
    (counterparty : Text) (amount : Decimal) (m : MarginCreditCheck)
    → (check_credit counterparty amount m).approved ≡ true
    → WithinCredit m
    → WithinCredit (update_used_credit counterparty amount m)
unfolding update_used_credit
update_used_credit-WithinCredit c amount m approved within name limit e =
    let used = used_of-insert c name (Decimal.add (used_of c m) amount) m in
    elim (Bool-cases (text_eq name c)) [
      | inl same ↦
          let e' : lookup c m.credit_limits ≡ some limit =
            subst (λ n. lookup n m.credit_limits ≡ some limit) (text_eq_sound name c same) e in
          subst (λ d. Decimal.le d limit ≡ true) (sym (rw same at used))
            (approved_fits c amount limit m e' approved)
      | inr other ↦
          subst (λ d. Decimal.le d limit ≡ true) (sym (rw other at used)) (within name limit e)
    ]
