-- ===== src/Reconciliation/Verdict.antt =====
-- What a report says of the two ledgers.
use forex_platform.Portfolio.Targets.{units_of}
use forex_platform.Reconciliation.{
  Leg, Ledger, gather, empty_ledger, sorted_keys, compare_symbol, compare_symbols, report_of,
}
use forex_platform.Reconciliation.Nets.{total, gather-total, units_of-absent}
use forex_platform.Prelude.{
  true, none, List, [], ◌∷◌, Text, is_member, is_member-All, ◌≡◌, ◌↔◌, refl, sym, ◌∙◌, All,
  Bool-cases, Option-cases, inl, inr, arith,
}
use forex_platform.Time.{DateTime}

-- The two ledgers have the same net units of a symbol.
abbrev Agree : Ledger → Ledger → Text → Type 0
Agree l m k = units_of k l.net ≡ units_of k m.net

compare_symbol-none :
    (now : DateTime) (l m : Ledger) (k : Text) → (compare_symbol now l m k ≡ none) ↔ Agree l m k
unfolding compare_symbol
compare_symbol-none now l m k = ground arith

compare_symbols-nil :
    (now : DateTime) (l m : Ledger) (ks : List Text)
    → ((compare_symbols now l m ks).0 ≡ []) ↔ All (Agree l m) ks
unfolding compare_symbols
compare_symbols-nil now l m [] = (λ h. tt, λ h. refl)
compare_symbols-nil now l m (k ∷ ks) =
    let head = compare_symbol-none now l m k in
    let tail = compare_symbols-nil now l m ks in
    elim (Option-cases (compare_symbol now l m k)) [
      | inl agrees ↦ (
        λ h. (head.0 agrees, tail.0 (ground arith)),
        λ h. let rest = tail.1 h.1 in ground (arith, rest),
      )
      | inr (d, differs) ↦
          (λ h. absurd (ground arith), λ h. let matched = head.1 h.0 in absurd (ground arith))
    ]

All-of : (P : Text → Type 0) → ((k : Text) → P k) → (ks : List Text) → All P ks
All-of P h [] = tt
All-of P h (k ∷ ks) = (h k, All-of P h ks)

-- A report is clean exactly when the signed units of the positions in every symbol, in whatever spelling,
-- add up to the same on both sides.
pub report_of-clean :
    (now : DateTime) (oms broker : List Leg)
    → ((report_of now oms broker).is_clean ≡ true) ↔ ((k : Text) → total k oms ≡ total k broker)
unfolding report_of
report_of-clean now oms broker =
    let l = gather oms empty_ledger in
    let m = gather broker empty_ledger in
    let ks = sorted_keys l.net (sorted_keys m.net []) in
    let nil = compare_symbols-nil now l m ks in
    (
      λ clean k.
          sym (gather-total k oms)
          ∙ (elim (Bool-cases (is_member k ks)) [
            | inl known ↦ is_member-All (Agree l m) k ks known (nil.0 (ground arith))
            | inr absent ↦ let (o, b) = units_of-absent k l.net m.net absent in o ∙ sym b
          ])
          ∙ gather-total k broker,
      λ same.
          let none_found = nil.1 (
            All-of (Agree l m) (λ k. gather-total k oms ∙ same k ∙ sym (gather-total k broker))
              ks) in
          ground (arith, none_found),
    )
