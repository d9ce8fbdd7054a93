-- ===== src/Production/Positions/Locks.antt =====
-- Which pairs a reconciliation of the service locks.
use forex_platform.Domain.Orders.{OrderIntent}
use forex_platform.Domain.Position.{Position}
use forex_platform.Orders.Oms.State.{Oms}
use forex_platform.Orders.Oms.Valuation.{get_open_positions}
use forex_platform.Portfolio.Targets.{units_of}
use forex_platform.Portfolio.Targets.Steps.{units_of-insert}
use forex_platform.Production.Allocation.{signed, current_units}
use forex_platform.Production.Positions.{
  Alert, RemotePosition, remote_units, gather_remote, alerts_of, mismatch, lock_pairs, reconcile,
}
use forex_platform.Reconciliation.{sorted_keys}
use forex_platform.Reconciliation.Nets.{units_of-absent}
use forex_platform.Risk.Firewall.{evaluate_order, kill_query}
use forex_platform.Risk.Quotes.{Firewall, Request}
use forex_platform.Risk.Firewall.Gates.{evaluate_order_approved}
use forex_platform.Risk.KillSwitch.{KillSwitch, KillQuery, arm_pair, is_killed}
use forex_platform.Risk.KillSwitch.Levels.{Arming, pair, arm, arm_all, arm_pair_kills}
use forex_platform.Prelude.{
  if◌then◌else◌, true, false, some, List, [], ◌∷◌, map, ℤ, pos, ◌+ℤ◌, eqb_ℤ, Text, text_eq,
  text_eq_sound, clean_symbol, is_member, Dict, lookup, insert, add_assoc, add_zero, zero_add, ◌≡◌,
  ◌≢◌, ◌∙◌, sym, ap, subst, refl, inl, inr, arith, Bool-cases,
}

-- The signed units that a list of positions holds in a symbol, as it is spelled.
module _ {P : Type 0} (symbol_of : P → Text) (size_of : P → ℤ) where
  abbrev pub sum_in : Text → List P → ℤ
  sum_in k [] = pos 0
  sum_in k (p ∷ ps) = if text_eq k (symbol_of p) then size_of p +ℤ sum_in k ps else sum_in k ps

  abbrev summed : List P → Dict ℤ → Dict ℤ
  summed [] d = d
  summed (p ∷ ps) d = summed ps (insert (symbol_of p) (units_of (symbol_of p) d +ℤ size_of p) d)

  units_of-summed :
      (k : Text) (ps : List P) (d : Dict ℤ) → units_of k (summed ps d) ≡ units_of k d +ℤ sum_in k ps
  units_of-summed k [] d = sym (add_zero (units_of k d))
  units_of-summed k (p ∷ ps) d =
      let j = symbol_of p in
      let n = units_of j d +ℤ size_of p in
      let moves = units_of-insert k j n d in
      units_of-summed k ps (insert j n d) ∙ (elim (Bool-cases (text_eq k j)) [
        | inl same ↦
            let at_j = ap (λ x. units_of x d) (text_eq_sound k j same) in
            rw (moves, same, at_j) (sym (add_assoc (units_of j d) (size_of p) (sum_in k ps)))
        | inr other ↦ rw (moves, other) refl
      ])

abbrev pub held : Text → List Position → ℤ
held = sum_in (λ (p : Position). p.symbol) signed

abbrev pub reported : Text → List RemotePosition → ℤ
reported = sum_in (λ (p : RemotePosition). p.symbol) remote_units

current_units-summed :
    (ps : List Position) (d : Dict ℤ)
    → current_units ps d ≡ summed (λ (p : Position). p.symbol) signed ps d
unfolding current_units
current_units-summed [] d = refl
current_units-summed (p ∷ ps) d =
    current_units-summed ps (insert p.symbol (units_of p.symbol d +ℤ signed p) d)

gather_remote-summed :
    (ps : List RemotePosition) (d : Dict ℤ)
    → gather_remote ps d ≡ summed (λ (p : RemotePosition). p.symbol) remote_units ps d
unfolding gather_remote
gather_remote-summed [] d = refl
gather_remote-summed (p ∷ ps) d =
    gather_remote-summed ps (insert p.symbol (units_of p.symbol d +ℤ remote_units p) d)

units_of_none : (k : Text) → units_of k [] ≡ pos 0
unfolding units_of lookup
units_of_none k = refl

current_units-held : (k : Text) (ps : List Position) → units_of k (current_units ps []) ≡ held k ps
current_units-held k ps = rw (current_units-summed ps []) (
    units_of-summed (λ (p : Position). p.symbol) signed k ps []
    ∙ rw (units_of_none k) (zero_add (held k ps)))

gather_remote-reported :
    (k : Text) (ps : List RemotePosition) → units_of k (gather_remote ps []) ≡ reported k ps
gather_remote-reported k ps = rw (gather_remote-summed ps []) (
    units_of-summed (λ (p : RemotePosition). p.symbol) remote_units k ps []
    ∙ rw (units_of_none k) (zero_add (reported k ps)))

abbrev arming_of : Alert → Arming
arming_of a = pair a.symbol mismatch

lock_pairs-arm_all :
    (alerts : List Alert) (s : KillSwitch) → lock_pairs alerts s ≡ arm_all (map arming_of alerts) s
unfolding lock_pairs arm_all arm
lock_pairs-arm_all [] s = refl
lock_pairs-arm_all (a ∷ rest) s = lock_pairs-arm_all rest (arm_pair a.symbol mismatch s)

-- A symbol among those compared whose units differ is locked, in every spelling.
lock_pairs-alerts_of :
    (k spelling : Text) (remote own : Dict ℤ) (ks : List Text) (q : KillQuery) (s : KillSwitch)
    → is_member k ks ≡ true
    → units_of k remote ≢ units_of k own
    → q.symbol ≡ some spelling
    → spelling ≢ []
    → clean_symbol spelling ≡ clean_symbol k
    → (is_killed q (lock_pairs (alerts_of remote own ks) s)).0 ≡ true
unfolding is_member alerts_of lock_pairs
lock_pairs-alerts_of k spelling remote own [] q s known differ e ne same = absurd (ground arith)
lock_pairs-alerts_of k spelling remote own (j ∷ js) q s known differ e ne same =
    elim (Bool-cases (text_eq k j)) [
      | inl hit ↦
          let at_j : k ≡ j = text_eq_sound k j hit in
          let rest = alerts_of remote own js in
          let apart : eqb_ℤ (units_of j remote) (units_of j own) ≡ false =
            subst (λ x. eqb_ℤ (units_of x remote) (units_of x own) ≡ false) at_j (ground arith) in
          rw (apart, lock_pairs-arm_all rest (arm_pair j mismatch s))
            (arm_pair_kills j mismatch spelling (map arming_of rest) q s e ne
              (same ∙ ap clean_symbol at_j))
      | inr miss ↦
          let later : is_member k js ≡ true = ground arith in
          elim (Bool-cases (eqb_ℤ (units_of j remote) (units_of j own))) [
            | inl equal ↦
                rw equal (lock_pairs-alerts_of k spelling remote own js q s later differ e ne same)
            | inr apart ↦ rw apart (
                lock_pairs-alerts_of k spelling remote own js q (arm_pair j mismatch s) later differ
                  e ne same)
          ]
    ]

-- When the signed units of a symbol in the reported positions and in the open positions of the system differ,
-- then after a reconciliation of the service the firewall approves no order for that symbol, in whatever
-- spelling.
pub reconcile_locks :
    (remote : List RemotePosition) (s : Oms) (k : Text) (f : Firewall) (r : Request)
    (intent : OrderIntent)
    → reported k remote ≢ held k (get_open_positions s)
    → intent.symbol ≢ []
    → clean_symbol intent.symbol ≡ clean_symbol k
    → let s' = (reconcile remote s).2 in
      (evaluate_order f r intent s'.kill_switch s'.circuit_breaker).0.approved ≡ false
unfolding reconcile
reconcile_locks remote s k f r intent differ ne same =
    let theirs = gather_remote remote [] in
    let ours = current_units (get_open_positions s) [] in
    let ks = sorted_keys theirs (sorted_keys ours []) in
    let s' = (reconcile remote s).2 in
    let apart : units_of k theirs ≢ units_of k ours = λ e.
      differ
        (sym (gather_remote-reported k remote) ∙ e ∙ current_units-held k (get_open_positions s)) in
    let killed : (is_killed (kill_query r intent) s'.kill_switch).0 ≡ true =
      elim (Bool-cases (is_member k ks)) [
        | inr absent ↦
            let (a, b) = units_of-absent k theirs ours absent in absurd (apart (a ∙ sym b))
        | inl known ↦
            lock_pairs-alerts_of k intent.symbol theirs ours ks (kill_query r intent) s.kill_switch
              known apart refl ne same
      ] in
    elim (Bool-cases (evaluate_order f r intent s'.kill_switch s'.circuit_breaker).0.approved) [
      | inr refused ↦ refused
      | inl passed ↦
          let alive =
            (evaluate_order_approved f r intent s'.kill_switch s'.circuit_breaker passed).alive in
          absurd (ground arith)
    ]
