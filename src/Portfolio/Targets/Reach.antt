-- ===== src/Portfolio/Targets/Reach.antt =====
-- Where the intents of an allocation lead.
use forex_platform.Domain.Instruments.{normalize}
use forex_platform.Domain.Lots.{LotSize}
use forex_platform.Portfolio.Targets.{
  Allocator, AllocationDecision, MarketRegime, Progress, TargetPosition, units_of, normalize_units,
  target_intent, allocate_target, allocate_targets, allocate, is_allowed,
}
use forex_platform.Portfolio.Targets.Ledger.{
  from_units-units, net_of, net_of-snoc, signed_units, signed_units-side_of,
}
use forex_platform.Portfolio.Targets.Steps.{units_of-insert, delta_of, allocate_target-cases}
use forex_platform.Prelude.{
  add_zero, add_cancel, if◌then◌else◌, true, List, [], ◌∷◌, ◌++◌, ℤ, pos, ◌+ℤ◌, ◌-ℤ◌, abs_ℕ, Text,
  text_eq, text_eq_iff, text_eq_sound, Dict, insert, ok, >>=-eq-ok, ◌≡◌, ◌≢◌, ◌∙◌, ap, refl, subst,
  sym, Bool-cases, Result-cases, inl, inr, arith,
}
use forex_platform.Time.{DateTime}

-- The units that the last target of a symbol asks for, and those held before if there is none.
abbrev pub wanted : Text → ℤ → List TargetPosition → ℤ
wanted k held [] = held
wanted k held (t ∷ ts) =
    wanted k (if text_eq k (normalize t.symbol) then t.target_units else held) ts

add_delta : (a b : ℤ) → a +ℤ (b -ℤ a) ≡ b
unfolding ◌+ℤ◌ ◌-ℤ◌
add_delta a b = ground arith

zero_delta : (a b : ℤ) → abs_ℕ (b -ℤ a) ≡ 0 → a ≡ b
unfolding ◌-ℤ◌
zero_delta a b h = ground arith

-- From one state of the loop to a later one.
record Reached (targets : List TargetPosition) (s s' : Progress) : Type 0 where
  clean : s.rejected ≡ []
  target : (k : Text) → units_of k s'.projected ≡ wanted k (units_of k s.projected) targets
  traded :
      (k : Text)
      → units_of k s'.projected +ℤ net_of k s.intents
        ≡ units_of k s.projected +ℤ net_of k s'.intents

snoc_ne_nil : (ts : List Text) (t : Text) → ts ++ t ∷ [] ≢ []
snoc_ne_nil [] t e = cc
snoc_ne_nil (x ∷ ts) t e = cc

-- A target that is reached already.
Reached-same :
    (target : TargetPosition) (targets : List TargetPosition) (s s' : Progress)
    → abs_ℕ (delta_of target s) ≡ 0
    → Reached targets s s'
    → Reached (target ∷ targets) s s'
Reached-same target targets s s' reached r = record {
  clean = r.clean;
  target = λ k.
      let symbol = normalize target.symbol in
      let stays : units_of k s.projected
          ≡ (if text_eq k symbol then target.target_units else units_of k s.projected) =
        ground (
          arith,
          text_eq_iff k symbol,
          zero_delta (units_of symbol s.projected) target.target_units reached,
        ) in
      r.target k ∙ ap (λ n. wanted k n targets) stays;
  traded = r.traded;
}

-- The intent of a delta, and what it changes.
Reached-grown :
    (target : TargetPosition) (targets : List TargetPosition) (t : DateTime) (lots : LotSize)
    (s s' : Progress)
    → let symbol = normalize target.symbol in
      let delta = delta_of target s in
      lots.units ≡ pos (abs_ℕ delta)
      → Reached targets
          (record s {
            intents = s.intents ++ target_intent target symbol delta t lots ∷ [];
            projected = insert symbol (units_of symbol s.projected +ℤ delta) s.projected;
          })
          s'
      → Reached (target ∷ targets) s s'
unfolding target_intent
Reached-grown target targets t lots s s' sized r =
    let symbol = normalize target.symbol in
    let delta = delta_of target s in
    let intent = target_intent target symbol delta t lots in
    let signed : signed_units intent.side intent.lot_size.units ≡ delta =
      rw sized (signed_units-side_of delta) in
    record {
      clean = r.clean;
      target = λ k.
          let moves : units_of k (insert symbol (units_of symbol s.projected +ℤ delta) s.projected)
              ≡ (if text_eq k symbol then target.target_units else units_of k s.projected) =
            rw
              (
                units_of-insert k symbol (units_of symbol s.projected +ℤ delta) s.projected,
                add_delta (units_of symbol s.projected) target.target_units,
              )
              refl in
          r.target k ∙ ap (λ n. wanted k n targets) moves;
      traded = λ k.
          let before = units_of k s.projected in
          let grown =
            units_of k (insert symbol (units_of symbol s.projected +ℤ delta) s.projected) in
          let run : units_of k s'.projected +ℤ (net_of k s.intents +ℤ net_of k (intent ∷ []))
              ≡ grown +ℤ net_of k s'.intents =
            rw (← net_of-snoc k s.intents intent) (r.traded k) in
          let moves = units_of-insert k symbol (units_of symbol s.projected +ℤ delta) s.projected in
          elim (Bool-cases (text_eq k symbol)) [
            | inl same ↦
                let at_symbol = ap (λ x. units_of x s.projected) (text_eq_sound k symbol same) in
                let adds : net_of k (intent ∷ []) ≡ delta =
                  rw same (add_zero (signed_units intent.side intent.lot_size.units) ∙ signed) in
                let to : grown ≡ before +ℤ delta = rw at_symbol (rw same at moves) in
                add_cancel (units_of k s'.projected) (net_of k s.intents) delta before
                  (net_of k s'.intents) (rw (adds, to) at run)
            | inr other ↦
                let adds : net_of k (intent ∷ []) ≡ pos 0 = rw other refl in
                let to : grown ≡ before = rw other at moves in
                rw (adds, to, add_zero (net_of k s.intents)) at run
          ];
    }

Reached-cons :
    (a : Allocator) (target : TargetPosition) (targets : List TargetPosition) (t : DateTime)
    (s next s' : Progress)
    → allocate_target a target t s ≡ ok next
    → Reached targets next s'
    → Reached (target ∷ targets) s s'
Reached-cons a target targets t s next s' e r = elim (allocate_target-cases a target t s next e) [
  | inl (why, same) ↦
      absurd (snoc_ne_nil s.rejected why (ap (λ (p : Progress). p.rejected) (sym same) ∙ r.clean))
  | inr (inl (reached, same)) ↦
      Reached-same target targets s s' reached (subst (λ n. Reached targets n s') same r)
  | inr (inr (known, (fits, (lots, made, grown)))) ↦
      Reached-grown target targets t lots s s'
        (from_units-units (abs_ℕ (delta_of target s)) lots made).0
        (subst (λ n. Reached targets n s') grown r)
]

Reached-all :
    (a : Allocator) (targets : List TargetPosition) (t : DateTime) (s s' : Progress)
    → allocate_targets a targets t s ≡ ok s'
    → s'.rejected ≡ []
    → Reached targets s s'
unfolding allocate_targets
Reached-all a [] t s s' e clean =
    let same : s ≡ s' = ground arith in
    subst (λ n. Reached [] s n) same
      (record {
        clean = ap (λ (p : Progress). p.rejected) same ∙ clean;
        target = λ k. refl;
        traded = λ k. refl;
      })
Reached-all a (target ∷ targets) t s s' e clean =
    let (next, made, run) = >>=-eq-ok (allocate_target a target t s) _ e in
    Reached-cons a target targets t s next s' made (Reached-all a targets t next s' run clean)

-- The orders of an approved allocation take every symbol from the units held to those that its last
-- target asks for, and leave the symbols without a target where they were.
pub allocate_reaches :
    (a : Allocator) (targets : List TargetPosition) (current : Dict ℤ) (regime : MarketRegime)
    (t : DateTime) (d : AllocationDecision) (k : Text)
    → allocate a targets current regime t ≡ ok d
    → d.approved ≡ true
    → let held = units_of k (normalize_units [] current) in
      held +ℤ net_of k d.intents ≡ wanted k held targets
unfolding allocate
allocate_reaches a targets current regime t d k e passed =
    elim (Bool-cases (is_allowed regime a.allowed_regimes)) [
      | inr barred ↦ absurd (ground arith)
      | inl free ↦
          let begin : Progress = record {
            projected = normalize_units [] current;
            intents = [];
            rejected = [];
          } in
          elim (Result-cases (allocate_targets a targets t begin)) [
            | inr (x, raised) ↦ absurd (ground arith)
            | inl (s, made) ↦
                let same : s.intents ≡ d.intents = ground arith in
                let clean : s.rejected ≡ [] = ground arith in
                let r = Reached-all a targets t begin s made clean in
                rw (← same) (sym (r.traded k) ∙ add_zero (units_of k s.projected) ∙ r.target k)
          ]
    ]
