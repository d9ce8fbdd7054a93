-- ===== src/Portfolio/Targets/Ledger.antt =====
-- What the intents of an allocation add up to.
use forex_platform.Domain.Instruments.{normalize}
use forex_platform.Domain.Kinds.{OrderSide, buy, sell}
use forex_platform.Domain.Lots.{LotSize, from_units, standard_lot_units}
use forex_platform.Domain.Orders.{OrderIntent}
use forex_platform.Portfolio.Targets.{Progress, TargetPosition, units_of, side_of, target_intent}
use forex_platform.Portfolio.Targets.Steps.{units_of-insert, delta_of}
use forex_platform.Prelude.{
  ℕ, ◌≤◌, add_assoc, add_zero, zero_add, if◌then◌else◌, List, [], ◌∷◌, ◌++◌, ℤ, pos, ◌+ℤ◌, ◌-ℤ◌,
  abs_ℕ, Text, text_eq, text_eq_sound, Dict, insert, ok, ◌≡◌, ◌∙◌, ap, refl, sym, Bool-cases, inl,
  inr, arith,
}
use forex_platform.Time.{DateTime}

pub from_units-units :
    (n : ℕ) (lots : LotSize)
    → from_units (pos n) standard_lot_units ≡ ok lots
    → (lots.units ≡ pos n) × (1 ≤ n)
unfolding from_units
from_units-units n lots e = (ground arith, ground arith)

abbrev pub signed_units : OrderSide → ℤ → ℤ
signed_units buy n = n
signed_units sell n = pos 0 -ℤ n

-- What a list of orders adds to the units of a symbol.
abbrev pub net_of : Text → List OrderIntent → ℤ
net_of k [] = pos 0
net_of k (i ∷ is) =
    if text_eq k i.symbol then signed_units i.side i.lot_size.units +ℤ net_of k is else net_of k is

pub net_of-snoc :
    (k : Text) (is : List OrderIntent) (i : OrderIntent)
    → net_of k (is ++ i ∷ []) ≡ net_of k is +ℤ net_of k (i ∷ [])
net_of-snoc k [] i = sym (zero_add (net_of k (i ∷ [])))
net_of-snoc k (j ∷ is) i = elim (Bool-cases (text_eq k j.symbol)) [
  | inr other ↦ rw other (net_of-snoc k is i)
  | inl same ↦
      rw (same, net_of-snoc k is i)
        (add_assoc (signed_units j.side j.lot_size.units) (net_of k is) (net_of k (i ∷ [])))
]

pub signed_units-side_of : (delta : ℤ) → signed_units (side_of delta) (pos (abs_ℕ delta)) ≡ delta
unfolding ◌-ℤ◌
signed_units-side_of delta = ground arith

-- The units that are projected for each symbol are those held at the start and those of the intents.
abbrev pub IsTraded : Dict ℤ → Dict ℤ → List OrderIntent → Type 0
IsTraded held projected intents =
    (k : Text) → units_of k projected ≡ units_of k held +ℤ net_of k intents

pub IsTraded-grown :
    (target : TargetPosition) (t : DateTime) (lots : LotSize) (held : Dict ℤ) (s : Progress)
    → let symbol = normalize target.symbol in
      let delta = delta_of target s in
      lots.units ≡ pos (abs_ℕ delta)
      → IsTraded held s.projected s.intents
      → IsTraded held
          (insert symbol (units_of symbol s.projected +ℤ delta) s.projected)
          (s.intents ++ target_intent target symbol delta t lots ∷ [])
unfolding target_intent
IsTraded-grown target t lots held s sized h k =
    let symbol = normalize target.symbol in
    let delta = delta_of target s in
    let intent = target_intent target symbol delta t lots in
    let signed : signed_units intent.side intent.lot_size.units ≡ delta =
      rw sized (signed_units-side_of delta) in
    let moves = units_of-insert k symbol (units_of symbol s.projected +ℤ delta) s.projected in
    let snoc = net_of-snoc k s.intents intent in
    elim (Bool-cases (text_eq k symbol)) [
      | inl same ↦
          let at_symbol = ap (λ x. units_of x s.projected) (text_eq_sound k symbol same) in
          let adds : net_of k (intent ∷ []) ≡ delta =
            rw same (add_zero (signed_units intent.side intent.lot_size.units) ∙ signed) in
          let to : units_of k (insert symbol (units_of symbol s.projected +ℤ delta) s.projected)
              ≡ units_of k s.projected +ℤ delta =
            rw at_symbol (rw same at moves) in
          let all : net_of k (s.intents ++ intent ∷ []) ≡ net_of k s.intents +ℤ delta =
            rw adds at snoc in
          to
          ∙ ap (λ n. n +ℤ delta) (h k)
          ∙ sym (add_assoc (units_of k held) (net_of k s.intents) delta)
          ∙ ap (λ n. units_of k held +ℤ n) (sym all)
      | inr other ↦
          let adds : net_of k (intent ∷ []) ≡ pos 0 = rw other refl in
          let to : units_of k (insert symbol (units_of symbol s.projected +ℤ delta) s.projected)
              ≡ units_of k s.projected =
            rw other at moves in
          let all : net_of k (s.intents ++ intent ∷ []) ≡ net_of k s.intents +ℤ pos 0 =
            rw adds at snoc in
          to ∙ h k ∙ ap (λ n. units_of k held +ℤ n) (sym (all ∙ add_zero (net_of k s.intents)))
    ]
