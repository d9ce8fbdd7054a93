-- ===== src/Fractal/Processor/Signatures.antt =====
-- forex_platform/fractal_engine/state_engine.py: the signature of a state, and the labels of its transition. A
-- signature is a tuple of its parts.
use forex_platform.Fractal.Processor.Readings.{same_price}
use forex_platform.Fractal.States.{
  Location, MarketPhase, StructuralRange, Transition, pullback, continuation, premium, equilibrium,
  discount, unknown, state_start, persistence, structural_transition, phase_transition,
  location_migration, zone_migration, range_transition,
}
use forex_platform.Prelude.{
  ℕ, ◌+◌, Bool, true, false, not, ◌&&◌, if◌then◌else◌, Option, none, some, List, [], ◌∷◌, ◌++◌, ℤ,
  eqb_ℤ, Text, text_eq,
}

pub record Signature : Type 0 where
  pub trend : ℤ
  pub phase : MarketPhase
  pub location : Location
  pub range : Option StructuralRange
  pub zones : List Text

unfoldable pub phase_eq : MarketPhase → MarketPhase → Bool
phase_eq pullback pullback = true
phase_eq continuation continuation = true
phase_eq _ _ = false

unfoldable pub location_eq : Location → Location → Bool
location_eq premium premium = true
location_eq equilibrium equilibrium = true
location_eq discount discount = true
location_eq unknown unknown = true
location_eq Location.ambiguous Location.ambiguous = true
location_eq _ _ = false

abbrev range_eq : Option StructuralRange → Option StructuralRange → Bool
range_eq none none = true
range_eq (some r) (some q) = same_price r.low q.low && same_price r.high q.high
range_eq _ _ = false

abbrev texts_eq : List Text → List Text → Bool
texts_eq [] [] = true
texts_eq (s ∷ ss) (t ∷ ts) = text_eq s t && texts_eq ss ts
texts_eq _ _ = false

unfoldable pub signature_eq : Signature → Signature → Bool
unfolding phase_eq location_eq
signature_eq a b =
    eqb_ℤ a.trend b.trend
    && (phase_eq a.phase b.phase
        && (location_eq a.location b.location
            && (range_eq a.range b.range && texts_eq a.zones b.zones)))

abbrev when : Bool → Transition → List Transition
when true label = label ∷ []
when false label = []

abbrev or_range : List Transition → List Transition
or_range [] = range_transition ∷ []
or_range labels = labels

-- The labels of a signature that has changed.
unfoldable pub changes : Signature → Signature → List Transition
unfolding phase_eq location_eq
changes old new = or_range (
    when (not (eqb_ℤ old.trend new.trend)) structural_transition
    ++ (when (not (phase_eq old.phase new.phase)) phase_transition
        ++ (when (not (location_eq old.location new.location)) location_migration
            ++ when (not (texts_eq old.zones new.zones)) zone_migration)))

-- `_transition`: the labels, and for how many bars the signature has lasted.
unfoldable pub transition : Option Signature → ℕ → Signature → List Transition × ℕ
unfolding signature_eq changes
transition none duration signature = (state_start ∷ [], 1)
transition (some old) duration signature =
    if signature_eq old signature
    then (persistence ∷ [], duration + 1)
    else (changes old signature, 1)
