-- ===== src/Fractal/Processor/Readings.antt =====
-- forex_platform/fractal_engine/state_engine.py: what a state reads off the structure, the phase, the location, the
-- key levels and the swing whose loss ends the trend.
use forex_platform.Decimal
use forex_platform.Decimal.{Decimal, decimal}
use forex_platform.Fractal.States.{
  KeyLevel, Location, MarketPhase, StructuralRange, pullback, continuation, premium, equilibrium,
  discount, unknown,
}
use forex_platform.Fractal.Structure.{Structure, SwingPoint, is_member, prices_fall, prices_rise}
use forex_platform.Prelude.{
  ℕ, ◌==◌, Bool, true, false, not, ◌&&◌, ◌||◌, if◌then◌else◌, Option, none, some, List, [], ◌∷◌,
  map, reverse, length, take, ℤ, pos, eqb_ℤ, ltb_ℤ, ok, err,
}

pub data SwingState : Type 0 where
  insufficient_swings hh_hl lh_ll mixed : SwingState

abbrev has_two : List SwingPoint → Bool
has_two (a ∷ b ∷ rest) = true
has_two _ = false

unfoldable pub swing_state : Structure → SwingState
swing_state s =
    if not (has_two s.highs && has_two s.lows)
    then insufficient_swings
    else if prices_rise s.highs && prices_rise s.lows
    then hh_hl
    else if prices_fall s.highs && prices_fall s.lows
    then lh_ll
    else mixed

abbrev phase_from : Bool → Decimal → List SwingPoint → MarketPhase
phase_from up close [] = pullback
phase_from up close (reference ∷ older) =
    if (if up then Decimal.le reference.price close else Decimal.le close reference.price)
    then continuation
    else pullback

unfoldable pub phase : ℤ → Decimal → Structure → MarketPhase
phase t close s =
    let up = ltb_ℤ (pos 0) t in
    if eqb_ℤ t (pos 0) then pullback else phase_from up close (if up then s.highs else s.lows)

abbrev contains : Decimal → StructuralRange → Bool
contains close r = Decimal.le r.low close && Decimal.le close r.high

unfoldable pub containing : Decimal → List StructuralRange → List StructuralRange
containing close [] = []
containing close (r ∷ rs) =
    let rest = containing close rs in if contains close r then r ∷ rest else rest

abbrev pub same_price : Decimal → Decimal → Bool
same_price a b = not (Decimal.lt a b) && not (Decimal.lt b a)

abbrev differs : StructuralRange → List StructuralRange → Bool
differs r [] = false
differs r (q ∷ qs) = not (same_price r.low q.low && same_price r.high q.high) || differs r qs

-- More than one pair of bounds among the ranges.
abbrev pub is_ambiguous : List StructuralRange → Bool
is_ambiguous [] = false
is_ambiguous (r ∷ rs) = differs r rs

abbrev first_range : List StructuralRange → Option StructuralRange
first_range [] = none
first_range (r ∷ rs) = some r

-- The only range around the close, or the newest.
unfoldable pub select_range : Decimal → List StructuralRange → Option StructuralRange
unfolding containing
select_range close ranges = elim (containing close ranges) [
  | [] ↦ first_range ranges
  | r ∷ rs ↦ if length rs == 0 then some r else first_range ranges
]

abbrev location_of_ratio : Decimal → Location
location_of_ratio ratio =
    let half = decimal (pos 5) 1 in
    if Decimal.lt half ratio
    then premium
    else if Decimal.lt ratio half
    then discount
    else equilibrium

-- Where the close lies in the range; the division is by a positive height.
unfoldable pub location : Decimal → Option StructuralRange → Location
location close none = unknown
location close (some r) =
    if Decimal.lt r.low r.high
    then elim (Decimal.div (Decimal.sub close r.low) (Decimal.sub r.high r.low)) [
      | ok ratio ↦ location_of_ratio ratio
      | err e ↦ unknown
    ]
    else unknown

abbrev level_of : ℕ → Structure → SwingPoint → KeyLevel
level_of available_at s w = record {
  swing_type = w.swing_type;
  price = w.price;
  pivot_timestamp = w.timestamp;
  available_at = available_at;
  weak = is_member w.index s.weak_indices;
  protected = is_member w.index s.protected_indices;
}

-- The last eight swings, the oldest first.
unfoldable pub key_levels : ℕ → Structure → List KeyLevel
key_levels available_at s = map (level_of available_at s) (reverse (take 8 s.swings))

abbrev or_last : Option SwingPoint → List SwingPoint → Option SwingPoint
or_last none [] = none
or_last none (w ∷ ws) = some w
or_last (some w) ws = some w

-- The swing beyond which a close ends the trend.
unfoldable pub invalidation : ℤ → Structure → Option SwingPoint
invalidation t s =
    if eqb_ℤ t (pos 0)
    then none
    else if ltb_ℤ (pos 0) t
    then or_last s.low_anchor s.lows
    else or_last s.high_anchor s.highs
