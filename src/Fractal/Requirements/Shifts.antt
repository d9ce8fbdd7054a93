-- ===== src/Fractal/Requirements/Shifts.antt =====
-- forex_platform/fractal_engine/requirements.py: what a parent state requires of the next finer timeframe.
use forex_platform.Decimal
use forex_platform.Decimal.{Decimal}
use forex_platform.Fractal.States.{
  CanonicalTimeframeState, KeyLevel, Location, MarketPhase, StructuralRange, SwingType, pullback,
  continuation, premium, discount, swing_eq, trend_or_zero, is_direction,
}
use forex_platform.Prelude.{
  if◌then◌else◌, Bool, not, ◌&&◌, Option, none, some, List, [], ◌∷◌, ℤ, pos, ◌-ℤ◌, ltb_ℤ, eqb_ℤ,
}

abbrev pub required_shift : Location → ℤ → Option ℤ
required_shift premium trend = some (pos 0 -ℤ trend)
required_shift discount trend = some trend
required_shift _ trend = none

abbrev pub shift_of_trend : Option ℤ → Location → Option ℤ
shift_of_trend none location = none
shift_of_trend (some trend) location =
    if is_direction trend then required_shift location trend else none

unfoldable pub expected_child_shift : CanonicalTimeframeState → Option ℤ
expected_child_shift parent = shift_of_trend parent.structural_trend parent.location

abbrev phase_of_shift : Option ℤ → ℤ → Option MarketPhase
phase_of_shift none trend = none
phase_of_shift (some shift) trend =
    some (if eqb_ℤ shift (pos 0 -ℤ trend) then pullback else continuation)

-- A shift comes with a trend of -1 or 1.
unfoldable pub expected_phase : CanonicalTimeframeState → Option MarketPhase
unfolding expected_child_shift
expected_phase parent =
    phase_of_shift (expected_child_shift parent) (trend_or_zero parent.structural_trend)

abbrev last_price : List KeyLevel → Option Decimal → Option Decimal
last_price [] found = found
last_price (level ∷ levels) found = last_price levels (some level.price)

abbrev keep_protected : SwingType → List KeyLevel → List KeyLevel
keep_protected wanted [] = []
keep_protected wanted (level ∷ levels) =
    let rest = keep_protected wanted levels in
    if swing_eq level.swing_type wanted && level.protected then level ∷ rest else rest

abbrev is_up : ℤ → Bool
is_up shift = ltb_ℤ (pos 0) shift

abbrev range_side : Bool → Option StructuralRange → Option Decimal
range_side lower none = none
range_side lower (some range) = some (if lower then range.low else range.high)

abbrev first_of : Option Decimal → Option Decimal → Option Decimal
first_of none other = other
first_of (some p) other = some p

abbrev protected_price : ℤ → CanonicalTimeframeState → Option Decimal
protected_price trend parent =
    let wanted = if is_up trend then SwingType.low else SwingType.high in
    first_of (last_price (keep_protected wanted parent.key_levels) none)
      (range_side (is_up trend) parent.structural_range)

abbrev invalidation_of_trend : Option ℤ → CanonicalTimeframeState → Option Decimal
invalidation_of_trend none parent = none
invalidation_of_trend (some trend) parent =
    if is_direction trend then protected_price trend parent else none

unfoldable pub parent_invalidation_price : CanonicalTimeframeState → Option Decimal
parent_invalidation_price parent = invalidation_of_trend parent.structural_trend parent

-- `_confirmation_price`: the prices of a kind of swing beyond the close, the nearest of them, and the side
-- of the range if there is none.
abbrev beyond : Bool → Decimal → Decimal → Bool
beyond up price level = if up then Decimal.lt price level else Decimal.lt level price

unfoldable pub candidates : Bool → SwingType → Decimal → List KeyLevel → List Decimal
candidates up wanted price [] = []
candidates up wanted price (level ∷ levels) =
    let rest = candidates up wanted price levels in
    if swing_eq level.swing_type wanted && beyond up price level.price
    then level.price ∷ rest
    else rest

unfoldable pub nearest : Bool → Decimal → List Decimal → Decimal
nearest up best [] = best
nearest up best (p ∷ ps) =
    nearest up (if (if up then Decimal.lt p best else Decimal.lt best p) then p else best) ps

abbrev beyond_range : Bool → Decimal → Option Decimal → Option Decimal
beyond_range up price none = none
beyond_range up price (some side) = if beyond up price side then some side else none

abbrev nearest_or : Bool → List Decimal → Option Decimal → Option Decimal
nearest_or up [] other = other
nearest_or up (p ∷ ps) other = some (nearest up p ps)

unfoldable pub confirmation_price : Option CanonicalTimeframeState → ℤ → Option Decimal
unfolding candidates nearest
confirmation_price none shift = none
confirmation_price (some child) shift =
    let up = is_up shift in
    let wanted = if up then SwingType.high else SwingType.low in
    nearest_or up (candidates up wanted child.current_price child.key_levels)
      (beyond_range up child.current_price (range_side (not up) child.structural_range))
