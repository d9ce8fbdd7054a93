-- ===== src/Fractal/Hypotheses/Conditions.antt =====
-- forex_platform/fractal_engine/hypothesis_engine.py: the condition and the outcome of an observation.
use forex_platform.Fractal.States.{
  CanonicalTimeframeState, Location, MarketPhase, Transition, pullback, continuation, premium,
  equilibrium, discount, unknown, ambiguous, state_start, persistence, structural_transition,
  phase_transition, location_migration, zone_migration, range_transition, trend_or_zero,
}
use forex_platform.Prelude.{
  not, ◌&&◌, if◌then◌else◌, List, [], ◌∷◌, ◌++◌, ℤ, pos, ◌-ℤ◌, ltb_ℤ, eqb_ℤ, Text, codes,
}

abbrev label_of_trend : ℤ → Text
label_of_trend t =
    if eqb_ℤ t (pos 0)
    then codes "NEUTRAL"
    else if ltb_ℤ (pos 0) t
    then codes "BULLISH"
    else codes "BEARISH"

abbrev pub trend_label : CanonicalTimeframeState → Text
trend_label s = label_of_trend (trend_or_zero s.structural_trend)

-- `phase.value.upper()`
abbrev pub phase_label : MarketPhase → Text
phase_label pullback = codes "PULLBACK"
phase_label continuation = codes "CONTINUATION"

abbrev pub location_label : Location → Text
location_label premium = codes "PREMIUM"
location_label equilibrium = codes "EQUILIBRIUM"
location_label discount = codes "DISCOUNT"
location_label unknown = codes "UNKNOWN"
location_label ambiguous = codes "AMBIGUOUS"

abbrev pub transition_label : Transition → Text
transition_label state_start = codes "STATE_START"
transition_label persistence = codes "PERSISTENCE"
transition_label structural_transition = codes "STRUCTURAL_TRANSITION"
transition_label phase_transition = codes "PHASE_TRANSITION"
transition_label location_migration = codes "LOCATION_MIGRATION"
transition_label zone_migration = codes "ZONE_MIGRATION"
transition_label range_transition = codes "RANGE_TRANSITION"

-- A trend that is absent is like one of 0 here.
abbrev relation : ℤ → ℤ → Text
relation h m =
    let moves = not (eqb_ℤ h (pos 0)) in
    if moves && eqb_ℤ h m
    then codes "ALIGNED"
    else if moves && (not (eqb_ℤ m (pos 0)) && eqb_ℤ h (pos 0 -ℤ m))
    then codes "OPPOSED"
    else codes "UNRESOLVED"

unfoldable pub categorical_condition : CanonicalTimeframeState → CanonicalTimeframeState → List Text
categorical_condition htf mtf =
    trend_label htf
    ∷ phase_label htf.phase
    ∷ location_label htf.location
    ∷ trend_label mtf
    ∷ phase_label mtf.phase
    ∷ location_label mtf.location
    ∷ relation (trend_or_zero htf.structural_trend) (trend_or_zero mtf.structural_trend)
    ∷ []

-- `separator.join(texts)`
unfoldable pub join : Text → List Text → Text
join separator [] = []
join separator (t ∷ []) = t
join separator (t ∷ u ∷ us) = t ++ (separator ++ join separator (u ∷ us))

unfoldable pub state_outcome : CanonicalTimeframeState → Text
unfolding join
state_outcome state = join (codes "|") (
    trend_label state
    ∷ phase_label state.phase
    ∷ location_label state.location
    ∷ state.swing_state
    ∷ [])
