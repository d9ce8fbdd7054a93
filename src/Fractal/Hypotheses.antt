-- ===== src/Fractal/Hypotheses.antt =====
-- forex_platform/fractal_engine/hypothesis_engine.py: the distribution of the next lower state, under a
-- condition on the higher and middle ones, which Conditions makes. A probability is a pair of counts in
-- place of a float, and a destination is a value in place of its text.
mod Conditions
pub mod Counts
pub mod Distribution
unfoldable pub use forex_platform.Fractal.Hypotheses.Conditions.{
  categorical_condition, join, state_outcome,
}
pub use forex_platform.Fractal.Hypotheses.Conditions.*
use forex_platform.Decimal
use forex_platform.Decimal.{Decimal}
use forex_platform.Fractal.Graph.{SetStateView}
use forex_platform.Fractal.Ladder.{CanonicalTimeframe, normalized_set_key}
use forex_platform.Fractal.States.{
  CanonicalTimeframeState, KeyLevel, SwingType, Transition, state_start, swing_eq, is_direction,
  trend_or_zero,
}
use forex_platform.Prelude.{
  ◌>>=◌, ℕ, ◌+◌, ltb, Bool, true, false, not, ◌&&◌, if◌then◌else◌, Option, none, some, List, [],
  ◌∷◌, ◌++◌, map, pos, ltb_ℤ, Text, codes, text_eq, text_lt, Dict, sort_by, Result, ok, err,
  value_error,
}

pub record TransitionObservation : Type 0 where
  pub timestamp : ℕ
  pub set_key : Text
  pub condition_key : List Text
  pub outcome : Text

pub record PathAlternative : Type 0 where
  pub outcome : Text
  pub count : ℕ
  pub probability : ℕ × ℕ

pub data Destination : Type 0 where
  next_level : SwingType → CanonicalTimeframe → Destination
  key_level : SwingType → Decimal → ℕ → Destination

pub data HypothesisStatus : Type 0 where
  insufficient_scale_coverage insufficient_historical_evidence : HypothesisStatus
  conditional_hypothesis : HypothesisStatus

-- `execution_eligibility` is always `OBSERVATION_ONLY`, and is left out.
pub record FractalHypothesis : Type 0 where
  pub set_key : Text
  pub as_of : ℕ
  pub observed_state_ids : List Text
  pub observed_state : List (CanonicalTimeframe × Text)
  pub condition_key : List Text
  pub status : HypothesisStatus
  pub expected_path : Option Text
  pub required_confirmation : List Text
  pub acceptable_alternatives : List PathAlternative
  pub invalidation_condition : Option Text
  pub transition_confidence : Option (ℕ × ℕ)
  pub historical_sample_count : ℕ
  pub destination_condition : Option Destination

pub record Engine : Type 0 where
  pub min_observations : ℕ
  pub observations : List TransitionObservation

unfoldable pub new_engine : ℕ → Result Engine
new_engine min_observations =
    if ltb min_observations 1
    then err value_error
    else ok (record { min_observations = min_observations; observations = [] })

abbrev is_start : List Transition → Bool
is_start (state_start ∷ []) = true
is_start _ = false

abbrev same_id : Option Text → Text → Bool
same_id none id = false
same_id (some prior) id = text_eq id prior

abbrev stamp_view : SetStateView → ℕ
stamp_view v = v.timestamp

-- The loop of `fit_observations`, after a lower state of this identity.
unfoldable pub fit_loop : Option Text → List SetStateView → Result (List TransitionObservation)
unfolding state_outcome
fit_loop prior [] = ok []
fit_loop prior (view ∷ views) =
    let skipped = fit_loop prior views in
    elim view.htf [
      | none ↦ skipped
      | some htf ↦ elim view.mtf [
        | none ↦ skipped
        | some mtf ↦ elim view.ltf [
          | none ↦ skipped
          | some ltf ↦
              let rest = fit_loop (some ltf.state_id) views in
              if same_id prior ltf.state_id
              then skipped
              else if is_start ltf.transition
              then rest
              else (do
                key ← normalized_set_key view.set_key
                os ← rest
                ok (
                    record {
                      timestamp = ltf.timestamp;
                      set_key = key;
                      condition_key = categorical_condition htf mtf;
                      outcome =
                          join (codes ",") (map transition_label ltf.transition)
                          ++ (codes ":" ++ state_outcome ltf);
                    }
                    ∷ os))
        ]
      ]
    ]

-- The observations replace those of the engine.
unfoldable pub fit_observations : List SetStateView → Engine → Result Engine
unfolding fit_loop
fit_observations views engine = do
  observations ← fit_loop none (sort_by stamp_view views)
  ok (record engine { observations = observations })

abbrev nearer : Bool → Decimal → Option KeyLevel → Bool
nearer up price none = true
nearer up price (some level) =
    if up then Decimal.lt price level.price else Decimal.lt level.price price

-- The level of a kind beyond the price that is nearest to it, the first of several: the minimum or maximum
-- of those candidates, in the order of the sorted levels.
unfoldable pub nearest_level :
    Bool → SwingType → Decimal → List KeyLevel → Option KeyLevel → Option KeyLevel
nearest_level up wanted price [] best = best
nearest_level up wanted price (level ∷ levels) best =
    let beyond = if up then Decimal.lt price level.price else Decimal.lt level.price price in
    nearest_level up wanted price levels (
      if swing_eq level.swing_type wanted && (beyond && nearer up level.price best)
      then some level
      else best)

abbrev destination_of : SwingType → CanonicalTimeframe → Option KeyLevel → Destination
destination_of wanted timeframe none = next_level wanted timeframe
destination_of wanted timeframe (some level) = key_level wanted level.price level.available_at

-- `_destination`
unfoldable pub destination : CanonicalTimeframeState → Option Destination
unfolding nearest_level
destination htf =
    let direction = trend_or_zero htf.structural_trend in
    let up = ltb_ℤ (pos 0) direction in
    let wanted = if up then SwingType.high else SwingType.low in
    if is_direction direction
    then some (
        destination_of wanted htf.timeframe
          (nearest_level up wanted htf.current_price htf.key_levels none))
    else none

abbrev pub texts_eq : List Text → List Text → Bool
texts_eq [] [] = true
texts_eq (s ∷ ss) (t ∷ ts) = text_eq s t && texts_eq ss ts
texts_eq _ _ = false

-- The earlier observations of the set under the condition.
abbrev pub matches : Text → List Text → ℕ → TransitionObservation → Bool
matches key condition now item =
    text_eq item.set_key key && (texts_eq item.condition_key condition && ltb item.timestamp now)

unfoldable pub prior :
    Text → List Text → ℕ → List TransitionObservation → List TransitionObservation
prior key condition now [] = []
prior key condition now (item ∷ items) =
    let rest = prior key condition now items in
    if matches key condition now item then item ∷ rest else rest

-- One more of an outcome, in a `Counter`.
unfoldable pub count_one : Text → Dict ℕ → Dict ℕ
count_one outcome [] = (outcome, 1) ∷ []
count_one outcome ((o, n) ∷ counts) =
    let rest = count_one outcome counts in
    if text_eq outcome o then (o, n + 1) ∷ counts else (o, n) ∷ rest

unfoldable pub counter : List TransitionObservation → Dict ℕ → Dict ℕ
unfolding count_one
counter [] counts = counts
counter (item ∷ items) counts = counter items (count_one item.outcome counts)

unfoldable pub total : Dict ℕ → ℕ
total [] = 0
total ((o, n) ∷ counts) = n + total counts

-- The order of the alternatives: by count from above, then by outcome.
abbrev pub precedes : Text × ℕ → Text × ℕ → Bool
precedes (o, n) (o', n') = if ltb n' n then true else if ltb n n' then false else not (text_lt o' o)

unfoldable pub insert_outcome : Text × ℕ → Dict ℕ → Dict ℕ
insert_outcome x [] = x ∷ []
insert_outcome x (y ∷ ys) =
    let rest = insert_outcome x ys in if precedes x y then x ∷ y ∷ ys else y ∷ rest

unfoldable pub ranked : Dict ℕ → Dict ℕ
unfolding insert_outcome
ranked [] = []
ranked (x ∷ xs) = insert_outcome x (ranked xs)

abbrev pub alternative : ℕ → Text × ℕ → PathAlternative
alternative n (o, c) = record { outcome = o; count = c; probability = (c, n) }

abbrev first_outcome : List PathAlternative → Option Text
first_outcome [] = none
first_outcome (a ∷ as_) = some a.outcome

abbrev first_probability : List PathAlternative → Option (ℕ × ℕ)
first_probability [] = none
first_probability (a ∷ as_) = some a.probability

abbrev confirmation : Option Text → List Text
confirmation none = []
confirmation (some o) = (codes "observe lower-state transition " ++ o) ∷ []

abbrev present :
    Option CanonicalTimeframeState → List CanonicalTimeframeState → List CanonicalTimeframeState
present none rest = rest
present (some s) rest = s ∷ rest

abbrev states_of : SetStateView → List CanonicalTimeframeState
states_of view = present view.htf (present view.mtf (present view.ltf []))

abbrev signature_of : CanonicalTimeframeState → CanonicalTimeframe × Text
signature_of s = (s.timeframe, s.state_signature)

abbrev id_of : CanonicalTimeframeState → Text
id_of s = s.state_id

-- The hypothesis of a view that lacks a state.
abbrev pub no_coverage : Text → SetStateView → FractalHypothesis
no_coverage key view = record {
  set_key = key;
  as_of = view.timestamp;
  observed_state_ids = map id_of (states_of view);
  observed_state = map signature_of (states_of view);
  condition_key = [];
  status = insufficient_scale_coverage;
  expected_path = none;
  required_confirmation = [];
  acceptable_alternatives = [];
  invalidation_condition = none;
  transition_confidence = none;
  historical_sample_count = 0;
  destination_condition = none;
}

-- The hypothesis under a condition, from the counted outcomes.
unfoldable pub hypothesis :
    ℕ → Text → SetStateView → CanonicalTimeframeState → List Text → Dict ℕ → FractalHypothesis
unfolding total ranked destination
hypothesis min_observations key view htf condition counts =
    let n = total counts in
    let enough = not (ltb n min_observations) in
    let alternatives = if enough then map (alternative n) (ranked counts) else [] in
    record {
      set_key = key;
      as_of = view.timestamp;
      observed_state_ids = map id_of (states_of view);
      observed_state = map signature_of (states_of view);
      condition_key = condition;
      status = if enough then conditional_hypothesis else insufficient_historical_evidence;
      expected_path = first_outcome alternatives;
      required_confirmation = confirmation (first_outcome alternatives);
      acceptable_alternatives = alternatives;
      invalidation_condition = htf.invalidation_condition;
      transition_confidence = first_probability alternatives;
      historical_sample_count = n;
      destination_condition = destination htf;
    }

unfoldable pub infer : SetStateView → Engine → Result FractalHypothesis
unfolding prior counter hypothesis categorical_condition
infer view engine = do
  key ← normalized_set_key view.set_key
  ok (elim view.htf [
    | none ↦ no_coverage key view
    | some htf ↦ elim view.mtf [
      | none ↦ no_coverage key view
      | some mtf ↦ elim view.ltf [
        | none ↦ no_coverage key view
        | some ltf ↦
            let condition = categorical_condition htf mtf in
            hypothesis engine.min_observations key view htf condition
              (counter (prior key condition view.timestamp engine.observations) [])
      ]
    ]
  ])
