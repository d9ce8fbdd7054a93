-- ===== src/Tests/Fractal.antt =====
-- Examples for forex_platform/fractal_engine/.
use forex_platform.Fractal.Consistency.{
  Verdict, ConsistencyObservation, build_episodes, read_states, verdict, conflicted, aligned,
  pending_mtf_setup,
}
use forex_platform.Fractal.Consistency.Episodes.{Maximal, label_of, expand, build_episodes_runs}
use forex_platform.Fractal.Consistency.Verdicts.{verdict_conflicted}
use forex_platform.Fractal.Graph.{
  CausalMovementLedger, Histories, SetStateView, build_set_views, new_ledger, stamp,
}
use forex_platform.Fractal.Graph.Movements.{IsMoving, Chained, new_ledger-Chained}
use forex_platform.Fractal.Graph.Views.{build_set_views_causal, known_by}
use forex_platform.Fractal.Hypotheses.{
  Engine, FractalHypothesis, TransitionObservation, categorical_condition, infer,
}
use forex_platform.Fractal.Hypotheses.Distribution.{Distributes, infer_distribution}
use forex_platform.Fractal.Hypotheses.Counts.{IsEarlier, Selects}
use forex_platform.Fractal.Ladder.{
  normalized_set_key, day, h4, timeframe_bucket_start, timeframe_bucket_end,
}
use forex_platform.Fractal.Ladder.Buckets.{buckets_partition}
use forex_platform.Fractal.Requirements.{
  ChildRequirement, RequirementLifecycle, arrive_all, build_requirement_lifecycle, merged, new,
  parent_state, child_state,
}
use forex_platform.Fractal.Requirements.Accounts.{
  IsCausal, build_requirement_lifecycle_accounted, held,
}
use forex_platform.Fractal.Requirements.Causality.{build_requirement_lifecycle_prefix}
use forex_platform.Fractal.Requirements.Growth.{Grown}
use forex_platform.Fractal.Requirements.Liveness.{IsResolved, pending_requirement_resolves}
use forex_platform.Fractal.States.{
  timeframe_eq, CanonicalTimeframeState, continuation, discount, equilibrium, structural_transition,
}
use forex_platform.Prelude.{
  ◌-ℤ◌, ℤ, ℕ, ◌+◌, ◌≤◌, ◌<◌, All, List, [], ◌∷◌, map, length, none, some, pos, negsuc, ok, codes,
  sort_by, ◌≡◌, ◌≢◌, ◌⊎◌, ◌↔◌, refl, arith, lookup, text_eq, starts_with, remove_char, upper, strip,
}

-- A rising daily state at a discount, which requires a rise of the next finer one.
abbrev rising_day : CanonicalTimeframeState
rising_day = record {
  state_id = codes "D-1";
  symbol = codes "EURUSD";
  timeframe = day;
  timestamp = 10;
  current_price = record { coefficient = pos 11; places = 1 };
  structural_trend = some (pos 1);
  swing_state = codes "HH_HL";
  phase = continuation;
  location = discount;
  structural_range = none;
  key_levels = [];
  invalidation_condition = none;
  state_signature = codes "UP";
  transition = structural_transition ∷ [];
}

-- A falling daily state, later.
abbrev falling_day : CanonicalTimeframeState
falling_day = record {
  state_id = codes "D-2";
  symbol = codes "EURUSD";
  timeframe = day;
  timestamp = 30;
  current_price = record { coefficient = pos 12; places = 1 };
  structural_trend = some (negsuc 0);
  swing_state = codes "LH_LL";
  phase = continuation;
  location = discount;
  structural_range = none;
  key_levels = [];
  invalidation_condition = none;
  state_signature = codes "DOWN";
  transition = structural_transition ∷ [];
}

-- A falling state of four hours.
abbrev falling_h4 : CanonicalTimeframeState
falling_h4 = record {
  state_id = codes "H4-1";
  symbol = codes "EURUSD";
  timeframe = h4;
  timestamp = 15;
  current_price = record { coefficient = pos 11; places = 1 };
  structural_trend = some (negsuc 0);
  swing_state = codes "LH_LL";
  phase = continuation;
  location = discount;
  structural_range = none;
  key_levels = [];
  invalidation_condition = none;
  state_signature = codes "DOWN";
  transition = structural_transition ∷ [];
}

-- A rising one, later.
abbrev rising_h4 : CanonicalTimeframeState
rising_h4 = record {
  state_id = codes "H4-2";
  symbol = codes "EURUSD";
  timeframe = h4;
  timestamp = 20;
  current_price = record { coefficient = pos 11; places = 1 };
  structural_trend = some (pos 1);
  swing_state = codes "HH_HL";
  phase = continuation;
  location = equilibrium;
  structural_range = none;
  key_levels = [];
  invalidation_condition = none;
  state_signature = codes "UP";
  transition = structural_transition ∷ [];
}

buckets_partition_example :
    let start = timeframe_bucket_start h4 100000 in
    let end = timeframe_bucket_end h4 start in
    ((start ≤ 100000) × (100000 < end))
    × (start ≤ 5 → 5 < end → timeframe_bucket_start h4 5 ≡ start)
buckets_partition_example = buckets_partition h4 100000 5

build_requirement_lifecycle_prefix_example :
    (l : RequirementLifecycle) × (build_requirement_lifecycle
        (rising_day ∷ [])
        (falling_h4 ∷ rising_h4 ∷ [])
      ≡ ok l)
    × Grown l
        (arrive_all
          (merged (rising_day ∷ falling_day ∷ []) (falling_h4 ∷ rising_h4 ∷ []))
          (new (some day) (some h4), none)).0
unfolding build_requirement_lifecycle sort_by timeframe_eq
build_requirement_lifecycle_prefix_example =
    build_requirement_lifecycle_prefix 25 (rising_day ∷ []) (falling_day ∷ [])
      (falling_h4 ∷ rising_h4 ∷ []) []
      (arrive_all (merged (rising_day ∷ falling_day ∷ []) (falling_h4 ∷ rising_h4 ∷ []))
        (new (some day) (some h4), none)).0
      (λ h. absurd cc) (λ h. absurd cc) (omega arith, tt) (omega arith, tt)
      (omega arith, (omega arith, tt)) tt refl

build_requirement_lifecycle_accounted_example :
    (l : RequirementLifecycle) × (build_requirement_lifecycle
        (rising_day ∷ falling_day ∷ [])
        (falling_h4 ∷ rising_h4 ∷ [])
      ≡ ok l)
    × (l.sequence ≡ length l.resolved + held l.pending)
    × All IsCausal l.resolved
unfolding sort_by timeframe_eq
build_requirement_lifecycle_accounted_example =
    build_requirement_lifecycle_accounted (rising_day ∷ falling_day ∷ [])
      (falling_h4 ∷ rising_h4 ∷ []) refl

-- What the rising daily state requires.
abbrev requirement : ChildRequirement
requirement = record {
  requirement_id = codes "REQ-000001";
  symbol = codes "EURUSD";
  parent_timeframe = some day;
  child_timeframe = some h4;
  parent_state_id = codes "D-1";
  parent_trend = pos 1;
  parent_location = discount;
  expected_child_shift = pos 1;
  expected_phase = some continuation;
  confirmation_price = none;
  invalidation_price = none;
  created_at = 10;
  expectation_signature = (pos 1, some (pos 1));
}

abbrev waiting_for_it : RequirementLifecycle
waiting_for_it = record {
  parent_timeframe = some day;
  child_timeframe = some h4;
  pending = some requirement;
  pending_children = 0;
  sequence = 1;
  events = [];
  resolved = [];
}

pending_requirement_resolves_example :
    IsResolved requirement
      (arrive_all
        (child_state falling_h4 ∷ child_state rising_h4 ∷ parent_state falling_day ∷ [])
        (waiting_for_it, none)).0
pending_requirement_resolves_example =
    pending_requirement_resolves requirement rising_h4 (child_state falling_h4 ∷ [])
      (parent_state falling_day ∷ []) (waiting_for_it, none) refl (omega arith) refl

abbrev histories : Histories
histories = (day, rising_day ∷ falling_day ∷ []) ∷ (h4, falling_h4 ∷ rising_h4 ∷ []) ∷ []

build_set_views_causal_example :
    build_set_views (known_by 25 histories) (codes "SET_2") (some (15 ∷ 25 ∷ [])) none
    ≡ build_set_views histories (codes "SET_2") (some (15 ∷ 25 ∷ [])) none
build_set_views_causal_example =
    build_set_views_causal histories (codes "SET_2") (15 ∷ 25 ∷ []) none 25
      (omega arith, (omega arith, tt))

new_ledger-Chained_example :
    (ledger : CausalMovementLedger) × (new_ledger (falling_h4 ∷ rising_h4 ∷ []) ≡ ok ledger)
    × Chained ledger.episodes
    × All IsMoving ledger.episodes
    × (ledger.times ≡ map stamp (sort_by stamp (falling_h4 ∷ rising_h4 ∷ [])))
unfolding timeframe_eq
new_ledger-Chained_example = new_ledger-Chained falling_h4 (rising_h4 ∷ []) refl

-- An observation of the first pair at an instant, with a verdict.
abbrev seen : ℕ → Verdict → ConsistencyObservation
seen t v = record {
  set_pair = (codes "SET_1", codes "SET_2");
  bridge_timeframe = codes "1W";
  timestamp = t;
  parent_set_status = pending_mtf_setup;
  child_set_status = pending_mtf_setup;
  required_bridge_shift = some (pos 1);
  child_required_shift = some (pos 1);
  bridge_trend = none;
  verdict = v;
  reason = [];
  movement_id = none;
  parent_mtf_state_id = none;
  child_htf_state_id = none;
}

abbrev three_observations : List ConsistencyObservation
three_observations = seen 1 aligned ∷ seen 2 aligned ∷ seen 3 conflicted ∷ []

build_episodes_runs_example :
    (expand (build_episodes three_observations) ≡ map label_of three_observations)
    × Maximal (build_episodes three_observations)
build_episodes_runs_example = build_episodes_runs three_observations

verdict_conflicted_example :
    let parent = read_states (codes "SET_2") 20 (some rising_day) (some falling_h4) in
    let child = read_states (codes "SET_3") 20 (some falling_h4) (some rising_h4) in
    ((verdict parent child).0 ≡ conflicted) ↔ (
      (d : ℤ) × ((d ≡ pos 1) ⊎ (d ≡ negsuc 0))
      × (parent.required_mtf_shift ≡ some d)
      × (parent.mtf_trend ≢ some d)
      × (child.required_mtf_shift ≡ some (pos 0 -ℤ d)))
verdict_conflicted_example =
    verdict_conflicted (codes "SET_2") (codes "SET_3") 20 20 (some rising_day) (some falling_h4)
      (some falling_h4) (some rising_h4)

abbrev view : SetStateView
view = record {
  set_key = codes "SET_3";
  timestamp = 20;
  htf = some rising_day;
  mtf = some falling_h4;
  ltf = some rising_h4;
  movement_id = none;
}

-- An engine with two observations of outcomes under the condition of the view.
abbrev engine : Engine
engine = record {
  min_observations = 1;
  observations =
      record {
        timestamp = 5;
        set_key = codes "SET_3";
        condition_key = categorical_condition rising_day falling_h4;
        outcome = codes "UP";
      }
      ∷ record {
        timestamp = 6;
        set_key = codes "SET_3";
        condition_key = categorical_condition rising_day falling_h4;
        outcome = codes "DOWN";
      }
      ∷ [];
}

infer_distribution_example :
    (items : List TransitionObservation) × Selects
      (IsEarlier (codes "SET_3") (categorical_condition rising_day falling_h4) 20)
      engine.observations
      items
    × ((h : FractalHypothesis) × (infer view engine ≡ ok h) × Distributes 1 items h)
unfolding normalized_set_key lookup text_eq starts_with remove_char upper strip
infer_distribution_example =
    infer_distribution view engine (codes "SET_3") rising_day falling_h4 rising_h4 refl refl refl
      refl
