-- ===== src/Fractal/Consistency.antt =====
-- forex_platform/fractal_engine/consistency.py: the verdict on two adjacent sets, after the read of each in
-- Reads, and the episodes of equal verdicts. The summaries by pair are not modelled.
mod Reads
pub mod Verdicts
pub mod Episodes
unfoldable pub use forex_platform.Fractal.Consistency.Reads.{read_states, evaluate_set_read}
pub use forex_platform.Fractal.Consistency.Reads.*
use forex_platform.Fractal.Graph.{CausalMovementLedger, SetStateView, at}
use forex_platform.Fractal.Ladder.{CanonicalTimeframe, normalized_set_key, timeframe_sets}
use forex_platform.Fractal.States.{timeframe_value}
use forex_platform.Fractal.Timeline.{as_of, sorted_set}
use forex_platform.Prelude.{
  ◌>>=◌, ℕ, ◌+◌, Bool, true, false, ◌&&◌, if◌then◌else◌, Option, none, some, List, [], ◌∷◌, ◌++◌,
  map, foldl, ℤ, eqb_ℤ, Text, codes, text_eq, Dict, lookup, insert, sort_by, Result, ok, err,
  key_error,
}

-- The verdict for a parent set whose setup is pending.
abbrev compare : Option ℤ → Option ℤ → Verdict × Text
compare (some required) (some shift) =
    if eqb_ℤ required shift
    then (aligned, codes "adjacent sets require the same directional shift at successive layers")
    else (conflicted, codes "child set requires the opposite shift at its layer")
compare _ _ = (waiting, codes "missing derived shift on one side")

abbrev hand_off : Option ℤ → Verdict × Text
hand_off none = (waiting, codes "bridge shift confirmed; child set awaiting next-layer requirement")
hand_off (some shift) =
    (aligned, codes "bridge shift confirmed; child set derived the next-layer requirement")

abbrev pub lacks_coverage : SetStatus → Bool
lacks_coverage insufficient_coverage = true
lacks_coverage _ = false

-- `_verdict`: the guard on the child's coverage stands before the two last cases.
unfoldable pub verdict : SetRead → SetRead → Verdict × Text
verdict parent child = elim parent.status [
  | insufficient_coverage ↦ (waiting, codes "parent set lacks scale coverage")
  | htf_unresolved ↦ (waiting, codes "parent HTF has no derivable bridge requirement")
  | mtf_setup_formed ↦
      if lacks_coverage child.status
      then (waiting, codes "child set lacks scale coverage")
      else hand_off child.required_mtf_shift
  | pending_mtf_setup ↦
      if lacks_coverage child.status
      then (waiting, codes "child set lacks scale coverage")
      else compare parent.required_mtf_shift child.required_mtf_shift
]

pub record ConsistencyObservation : Type 0 where
  pub set_pair : SetPair
  pub bridge_timeframe : Text
  pub timestamp : ℕ
  pub parent_set_status : SetStatus
  pub child_set_status : SetStatus
  pub required_bridge_shift : Option ℤ
  pub child_required_shift : Option ℤ
  pub bridge_trend : Option ℤ
  pub verdict : Verdict
  pub reason : Text
  pub movement_id : Option Text
  pub parent_mtf_state_id : Option Text
  pub child_htf_state_id : Option Text

pub record ConsistencyEpisode : Type 0 where
  pub set_pair : SetPair
  pub bridge_timeframe : Text
  pub verdict : Verdict
  pub started_at : ℕ
  pub ended_at : ℕ
  pub observation_count : ℕ

unfoldable pub verdict_eq : Verdict → Verdict → Bool
verdict_eq aligned aligned = true
verdict_eq conflicted conflicted = true
verdict_eq waiting waiting = true
verdict_eq _ _ = false

abbrev pub pair_eq : SetPair → SetPair → Bool
pair_eq (a, b) (c, d) = text_eq a c && text_eq b d

abbrev pub continues : ConsistencyEpisode → ConsistencyObservation → Bool
continues e o = pair_eq e.set_pair o.set_pair && verdict_eq e.verdict o.verdict

abbrev pub start_episode : ConsistencyObservation → ConsistencyEpisode
start_episode o = record {
  set_pair = o.set_pair;
  bridge_timeframe = o.bridge_timeframe;
  verdict = o.verdict;
  started_at = o.timestamp;
  ended_at = o.timestamp;
  observation_count = 1;
}

-- One turn of the loop: the last episode is extended, or one is appended.
unfoldable pub add_observation :
    List ConsistencyEpisode → ConsistencyObservation → List ConsistencyEpisode
add_observation [] o = start_episode o ∷ []
add_observation (e ∷ []) o =
    if continues e o
    then record e { ended_at = o.timestamp; observation_count = e.observation_count + 1 } ∷ []
    else e ∷ start_episode o ∷ []
add_observation (e ∷ f ∷ es) o = e ∷ add_observation (f ∷ es) o

unfoldable pub build_episodes : List ConsistencyObservation → List ConsistencyEpisode
unfolding add_observation
build_episodes observations = foldl add_observation [] observations

abbrev pub CrossSetConsistencyReport : Type 0
CrossSetConsistencyReport = List ConsistencyObservation × List ConsistencyEpisode

abbrev stamp_view : SetStateView → ℕ
stamp_view v = v.timestamp

-- `_view_asof`
unfoldable pub view_asof : List SetStateView → ℕ → Option SetStateView
unfolding as_of
view_asof views timestamp = as_of stamp_view views timestamp

abbrev movement_at : Option CausalMovementLedger → ℕ → Option Text
movement_at none t = none
movement_at (some ledger) t = at t ledger

-- The observation of two views.
unfoldable pub observation :
    SetPair
    → CanonicalTimeframe
    → Option CausalMovementLedger
    → ℕ
    → SetStateView
    → SetStateView
    → Result ConsistencyObservation
unfolding evaluate_set_read
observation pair bridge ledger timestamp parent_view child_view = do
  parent_read ← evaluate_set_read parent_view
  child_read ← evaluate_set_read child_view
  let (v, reason) = verdict parent_read child_read
  ok (record {
    set_pair = pair;
    bridge_timeframe = timeframe_value bridge;
    timestamp = timestamp;
    parent_set_status = parent_read.status;
    child_set_status = child_read.status;
    required_bridge_shift = parent_read.required_mtf_shift;
    child_required_shift = child_read.required_mtf_shift;
    bridge_trend = child_read.htf_trend;
    verdict = v;
    reason = reason;
    movement_id = movement_at ledger timestamp;
    parent_mtf_state_id = parent_read.mtf_state_id;
    child_htf_state_id = child_read.htf_state_id;
  })

-- The loop over the times of a pair.
unfoldable pub observe_times :
    SetPair
    → CanonicalTimeframe
    → Option CausalMovementLedger
    → List SetStateView
    → List SetStateView
    → List ℕ
    → Result (List ConsistencyObservation)
unfolding view_asof observation
observe_times pair bridge ledger parents children [] = ok []
observe_times pair bridge ledger parents children (t ∷ ts) =
    let rest = observe_times pair bridge ledger parents children ts in
    elim (view_asof parents t) [
      | none ↦ rest
      | some parent_view ↦ elim (view_asof children t) [
        | none ↦ rest
        | some child_view ↦ do
          o ← observation pair bridge ledger t parent_view child_view
          os ← rest
          ok (o ∷ os)
      ]
    ]

-- The observations of one pair, none when a set has no entry.
unfoldable pub observe_pair :
    Dict (List SetStateView)
    → Option CausalMovementLedger
    → SetPair
    → Result (List ConsistencyObservation)
unfolding observe_times sorted_set
observe_pair views ledger (parent_key, child_key) = elim (lookup parent_key views) [
  | none ↦ ok []
  | some parents ↦ elim (lookup child_key views) [
    | none ↦ ok []
    | some children ↦ elim (lookup parent_key timeframe_sets) [
      | none ↦ err key_error
      | some (htf, mtf, ltf) ↦
          observe_times (parent_key, child_key) mtf ledger parents children
            (sorted_set (map stamp_view parents ++ map stamp_view children))
    ]
  ]
]

unfoldable pub observe_pairs :
    Dict (List SetStateView)
    → Option CausalMovementLedger
    → List SetPair
    → Result (List ConsistencyObservation)
unfolding observe_pair
observe_pairs views ledger [] = ok []
observe_pairs views ledger (pair ∷ pairs) = do
  os ← observe_pair views ledger pair
  rest ← observe_pairs views ledger pairs
  ok (os ++ rest)

-- The views by normalized key, sorted, a later entry in place of an equal one.
unfoldable pub normalized_views :
    Dict (List SetStateView) → Dict (List SetStateView) → Result (Dict (List SetStateView))
normalized_views [] done = ok done
normalized_views ((key, views) ∷ entries) done = do
  name ← normalized_set_key key
  normalized_views entries (insert name (sort_by stamp_view views) done)

unfoldable pub evaluate_cross_set_consistency :
    Dict (List SetStateView) → Option CausalMovementLedger → Result CrossSetConsistencyReport
unfolding normalized_views observe_pairs build_episodes
evaluate_cross_set_consistency views_by_set ledger = do
  views ← normalized_views views_by_set []
  observations ← observe_pairs views ledger adjacent_set_pairs
  ok (observations, build_episodes observations)
