-- ===== src/Fractal/Requirements.antt =====
-- forex_platform/fractal_engine/requirements.py. Shifts holds what a parent timeframe requires of the next
-- finer one, Lifecycle the state machine of such a requirement, and this file the merge of two histories.
-- The summary of a lifecycle is not modelled.
mod Shifts
mod Lifecycle
pub mod Growth
pub mod Causality
pub mod Liveness
pub mod Accounts
unfoldable pub use forex_platform.Fractal.Requirements.Shifts.{
  expected_child_shift, expected_phase, parent_invalidation_price, candidates, nearest,
  confirmation_price,
}
pub use forex_platform.Fractal.Requirements.Shifts.*
unfoldable pub use forex_platform.Fractal.Requirements.Lifecycle.{
  new, pad_six, resolve, supersede, create_requirement, carry_or_create, push_parent, verdict_of,
  push_child,
}
pub use forex_platform.Fractal.Requirements.Lifecycle.*
use forex_platform.Fractal.Ladder.{CanonicalTimeframe}
use forex_platform.Fractal.States.{CanonicalTimeframeState, timeframe_eq}
use forex_platform.Prelude.{
  ℕ, ◌+◌, ◌*◌, if◌then◌else◌, Bool, false, Option, none, some, List, [], ◌∷◌, ◌++◌, map, sort_by,
  Result, ok, err, value_error,
}

-- A state of either history.
pub data Arrival : Type 0 where
  parent_state child_state : CanonicalTimeframeState → Arrival

-- The order of the merge: by timestamp, a parent before a child.
abbrev pub rank : Arrival → ℕ
rank (parent_state s) = 2 * s.timestamp
rank (child_state s) = 2 * s.timestamp + 1

-- The lifecycle, and the last child state that has arrived.
abbrev pub MergeState : Type 0
MergeState = RequirementLifecycle × Option CanonicalTimeframeState

unfoldable pub arrive : Arrival → MergeState → MergeState
unfolding push_parent push_child
arrive (parent_state s) (l, last_child) =
    let (events, l') = push_parent s last_child l in
    (record l' { events = l'.events ++ events }, last_child)
arrive (child_state s) (l, last_child) =
    let (events, l') = push_child s l in (record l' { events = l'.events ++ events }, some s)

unfoldable pub arrive_all : List Arrival → MergeState → MergeState
unfolding arrive
arrive_all [] p = p
arrive_all (a ∷ as_) p = arrive_all as_ (arrive a p)

abbrev pub stamp : CanonicalTimeframeState → ℕ
stamp s = s.timestamp

abbrev pub head_timeframe : List CanonicalTimeframeState → Option CanonicalTimeframe
head_timeframe [] = none
head_timeframe (s ∷ ss) = some s.timeframe

abbrev pub same_timeframe : Option CanonicalTimeframe → Option CanonicalTimeframe → Bool
same_timeframe (some a) (some b) = timeframe_eq a b
same_timeframe _ _ = false

-- The two histories as one, each sorted before.
unfoldable pub merged : List CanonicalTimeframeState → List CanonicalTimeframeState → List Arrival
merged parents children =
    sort_by rank
      (map parent_state (sort_by stamp parents) ++ map child_state (sort_by stamp children))

unfoldable pub build_requirement_lifecycle :
    List CanonicalTimeframeState → List CanonicalTimeframeState → Result RequirementLifecycle
unfolding arrive_all merged
build_requirement_lifecycle parents children =
    let parent = head_timeframe (sort_by stamp parents) in
    let child = head_timeframe (sort_by stamp children) in
    if same_timeframe parent child
    then err value_error
    else ok (arrive_all (merged parents children) (new parent child, none)).0
