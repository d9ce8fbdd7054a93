-- ===== src/Fractal/Graph/Edges.antt =====
-- forex_platform/fractal_engine/state_graph.py: the edges of `FractalStateGraph`, over histories that are
-- sorted. The nodes by identity and the counts of references are not modelled.
pub mod Counts
use forex_platform.Fractal.Graph.{
  CausalMovementLedger, Histories, at, for_state, history_of, normalized, stamp,
}
use forex_platform.Fractal.Ladder.{CanonicalTimeframe, canonical_ladder}
use forex_platform.Fractal.States.{CanonicalTimeframeState, Transition, timeframe_eq}
use forex_platform.Fractal.Timeline.{as_of}
use forex_platform.Prelude.{
  ℕ, zero, suc, ◌+◌, ◌-◌, ◌≤◌, Bool, true, false, ◌||◌, if◌then◌else◌, Option, none, some, List, [],
  ◌∷◌, ◌++◌, length, Text, All, All-append, ◌≡◌, refl, sym, subst, inl, inr, Option-cases, arith,
}

pub data EdgeKind : Type 0 where
  temporal_transition scale_observation : EdgeKind

unfoldable pub kind_eq : EdgeKind → EdgeKind → Bool
kind_eq temporal_transition temporal_transition = true
kind_eq scale_observation scale_observation = true
kind_eq _ _ = false

pub record StateTransitionEdge : Type 0 where
  pub source_state_id : Text
  pub target_state_id : Text
  pub source_timeframe : CanonicalTimeframe
  pub target_timeframe : CanonicalTimeframe
  pub observed_at : ℕ
  pub transition : List Transition
  pub scale_distance : ℕ
  pub edge_kind : EdgeKind
  pub movement_id : Option Text

abbrev movement_of : Option CausalMovementLedger → CanonicalTimeframeState → Option Text
movement_of none s = none
movement_of (some ledger) s = for_state (some s) ledger

unfoldable pub temporal_edges :
    CanonicalTimeframe
    → Option CausalMovementLedger
    → List CanonicalTimeframeState
    → List StateTransitionEdge
temporal_edges timeframe ledger [] = []
temporal_edges timeframe ledger (previous ∷ []) = []
temporal_edges timeframe ledger (previous ∷ current ∷ states) =
    record {
      source_state_id = previous.state_id;
      target_state_id = current.state_id;
      source_timeframe = timeframe;
      target_timeframe = timeframe;
      observed_at = current.timestamp;
      transition = current.transition;
      scale_distance = 0;
      edge_kind = temporal_transition;
      movement_id = movement_of ledger current;
    }
    ∷ temporal_edges timeframe ledger (current ∷ states)

-- `_build_temporal_edges`
unfoldable pub build_temporal_edges :
    Option CausalMovementLedger → Histories → List StateTransitionEdge
unfolding temporal_edges
build_temporal_edges ledger [] = []
build_temporal_edges ledger ((timeframe, states) ∷ hs) =
    temporal_edges timeframe ledger states ++ build_temporal_edges ledger hs

abbrev has_history : CanonicalTimeframe → Histories → Bool
has_history timeframe [] = false
has_history timeframe ((tf, states) ∷ hs) = timeframe_eq tf timeframe || has_history timeframe hs

abbrev pub available_of : List CanonicalTimeframe → Histories → List CanonicalTimeframe
available_of [] hs = []
available_of (tf ∷ tfs) hs =
    let rest = available_of tfs hs in if has_history tf hs then tf ∷ rest else rest

-- The place of a timeframe in the ladder.
abbrev position : CanonicalTimeframe → List CanonicalTimeframe → ℕ
position timeframe [] = zero
position timeframe (tf ∷ tfs) =
    let rest = position timeframe tfs in if timeframe_eq tf timeframe then zero else suc rest

abbrev movement_at : Option CausalMovementLedger → ℕ → Option Text
movement_at none t = none
movement_at (some ledger) t = at t ledger

-- The edges from the states of a parent timeframe, as of each state of the child.
unfoldable pub scale_edges :
    CanonicalTimeframe
    → CanonicalTimeframe
    → Option CausalMovementLedger
    → List CanonicalTimeframeState
    → List CanonicalTimeframeState
    → List StateTransitionEdge
unfolding as_of
scale_edges parent_tf child_tf ledger parents [] = []
scale_edges parent_tf child_tf ledger parents (child ∷ children) =
    let rest = scale_edges parent_tf child_tf ledger parents children in
    elim (as_of stamp parents child.timestamp) [
      | none ↦ rest
      | some parent ↦
          record {
            source_state_id = parent.state_id;
            target_state_id = child.state_id;
            source_timeframe = parent_tf;
            target_timeframe = child_tf;
            observed_at = child.timestamp;
            transition = child.transition;
            scale_distance =
                position child_tf canonical_ladder - position parent_tf canonical_ladder;
            edge_kind = scale_observation;
            movement_id = movement_at ledger child.timestamp;
          }
          ∷ rest
    ]

unfoldable pub scale_steps :
    List CanonicalTimeframe → Option CausalMovementLedger → Histories → List StateTransitionEdge
unfolding scale_edges
scale_steps [] ledger hs = []
scale_steps (parent ∷ []) ledger hs = []
scale_steps (parent ∷ child ∷ tfs) ledger hs =
    scale_edges parent child ledger (history_of parent hs) (history_of child hs)
    ++ scale_steps (child ∷ tfs) ledger hs

-- `_build_scale_edges`
unfoldable pub build_scale_edges :
    Option CausalMovementLedger → Histories → List StateTransitionEdge
unfolding scale_steps
build_scale_edges ledger hs = scale_steps (available_of canonical_ladder hs) ledger hs

-- The edges that the graph is built with.
unfoldable pub graph_edges : Histories → Option CausalMovementLedger → List StateTransitionEdge
unfolding build_temporal_edges build_scale_edges
graph_edges histories ledger =
    let hs = normalized histories in build_temporal_edges ledger hs ++ build_scale_edges ledger hs

-- `temporal_edge_count` and `scale_edge_count`
unfoldable pub edge_count : EdgeKind → List StateTransitionEdge → ℕ
unfolding kind_eq
edge_count kind [] = 0
edge_count kind (e ∷ es) =
    let rest = edge_count kind es in if kind_eq kind e.edge_kind then rest + 1 else rest
