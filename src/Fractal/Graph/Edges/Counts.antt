-- ===== src/Fractal/Graph/Edges/Counts.antt =====
-- The numbers of edges of a graph.
use forex_platform.Fractal.Graph.Edges.{
  StateTransitionEdge, EdgeKind, temporal_transition, kind_eq, temporal_edges, build_temporal_edges,
  available_of, scale_edges, scale_steps, build_scale_edges, graph_edges, edge_count,
}
use forex_platform.Fractal.Graph.{CausalMovementLedger, Histories, history_of, normalized, stamp}
use forex_platform.Fractal.Ladder.{CanonicalTimeframe, canonical_ladder}
use forex_platform.Fractal.States.{CanonicalTimeframeState}
use forex_platform.Fractal.Timeline.{as_of}
use forex_platform.Prelude.{
  ℕ, ◌+◌, ◌-◌, Option, List, [], ◌∷◌, ◌++◌, length, ◌≡◌, refl, inl, inr, Option-cases, arith,
}

-- How many pairs of neighbours the histories have.
abbrev pub steps : Histories → ℕ
steps [] = 0
steps ((tf, states) ∷ hs) = (length states - 1) + steps hs

edge_count-append :
    (kind : EdgeKind) (es fs : List StateTransitionEdge)
    → edge_count kind (es ++ fs) ≡ edge_count kind es + edge_count kind fs
unfolding edge_count
edge_count-append kind [] fs = omega arith
edge_count-append kind (e ∷ es) fs = ground (arith, edge_count-append kind es fs)

edge_count-temporal_edges :
    (tf : CanonicalTimeframe) (ledger : Option CausalMovementLedger)
    (states : List CanonicalTimeframeState)
    → edge_count temporal_transition (temporal_edges tf ledger states) ≡ length states - 1
unfolding edge_count temporal_edges kind_eq
edge_count-temporal_edges tf ledger [] = refl
edge_count-temporal_edges tf ledger (s ∷ []) = omega arith
edge_count-temporal_edges tf ledger (s ∷ t ∷ states) =
    omega (arith, edge_count-temporal_edges tf ledger (t ∷ states))

edge_count-build_temporal_edges :
    (ledger : Option CausalMovementLedger) (hs : Histories)
    → edge_count temporal_transition (build_temporal_edges ledger hs) ≡ steps hs
unfolding build_temporal_edges
edge_count-build_temporal_edges ledger [] = unfold edge_count in refl
edge_count-build_temporal_edges ledger ((tf, states) ∷ hs) = omega (
  arith,
  edge_count-append temporal_transition (temporal_edges tf ledger states)
      (build_temporal_edges ledger hs),
  edge_count-temporal_edges tf ledger states,
  edge_count-build_temporal_edges ledger hs,
)

edge_count-scale_edges :
    (parent child : CanonicalTimeframe) (ledger : Option CausalMovementLedger)
    (parents children : List CanonicalTimeframeState)
    → edge_count temporal_transition (scale_edges parent child ledger parents children) ≡ 0
unfolding edge_count scale_edges kind_eq
edge_count-scale_edges parent child ledger parents [] = refl
edge_count-scale_edges parent child ledger parents (c ∷ cs) =
    elim (Option-cases (as_of stamp parents c.timestamp)) [
      | inl missing ↦ ground (arith, edge_count-scale_edges parent child ledger parents cs)
      | inr (p, found) ↦ ground (arith, edge_count-scale_edges parent child ledger parents cs)
    ]

edge_count-scale_steps :
    (tfs : List CanonicalTimeframe) (ledger : Option CausalMovementLedger) (hs : Histories)
    → edge_count temporal_transition (scale_steps tfs ledger hs) ≡ 0
unfolding scale_steps
edge_count-scale_steps [] ledger hs = unfold edge_count in refl
edge_count-scale_steps (p ∷ []) ledger hs = unfold edge_count in refl
edge_count-scale_steps (p ∷ c ∷ tfs) ledger hs = omega (
  arith,
  edge_count-append temporal_transition (scale_edges p c ledger (history_of p hs) (history_of c hs))
      (scale_steps (c ∷ tfs) ledger hs),
  edge_count-scale_edges p c ledger (history_of p hs) (history_of c hs),
  edge_count-scale_steps (c ∷ tfs) ledger hs,
)

-- The graph has one temporal edge for each two neighbours in a history, and no other.
pub edge_count-graph_edges :
    (hs : Histories) (ledger : Option CausalMovementLedger)
    → edge_count temporal_transition (graph_edges hs ledger) ≡ steps (normalized hs)
unfolding graph_edges build_scale_edges
edge_count-graph_edges hs ledger =
    let sorted = normalized hs in
    omega (
      arith,
      edge_count-append temporal_transition (build_temporal_edges ledger sorted)
          (scale_steps (available_of canonical_ladder sorted) ledger sorted),
      edge_count-build_temporal_edges ledger sorted,
      edge_count-scale_steps (available_of canonical_ladder sorted) ledger sorted,
    )
