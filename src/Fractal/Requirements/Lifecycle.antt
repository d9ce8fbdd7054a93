-- ===== src/Fractal/Requirements/Lifecycle.antt =====
-- forex_platform/fractal_engine/requirements.py: the lifecycle of a requirement. An expectation signature is
-- a pair in place of a text, and the details of events and resolutions are not modelled.
use forex_platform.Fractal.Requirements.Shifts.{
  confirmation_price, expected_child_shift, expected_phase, parent_invalidation_price,
}
use forex_platform.Decimal
use forex_platform.Decimal.{Decimal}
use forex_platform.Fractal.Ladder.{CanonicalTimeframe}
use forex_platform.Fractal.States.{
  CanonicalTimeframeState, Location, MarketPhase, timeframe_value, trend_or_zero, opt_eq,
}
use forex_platform.Orders.Router.{show_int}
use forex_platform.Prelude.{
  ℕ, ◌+◌, ltb, if◌then◌else◌, Bool, false, not, ◌&&◌, Option, none, some, List, [], ◌∷◌, ◌++◌, ℤ,
  pos, ltb_ℤ, eqb_ℤ, Text, codes, length, zero, suc, ◌-◌,
}

abbrev pub Signature : Type 0
Signature = ℤ × Option ℤ

abbrev pub signature_eq : Signature → Signature → Bool
signature_eq (t, s) (t', s') = eqb_ℤ t t' && opt_eq s s'

pub record ChildRequirement : Type 0 where
  pub requirement_id : Text
  pub symbol : Text
  pub parent_timeframe : Option CanonicalTimeframe
  pub child_timeframe : Option CanonicalTimeframe
  pub parent_state_id : Text
  pub parent_trend : ℤ
  pub parent_location : Location
  pub expected_child_shift : ℤ
  pub expected_phase : Option MarketPhase
  pub confirmation_price : Option Decimal
  pub invalidation_price : Option Decimal
  pub created_at : ℕ
  pub expectation_signature : Signature

pub data EventKind : Type 0 where
  created carried confirmed invalidated superseded : EventKind

pub record RequirementEvent : Type 0 where
  pub timestamp : ℕ
  pub requirement_id : Text
  pub event : EventKind
  pub parent_state_id : Text
  pub child_state_id : Option Text

pub record ResolvedRequirement : Type 0 where
  pub requirement : ChildRequirement
  pub status : EventKind
  pub resolved_at : ℕ
  pub resolved_by_state_id : Option Text
  pub child_states_observed : ℕ

pub record RequirementLifecycle : Type 0 where
  pub parent_timeframe : Option CanonicalTimeframe
  pub child_timeframe : Option CanonicalTimeframe
  pub pending : Option ChildRequirement
  pub pending_children : ℕ
  pub sequence : ℕ
  pub events : List RequirementEvent
  pub resolved : List ResolvedRequirement

unfoldable pub new : Option CanonicalTimeframe → Option CanonicalTimeframe → RequirementLifecycle
new parent child = record {
  parent_timeframe = parent;
  child_timeframe = child;
  pending = none;
  pending_children = 0;
  sequence = 0;
  events = [];
  resolved = [];
}

abbrev name_of : Option CanonicalTimeframe → Text
name_of none = []
name_of (some tf) = timeframe_value tf

abbrev zeros : ℕ → Text
zeros zero = []
zeros (suc n) = 48 ∷ zeros n

-- `f"{n:06d}"`
unfoldable pub pad_six : ℕ → Text
pad_six n = let digits = show_int (pos n) in zeros (6 - length digits) ++ digits

-- `_resolve`, of the pending requirement.
unfoldable pub resolve :
    ChildRequirement
    → EventKind
    → ℕ
    → Option Text
    → RequirementLifecycle
    → RequirementEvent × RequirementLifecycle
resolve r event timestamp child_state_id l = (
  record {
    timestamp = timestamp;
    requirement_id = r.requirement_id;
    event = event;
    parent_state_id = r.parent_state_id;
    child_state_id = child_state_id;
  },
  record l {
    resolved =
        l.resolved
        ++ record {
          requirement = r;
          status = event;
          resolved_at = timestamp;
          resolved_by_state_id = child_state_id;
          child_states_observed = l.pending_children;
        }
          ∷ [];
    pending = none;
    pending_children = 0;
  },
)

abbrev pub signature_of : CanonicalTimeframeState → Signature
signature_of parent = (trend_or_zero parent.structural_trend, expected_child_shift parent)

abbrev is_price : Decimal → Option Decimal → Bool
is_price price none = false
is_price price (some old) = not (Decimal.lt price old) && not (Decimal.lt old price)

-- `replace(refreshed, invalidation_price=invalidation)`, when the price is known and differs.
abbrev refresh : Option Decimal → ChildRequirement → ChildRequirement
refresh none r = r
refresh (some price) r = record r {
  invalidation_price =
      if is_price price r.invalidation_price then r.invalidation_price else some price;
}

abbrev id_of : Option CanonicalTimeframeState → Option Text
id_of none = none
id_of (some s) = some s.state_id

-- The first step of `push_parent`: a changed expectation supersedes the pending requirement.
unfoldable pub supersede :
    CanonicalTimeframeState → RequirementLifecycle → List RequirementEvent × RequirementLifecycle
unfolding resolve
supersede parent l = elim l.pending [
  | none ↦ ([], l)
  | some r ↦
      if signature_eq r.expectation_signature (signature_of parent)
      then ([], l)
      else (let (e, l') = resolve r superseded parent.timestamp none l in (e ∷ [], l'))
]

unfoldable pub create_requirement :
    CanonicalTimeframeState
    → Option CanonicalTimeframeState
    → ℤ
    → RequirementLifecycle
    → ChildRequirement
unfolding pad_six
create_requirement parent child shift l = record {
  requirement_id =
      parent.symbol
      ++ (codes "|"
          ++ (name_of l.parent_timeframe
              ++ (codes "->"
                  ++ (name_of l.child_timeframe ++ (codes "|REQ-" ++ pad_six (l.sequence + 1))))));
  symbol = parent.symbol;
  parent_timeframe = l.parent_timeframe;
  child_timeframe = l.child_timeframe;
  parent_state_id = parent.state_id;
  parent_trend = trend_or_zero parent.structural_trend;
  parent_location = parent.location;
  expected_child_shift = shift;
  expected_phase = expected_phase parent;
  confirmation_price = confirmation_price child shift;
  invalidation_price = parent_invalidation_price parent;
  created_at = parent.timestamp;
  expectation_signature = signature_of parent;
}

-- The rest of it, for a parent with a shift: a requirement is carried, or created.
unfoldable pub carry_or_create :
    CanonicalTimeframeState
    → Option CanonicalTimeframeState
    → ℤ
    → RequirementLifecycle
    → RequirementEvent × RequirementLifecycle
unfolding create_requirement
carry_or_create parent child shift l = elim l.pending [
  | some r ↦
      let refreshed = refresh (parent_invalidation_price parent) r in
      (
        record {
          timestamp = parent.timestamp;
          requirement_id = refreshed.requirement_id;
          event = carried;
          parent_state_id = parent.state_id;
          child_state_id = none;
        },
        record l { pending = some refreshed },
      )
  | none ↦
      let r = create_requirement parent child shift l in
      (
        record {
          timestamp = parent.timestamp;
          requirement_id = r.requirement_id;
          event = created;
          parent_state_id = parent.state_id;
          child_state_id = id_of child;
        },
        record l { sequence = l.sequence + 1; pending = some r; pending_children = 0 },
      )
]

unfoldable pub push_parent :
    CanonicalTimeframeState
    → Option CanonicalTimeframeState
    → RequirementLifecycle
    → List RequirementEvent × RequirementLifecycle
unfolding supersede carry_or_create
push_parent parent child l =
    let (emitted, l') = supersede parent l in
    elim (expected_child_shift parent) [
      | none ↦ (emitted, l')
      | some shift ↦
          let (e, l'') = carry_or_create parent child shift l' in (emitted ++ e ∷ [], l'')
    ]

-- The close of the child is beyond the parent's invalidation.
abbrev breaches : ChildRequirement → Decimal → Bool
breaches r price = elim r.invalidation_price [
  | none ↦ false
  | some level ↦
      if ltb_ℤ (pos 0) r.parent_trend
      then Decimal.lt price level
      else if ltb_ℤ r.parent_trend (pos 0)
      then Decimal.lt level price
      else false
]

-- The close of the child is at the confirmation level or beyond.
abbrev reaches : ChildRequirement → Decimal → Bool
reaches r price = elim r.confirmation_price [
  | none ↦ false
  | some level ↦
      if ltb_ℤ (pos 0) r.expected_child_shift
      then Decimal.le level price
      else if ltb_ℤ r.expected_child_shift (pos 0)
      then Decimal.le price level
      else false
]

-- What a child state does to a requirement that it may resolve.
unfoldable pub verdict_of : ChildRequirement → CanonicalTimeframeState → Option EventKind
unfolding opt_eq
verdict_of r child =
    if breaches r child.current_price
    then some invalidated
    else if opt_eq child.structural_trend (some r.expected_child_shift)
    then some confirmed
    else if reaches r child.current_price
    then some confirmed
    else none

unfoldable pub push_child :
    CanonicalTimeframeState → RequirementLifecycle → List RequirementEvent × RequirementLifecycle
unfolding verdict_of resolve
push_child child l = elim l.pending [
  | none ↦ ([], l)
  | some r ↦
      if ltb child.timestamp r.created_at
      then ([], l)
      else (let l' = record l { pending_children = l.pending_children + 1 } in
          elim (verdict_of r child) [
            | none ↦ ([], l')
            | some event ↦
                let (e, l'') = resolve r event child.timestamp (some child.state_id) l' in
                (e ∷ [], l'')
          ])
]
