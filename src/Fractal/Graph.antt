-- ===== src/Fractal/Graph.antt =====
-- forex_platform/fractal_engine/state_graph.py: the movement ledger and the views of a set. Histories are
-- keyed by the timeframe in place of its text, in the order of the dictionary; the identity and the start
-- of the current leg, which are set together, are one option.
pub mod Movements
pub mod Views
pub mod Edges
use forex_platform.Fractal.Ladder.{
  CanonicalTimeframe, Roles, canonical_ladder, normalized_set_key, timeframe_sets,
}
use forex_platform.Fractal.Requirements.{pad_six}
use forex_platform.Fractal.States.{
  CanonicalTimeframeState, Transition, opt_eq, timeframe_eq, timeframe_value, trend_or_zero,
}
use forex_platform.Fractal.Timeline.{as_of, bisect_right, item_before, sorted_set}
use forex_platform.Prelude.{
  ℕ, ◌+◌, ◌-◌, Bool, true, false, not, ◌&&◌, ◌||◌, if◌then◌else◌, Option, none, some, List, [], ◌∷◌,
  ◌++◌, map, length, ℤ, pos, eqb_ℤ, Text, codes, Dict, lookup, insert, sort_by, Result, ok, err,
  value_error, key_error, is_some, zero, suc, ◌>>=◌, or_raise, text_eq, is_member,
}

abbrev pub stamp : CanonicalTimeframeState → ℕ
stamp s = s.timestamp

pub record SetStateView : Type 0 where
  pub set_key : Text
  pub timestamp : ℕ
  pub htf : Option CanonicalTimeframeState
  pub mtf : Option CanonicalTimeframeState
  pub ltf : Option CanonicalTimeframeState
  pub movement_id : Option Text

pub record MovementEpisode : Type 0 where
  pub movement_id : Text
  pub symbol : Text
  pub identity_timeframe : CanonicalTimeframe
  pub direction : ℤ
  pub started_at : ℕ
  pub ended_at : Option ℕ

-- The locals of `CausalMovementLedger.__init__`.
pub record Legs : Type 0 where
  pub current_direction : ℤ
  pub current : Option (Text × ℕ)
  pub sequence : ℕ
  pub closed : List MovementEpisode
  pub state_to_movement : Dict Text
  pub times : List ℕ
  pub movement_by_time : List (Option Text)

pub record CausalMovementLedger : Type 0 where
  pub identity_timeframe : Option CanonicalTimeframe
  pub episodes : List MovementEpisode
  pub state_to_movement : Dict Text
  pub times : List ℕ
  pub movement_by_time : List (Option Text)

abbrev pub no_legs : Legs
no_legs = record {
  current_direction = pos 0;
  current = none;
  sequence = 0;
  closed = [];
  state_to_movement = [];
  times = [];
  movement_by_time = [];
}

-- The current leg as an episode that ended then.
unfoldable pub leg_episode :
    Text → CanonicalTimeframe → ℤ → Option (Text × ℕ) → Option ℕ → List MovementEpisode
leg_episode symbol timeframe direction none ended_at = []
leg_episode symbol timeframe direction (some (id, start)) ended_at =
    record {
      movement_id = id;
      symbol = symbol;
      identity_timeframe = timeframe;
      direction = direction;
      started_at = start;
      ended_at = ended_at;
    }
    ∷ []

unfoldable pub movement_name : Text → CanonicalTimeframe → ℕ → Text
unfolding pad_six
movement_name symbol timeframe sequence =
    symbol ++ (codes "|" ++ (timeframe_value timeframe ++ (codes "|LEG-" ++ pad_six sequence)))

-- A new leg begins at a state with another direction, which is not 0.
abbrev pub turns : ℤ → ℤ → Bool
turns direction current = not (eqb_ℤ direction (pos 0)) && not (eqb_ℤ direction current)

unfoldable pub turn_leg : Text → CanonicalTimeframe → ℤ → ℕ → Legs → Legs
unfolding leg_episode movement_name
turn_leg symbol timeframe direction timestamp legs =
    if turns direction legs.current_direction
    then record legs {
      closed =
          legs.closed
          ++ leg_episode symbol timeframe legs.current_direction legs.current (some timestamp);
      sequence = legs.sequence + 1;
      current = some (movement_name symbol timeframe (legs.sequence + 1), timestamp);
      current_direction = direction;
    }
    else legs

abbrev leg_id : Option (Text × ℕ) → Option Text
leg_id none = none
leg_id (some (id, start)) = some id

abbrev set_movement : Text → Option Text → Dict Text → Dict Text
set_movement state none d = d
set_movement state (some id) d = insert state id d

-- One turn of the loop over the states.
unfoldable pub leg_step : Text → CanonicalTimeframe → CanonicalTimeframeState → Legs → Legs
unfolding turn_leg
leg_step symbol timeframe state legs =
    let direction = trend_or_zero state.structural_trend in
    let legs' = turn_leg symbol timeframe direction state.timestamp legs in
    let movement = if eqb_ℤ direction (pos 0) then none else leg_id legs'.current in
    record legs' {
      state_to_movement = set_movement state.state_id movement legs'.state_to_movement;
      times = legs'.times ++ state.timestamp ∷ [];
      movement_by_time = legs'.movement_by_time ++ movement ∷ [];
    }

unfoldable pub leg_steps : Text → CanonicalTimeframe → List CanonicalTimeframeState → Legs → Legs
unfolding leg_step
leg_steps symbol timeframe [] legs = legs
leg_steps symbol timeframe (s ∷ ss) legs =
    leg_steps symbol timeframe ss (leg_step symbol timeframe s legs)

abbrev pub all_of : CanonicalTimeframe → List CanonicalTimeframeState → Bool
all_of timeframe [] = true
all_of timeframe (s ∷ ss) = timeframe_eq s.timeframe timeframe && all_of timeframe ss

abbrev pub head_symbol : List CanonicalTimeframeState → Text
head_symbol [] = []
head_symbol (s ∷ ss) = s.symbol

unfoldable pub new_ledger : List CanonicalTimeframeState → Result CausalMovementLedger
unfolding leg_steps
new_ledger [] = ok (record {
  identity_timeframe = none;
  episodes = [];
  state_to_movement = [];
  times = [];
  movement_by_time = [];
})
new_ledger (first ∷ rest) =
    let timeframe = first.timeframe in
    let ordered = sort_by stamp (first ∷ rest) in
    let symbol = head_symbol ordered in
    if not (all_of timeframe (first ∷ rest))
    then err value_error
    else let legs = leg_steps symbol timeframe ordered no_legs in
      ok (record {
        identity_timeframe = some timeframe;
        episodes =
            legs.closed ++ leg_episode symbol timeframe legs.current_direction legs.current none;
        state_to_movement = legs.state_to_movement;
        times = legs.times;
        movement_by_time = legs.movement_by_time;
      })

abbrev flat : Option (Option Text) → Option Text
flat none = none
flat (some o) = o

unfoldable pub at : ℕ → CausalMovementLedger → Option Text
unfolding bisect_right
at timestamp ledger =
    flat (item_before none (bisect_right ledger.times timestamp) ledger.movement_by_time)

unfoldable pub for_state : Option CanonicalTimeframeState → CausalMovementLedger → Option Text
for_state none ledger = none
for_state (some state) ledger = lookup state.state_id ledger.state_to_movement

abbrev pub Histories : Type 0
Histories = List (CanonicalTimeframe × List CanonicalTimeframeState)

unfoldable pub history_of : CanonicalTimeframe → Histories → List CanonicalTimeframeState
history_of timeframe [] = []
history_of timeframe ((tf, states) ∷ hs) =
    let rest = history_of timeframe hs in if timeframe_eq tf timeframe then states else rest

-- Each history by timestamp.
unfoldable pub normalized : Histories → Histories
normalized [] = []
normalized ((tf, states) ∷ hs) = (tf, sort_by stamp states) ∷ normalized hs

unfoldable pub state_asof : Histories → CanonicalTimeframe → ℕ → Option CanonicalTimeframeState
unfolding as_of history_of
state_asof histories timeframe timestamp = as_of stamp (history_of timeframe histories) timestamp

abbrev ledger_at : Option CausalMovementLedger → ℕ → Option Text
ledger_at none t = none
ledger_at (some ledger) t = at t ledger

unfoldable pub view_at : Text → Roles → Histories → Option CausalMovementLedger → ℕ → SetStateView
unfolding state_asof at
view_at key (htf, mtf, ltf) histories ledger timestamp = record {
  set_key = key;
  timestamp = timestamp;
  htf = state_asof histories htf timestamp;
  mtf = state_asof histories mtf timestamp;
  ltf = state_asof histories ltf timestamp;
  movement_id = ledger_at ledger timestamp;
}

abbrev all_stamps : Histories → List ℕ
all_stamps [] = []
all_stamps ((tf, states) ∷ hs) = map stamp states ++ all_stamps hs

abbrev eval_times : Option (List ℕ) → Histories → List ℕ
eval_times none histories = sorted_set (all_stamps histories)
eval_times (some timestamps) histories = sorted_set timestamps

unfoldable pub build_set_views :
    Histories → Text → Option (List ℕ) → Option CausalMovementLedger → Result (List SetStateView)
unfolding view_at normalized sorted_set
build_set_views histories set_key timestamps ledger = do
  key ← normalized_set_key set_key
  roles ← or_raise (lookup key timeframe_sets) key_error
  let hs = normalized histories
  ok (map (view_at key roles hs ledger) (eval_times timestamps hs))
