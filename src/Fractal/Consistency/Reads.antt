-- ===== src/Fractal/Consistency/Reads.antt =====
-- forex_platform/fractal_engine/consistency.py: the read of one set.
use forex_platform.Fractal.Graph.{SetStateView}
use forex_platform.Fractal.Ladder.{normalized_set_key}
use forex_platform.Fractal.Requirements.{expected_child_shift, expected_phase}
use forex_platform.Fractal.States.{CanonicalTimeframeState, Location, MarketPhase, opt_eq}
use forex_platform.Prelude.{
  ℕ, Bool, if◌then◌else◌, Option, none, some, List, [], ◌∷◌, ℤ, Text, codes, Result, ok, ◌>>=◌,
}

pub data SetStatus : Type 0 where
  insufficient_coverage htf_unresolved pending_mtf_setup mtf_setup_formed : SetStatus

pub data Verdict : Type 0 where
  aligned conflicted waiting : Verdict

abbrev pub SetPair : Type 0
SetPair = Text × Text

abbrev pub adjacent_set_pairs : List SetPair
adjacent_set_pairs =
    (codes "SET_1", codes "SET_2")
    ∷ (codes "SET_2", codes "SET_3")
    ∷ (codes "SET_3", codes "SET_4")
    ∷ (codes "SET_4", codes "SET_5")
    ∷ []

pub record SetRead : Type 0 where
  pub set_key : Text
  pub timestamp : ℕ
  pub htf_state_id : Option Text
  pub mtf_state_id : Option Text
  pub htf_trend : Option ℤ
  pub htf_location : Option Location
  pub required_mtf_shift : Option ℤ
  pub expected_phase : Option MarketPhase
  pub mtf_trend : Option ℤ
  pub mtf_formed : Option Bool
  pub status : SetStatus

abbrev id_of : Option CanonicalTimeframeState → Option Text
id_of none = none
id_of (some s) = some s.state_id

abbrev trend_of : Option CanonicalTimeframeState → Option ℤ
trend_of none = none
trend_of (some s) = s.structural_trend

abbrev location_of : Option CanonicalTimeframeState → Option Location
location_of none = none
location_of (some s) = some s.location

-- A read without a required shift.
abbrev partial_read :
    Text → ℕ → Option CanonicalTimeframeState → Option CanonicalTimeframeState → SetStatus → SetRead
partial_read key timestamp htf mtf status = record {
  set_key = key;
  timestamp = timestamp;
  htf_state_id = id_of htf;
  mtf_state_id = id_of mtf;
  htf_trend = trend_of htf;
  htf_location = location_of htf;
  required_mtf_shift = none;
  expected_phase = none;
  mtf_trend = trend_of mtf;
  mtf_formed = none;
  status = status;
}

-- A read of both states.
abbrev shift_read :
    Text → ℕ → CanonicalTimeframeState → CanonicalTimeframeState → Option ℤ → SetRead
shift_read key timestamp htf mtf none =
    partial_read key timestamp (some htf) (some mtf) htf_unresolved
shift_read key timestamp htf mtf (some shift) =
    let formed = opt_eq mtf.structural_trend (some shift) in
    record {
      set_key = key;
      timestamp = timestamp;
      htf_state_id = some htf.state_id;
      mtf_state_id = some mtf.state_id;
      htf_trend = htf.structural_trend;
      htf_location = some htf.location;
      required_mtf_shift = some shift;
      expected_phase = expected_phase htf;
      mtf_trend = mtf.structural_trend;
      mtf_formed = some formed;
      status = if formed then mtf_setup_formed else pending_mtf_setup;
    }

-- `evaluate_set_read`, after the set's key.
unfoldable pub read_states :
    Text → ℕ → Option CanonicalTimeframeState → Option CanonicalTimeframeState → SetRead
read_states key timestamp (some htf) (some mtf) =
    shift_read key timestamp htf mtf (expected_child_shift htf)
read_states key timestamp htf mtf = partial_read key timestamp htf mtf insufficient_coverage

unfoldable pub evaluate_set_read : SetStateView → Result SetRead
unfolding read_states
evaluate_set_read view = do
  key ← normalized_set_key view.set_key
  ok (read_states key view.timestamp view.htf view.mtf)
