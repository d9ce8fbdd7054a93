-- ===== src/Fractal/Processor.antt =====
-- forex_platform/fractal_engine/state_engine.py: `_OnlineTimeframeProcessor.push`, which reads a state off the
-- structure after each bar. A state is a snapshot of values, without its texts and sessions; the tracker of
-- zones, with the detectors that it calls, is a parameter, and a signature is a tuple of its parts.
mod Readings
mod Signatures
unfoldable pub use forex_platform.Fractal.Processor.Readings.{
  swing_state, phase, containing, select_range, location, key_levels, invalidation,
}
pub use forex_platform.Fractal.Processor.Readings.*
unfoldable pub use forex_platform.Fractal.Processor.Signatures.{
  phase_eq, location_eq, signature_eq, changes, transition,
}
pub use forex_platform.Fractal.Processor.Signatures.*
use forex_platform.Decimal
use forex_platform.Decimal.{Decimal, decimal}
use forex_platform.Fractal.States.{
  KeyLevel, Location, MarketPhase, StructuralRange, Transition, pullback, continuation, premium,
  equilibrium, discount, unknown, state_start, persistence, structural_transition, phase_transition,
  location_migration, zone_migration, range_transition,
}
use forex_platform.Fractal.Structure.{
  Bar, Structure, StructureBreak, SwingPoint, confirmed, find_swing, is_member, no_structure,
  prices_fall, prices_rise, track, trend,
}
use forex_platform.Prelude.{
  ℕ, ◌+◌, ◌-◌, ltb, ◌==◌, Bool, true, false, not, ◌&&◌, ◌||◌, if◌then◌else◌, Option, none, some,
  List, [], ◌∷◌, ◌++◌, map, reverse, length, take, ℤ, pos, eqb_ℤ, ltb_ℤ, Text, text_eq, Result, ok,
  err, value_error,
}

-- What `_update_zones` keeps, and the sorted names of the zones that are active.
pub record ZoneTracker : Type 1 where
  pub Zones : Type 0
  pub no_zones : Zones
  pub update_zones : List Bar → Option SwingPoint → List StructureBreak → Structure → Zones → Zones
  pub zone_ids : Zones → List Text

pub record Snapshot : Type 0 where
  pub timestamp : ℕ
  pub bar_index : ℕ
  pub current_price : Decimal
  pub structural_trend : ℤ
  pub swing_state : SwingState
  pub phase : MarketPhase
  pub location : Location
  pub structural_range : Option StructuralRange
  pub range_ambiguous : Bool
  pub range_candidate_count : ℕ
  pub swings : List SwingPoint
  pub breaks : List StructureBreak
  pub key_levels : List KeyLevel
  pub invalidation : Option SwingPoint
  pub zone_ids : List Text
  pub transition : List Transition
  pub duration_bars : ℕ

abbrev closes_later : ℕ → List Bar → Bool
closes_later t [] = true
closes_later t (last ∷ older) = ltb last.timestamp t

-- The breaks that a bar has added, the oldest first.
abbrev new_breaks : Structure → Structure → List StructureBreak
new_breaks before after = reverse (take (length after.breaks - length before.breaks) after.breaks)

module _ (tracker : ZoneTracker) where
  open tracker use {Zones, no_zones, update_zones, zone_ids}

  pub record Processor : Type 0 where
    pub structure : Structure
    pub zones : Zones
    pub previous_signature : Option Signature
    pub duration : ℕ

  unfoldable pub new_processor : ℕ → Result Processor
  new_processor lookback =
      if ltb lookback 1
      then err value_error
      else ok (record {
        structure = no_structure lookback;
        zones = no_zones;
        previous_signature = none;
        duration = 0;
      })

  unfoldable pub push : Bar → Processor → Result (Snapshot × Processor)
  unfolding track trend find_swing phase select_range location swing_state key_levels invalidation
      transition containing
  push bar p =
      let before = p.structure in
      let s = track bar before in
      let close = bar.close in
      let index = length before.bars in
      let swing = confirmed (find_swing before.lookback index s.bars) before in
      let zones = update_zones s.bars swing (new_breaks before s) s p.zones in
      let t = trend s in
      let ph = phase t close s in
      let ranges = take 3 s.ranges in
      let range = select_range close ranges in
      let place = location close range in
      let signature : Signature = record {
        trend = t;
        phase = ph;
        location = place;
        range = range;
        zones = zone_ids zones;
      } in
      let (labels, duration) = transition p.previous_signature p.duration signature in
      if not (closes_later bar.timestamp before.bars)
      then err value_error
      else ok (
        record {
          timestamp = bar.timestamp;
          bar_index = index;
          current_price = close;
          structural_trend = t;
          swing_state = swing_state s;
          phase = ph;
          location = place;
          structural_range = range;
          range_ambiguous = is_ambiguous (containing close ranges);
          range_candidate_count = length ranges;
          swings = reverse (take 24 s.swings);
          breaks = reverse (take 24 s.breaks);
          key_levels = key_levels bar.timestamp s;
          invalidation = invalidation t s;
          zone_ids = zone_ids zones;
          transition = labels;
          duration_bars = duration;
        },
        record {
          structure = s;
          zones = zones;
          previous_signature = some signature;
          duration = duration;
        },
      )
