-- ===== src/Fractal/Streaming.antt =====
-- forex_platform/fractal_engine/state_engine.py: `UniversalTimeframeStateEngine.update`, which groups completed
-- source bars into the candles of each timeframe and hands each closed candle to its processor. The open,
-- the volume and the spread of a candle, which no processor reads, are left out.
pub mod Candles
use forex_platform.Decimal
use forex_platform.Decimal.{Decimal}
use forex_platform.Fractal.Ladder.{
  CanonicalTimeframe, canonical_ladder, available_timeframes, timeframe_bucket_end,
  timeframe_bucket_start,
}
use forex_platform.Fractal.Processor.{Processor, Snapshot, ZoneTracker, new_processor, push}
use forex_platform.Fractal.Structure.{Bar}
use forex_platform.Prelude.{
  ℕ, ◌+◌, ◌-◌, leb, ltb, ◌==◌, Bool, true, false, not, if◌then◌else◌, Option, none, some, List, [],
  ◌∷◌, ◌++◌, length, drop, Result, ok, err, value_error, ◌>>=◌,
}

-- The source bars of one target candle, the oldest first.
pub record Group : Type 0 where
  pub start : ℕ
  pub rows : List Bar

abbrev highest : Decimal → List Bar → Decimal
highest best [] = best
highest best (b ∷ bs) = highest (if Decimal.lt best b.high then b.high else best) bs

abbrev lowest : Decimal → List Bar → Decimal
lowest best [] = best
lowest best (b ∷ bs) = lowest (if Decimal.lt b.low best then b.low else best) bs

abbrev last_close : Decimal → List Bar → Decimal
last_close found [] = found
last_close found (b ∷ bs) = last_close b.close bs

-- `_aggregate_group`, of at least one row.
unfoldable pub aggregate_group : List Bar → ℕ → Option Bar
aggregate_group [] close_time = none
aggregate_group (b ∷ bs) close_time = some (record {
  timestamp = close_time;
  high = highest b.high bs;
  low = lowest b.low bs;
  close = last_close b.close bs;
})

-- A group of another interval is closed by the bar.
unfoldable pub close_other : ℕ → Option Group → List Group × Option Group
close_other start none = ([], none)
close_other start (some g) = if g.start == start then ([], some g) else (g ∷ [], none)

abbrev pub rows_of : Option Group → List Bar
rows_of none = []
rows_of (some g) = g.rows

abbrev group_start : ℕ → Option Group → ℕ
group_start start none = start
group_start start (some g) = g.start

-- What one source bar closes, and the group that is left.
unfoldable pub group_bar : CanonicalTimeframe → ℕ → Bar → Option Group → List Group × Option Group
unfolding close_other
group_bar timeframe interval bar group =
    let start = timeframe_bucket_start timeframe bar.timestamp in
    let (closed, current) = close_other start group in
    let g : Group = record {
      start = group_start start current;
      rows = rows_of current ++ bar ∷ [];
    } in
    if bar.timestamp + interval == timeframe_bucket_end timeframe start
    then (closed ++ g ∷ [], none)
    else (closed, some g)

unfoldable pub group_bars :
    CanonicalTimeframe → ℕ → List Bar → Option Group → List Group × Option Group
unfolding group_bar
group_bars timeframe interval [] group = ([], group)
group_bars timeframe interval (bar ∷ bars) group =
    let (closed, left) = group_bar timeframe interval bar group in
    let (later, rest) = group_bars timeframe interval bars left in (closed ++ later, rest)

module _ (tracker : ZoneTracker) where
  -- One entry of the engine's dictionaries.
  pub record Slot : Type 0 where
    pub timeframe : CanonicalTimeframe
    pub processor : Processor tracker
    pub group : Option Group
    pub state : Option Snapshot
    pub history : List Snapshot

  pub record StateEngine : Type 0 where
    pub source_interval : ℕ
    pub max_history_bars : ℕ
    pub last_source_timestamp : Option ℕ
    pub slots : List Slot

  -- `_publish`: the history keeps its last states, or all with a limit of 0.
  unfoldable pub publish : ℕ → Snapshot → Slot → Slot
  publish limit state slot =
      let history = slot.history ++ state ∷ [] in
      record slot {
        state = some state;
        history = if limit == 0 then history else drop (length history - limit) history;
      }

  -- The closed candles, in order, through the processor.
  unfoldable pub push_groups : ℕ → List Group → Slot → Result (List Snapshot × Slot)
  unfolding aggregate_group push publish
  push_groups limit [] slot = ok ([], slot)
  push_groups limit (g ∷ gs) slot =
      elim (aggregate_group g.rows (timeframe_bucket_end slot.timeframe g.start)) [
        | none ↦ push_groups limit gs slot
        | some bar ↦ do
          (state, processor) ← push tracker bar slot.processor
          (later, slot') ←
              push_groups limit gs (publish limit state (record slot { processor = processor }))
          ok (state ∷ later, slot')
      ]

  unfoldable pub update_slots : ℕ → ℕ → Bar → List Slot → Result (List (List Snapshot) × List Slot)
  unfolding group_bar push_groups
  update_slots interval limit bar [] = ok ([], [])
  update_slots interval limit bar (slot ∷ slots) = do
    let (closed, left) = group_bar slot.timeframe interval bar slot.group
    (states, slot') ← push_groups limit closed (record slot { group = left })
    (rest, slots') ← update_slots interval limit bar slots
    ok (states ∷ rest, slot' ∷ slots')

  abbrev arrives_later : ℕ → Option ℕ → Bool
  arrives_later t none = true
  arrives_later t (some last) = ltb last t

  -- The states that each timeframe has newly closed; a candle after another takes its place in the answer.
  unfoldable pub update : Bar → StateEngine → Result (List (List Snapshot) × StateEngine)
  unfolding update_slots
  update bar e =
      if not (arrives_later bar.timestamp e.last_source_timestamp) then err value_error else (do
        (states, slots) ← update_slots e.source_interval e.max_history_bars bar e.slots
        ok (states, record e { last_source_timestamp = some bar.timestamp; slots = slots }))
