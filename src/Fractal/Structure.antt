-- ===== src/Fractal/Structure.antt =====
-- forex_platform/fractal_engine/state_engine.py: the market structure that `_OnlineTimeframeProcessor` tracks,
-- its swings, breaks, anchors and ranges. Prices are the decimals of the floats' texts. Each list has its
-- newest item first, and a heap of pending swings is a list, from which all that are crossed are taken.
pub mod Crossings
pub mod Origins
pub mod Breaks
use forex_platform.Decimal
use forex_platform.Decimal.{Decimal}
use forex_platform.Fractal.States.{StructuralRange, SwingType, swing_eq}
use forex_platform.Prelude.{
  ℕ, suc, ◌+◌, ◌-◌, ◌*◌, ltb, ◌==◌, Bool, true, false, not, ◌&&◌, ◌||◌, if◌then◌else◌, Option, none,
  some, List, [], ◌∷◌, ◌++◌, map, length, get_elem?, take, drop, ℤ, pos, negsuc, eqb_ℤ, sort_by,
}

pub record Bar : Type 0 where
  pub timestamp : ℕ
  pub high : Decimal
  pub low : Decimal
  pub close : Decimal

pub record SwingPoint : Type 0 where
  pub index : ℕ
  pub timestamp : ℕ
  pub price : Decimal
  pub swing_type : SwingType

pub data BreakType : Type 0 where
  bos choch : BreakType

pub record StructureBreak : Type 0 where
  pub index : ℕ
  pub timestamp : ℕ
  pub break_type : BreakType
  pub swing_index : ℕ
  pub swing_price : Decimal
  pub direction : ℤ
  pub body_close : Decimal

pub record Structure : Type 0 where
  pub lookback : ℕ
  pub bars : List Bar
  pub swings : List SwingPoint
  pub highs : List SwingPoint
  pub lows : List SwingPoint
  pub pending_highs : List SwingPoint
  pub pending_lows : List SwingPoint
  pub breaks : List StructureBreak
  pub broken_indices : List ℕ
  pub weak_indices : List ℕ
  pub protected_indices : List ℕ
  pub low_anchor : Option SwingPoint
  pub high_anchor : Option SwingPoint
  pub ranges : List StructuralRange

abbrev pub no_structure : ℕ → Structure
no_structure lookback = record {
  lookback = lookback;
  bars = [];
  swings = [];
  highs = [];
  lows = [];
  pending_highs = [];
  pending_lows = [];
  breaks = [];
  broken_indices = [];
  weak_indices = [];
  protected_indices = [];
  low_anchor = none;
  high_anchor = none;
  ranges = [];
}

abbrev all_highs_below : Decimal → List Bar → Bool
all_highs_below price [] = true
all_highs_below price (b ∷ bs) = Decimal.lt b.high price && all_highs_below price bs

abbrev all_lows_above : Decimal → List Bar → Bool
all_lows_above price [] = true
all_lows_above price (b ∷ bs) = Decimal.lt price b.low && all_lows_above price bs

abbrev swing_at : ℕ → Bar → SwingType → Decimal → SwingPoint
swing_at index bar swing_type price = record {
  index = index;
  timestamp = bar.timestamp;
  price = price;
  swing_type = swing_type;
}

-- The pivot in the middle of the last `2 * lookback + 1` bars, of which the newest has the index given.
unfoldable pub find_swing : ℕ → ℕ → List Bar → Option SwingPoint
find_swing lookback index bars =
    let others = take lookback bars ++ take lookback (drop (suc lookback) bars) in
    if ltb (length bars) (2 * lookback + 1) then none else elim (get_elem? bars lookback) [
      | none ↦ none
      | some bar ↦
          if all_highs_below bar.high others
          then some (swing_at (index - lookback) bar SwingType.high bar.high)
          else if all_lows_above bar.low others
          then some (swing_at (index - lookback) bar SwingType.low bar.low)
          else none
    ]

abbrev range_of : SwingPoint → SwingPoint → StructuralRange
range_of low high = record {
  low = low.price;
  high = high.price;
  low_swing_index = low.index;
  high_swing_index = high.index;
  low_timestamp = low.timestamp;
  high_timestamp = high.timestamp;
}

-- `_record_range`, for the new swing and those before it.
unfoldable pub record_range :
    SwingPoint → List SwingPoint → List StructuralRange → List StructuralRange
record_range new_swing [] ranges = ranges
record_range new_swing (previous ∷ older) ranges =
    let high = if swing_eq previous.swing_type SwingType.high then previous else new_swing in
    let low = if swing_eq previous.swing_type SwingType.low then previous else new_swing in
    if swing_eq previous.swing_type new_swing.swing_type
    then ranges
    else if Decimal.lt low.price high.price
    then range_of low high ∷ ranges
    else ranges

abbrev is_newer : SwingPoint → List SwingPoint → Bool
is_newer swing [] = true
is_newer swing (last ∷ older) = ltb last.index swing.index

-- A swing that is confirmed.
unfoldable pub add_swing : SwingPoint → Structure → Structure
unfolding record_range swing_eq
add_swing swing s =
    let is_high = swing_eq swing.swing_type SwingType.high in
    record s {
      swings = swing ∷ s.swings;
      highs = if is_high then swing ∷ s.highs else s.highs;
      lows = if is_high then s.lows else swing ∷ s.lows;
      pending_highs = if is_high then swing ∷ s.pending_highs else s.pending_highs;
      pending_lows = if is_high then s.pending_lows else swing ∷ s.pending_lows;
      ranges = record_range swing s.swings s.ranges;
    }

unfoldable pub confirm_swing : Option SwingPoint → Structure → Structure
unfolding add_swing
confirm_swing none s = s
confirm_swing (some swing) s = if is_newer swing s.swings then add_swing swing s else s

-- The swing that `confirm_swing` adds.
abbrev pub confirmed : Option SwingPoint → Structure → Option SwingPoint
confirmed none s = none
confirmed (some swing) s = if is_newer swing s.swings then some swing else none

abbrev pub prices_rise : List SwingPoint → Bool
prices_rise (a ∷ b ∷ rest) = Decimal.lt b.price a.price
prices_rise _ = false

abbrev pub prices_fall : List SwingPoint → Bool
prices_fall (a ∷ b ∷ rest) = Decimal.lt a.price b.price
prices_fall _ = false

-- `_trend`, which never answers None.
abbrev pub trend_of_breaks : List StructureBreak → ℤ → ℤ
trend_of_breaks [] other = other
trend_of_breaks (b ∷ bs) other = b.direction

unfoldable pub trend : Structure → ℤ
trend s = trend_of_breaks s.breaks (
    if prices_rise s.highs && prices_rise s.lows
    then pos 1
    else if prices_fall s.highs && prices_fall s.lows
    then negsuc 0
    else pos 0)

-- A swing with the direction in which the close has passed it.
abbrev pub Crossing : Type 0
Crossing = SwingPoint × ℤ

abbrev pub is_member : ℕ → List ℕ → Bool
is_member n [] = false
is_member n (m ∷ ms) = (n == m) || is_member n ms

abbrev is_crossed : Bool → Decimal → SwingPoint → Bool
is_crossed up close s = if up then Decimal.lt s.price close else Decimal.lt close s.price

-- The swings of a heap that the close has passed, but for broken and future ones.
unfoldable pub crossings : Bool → Decimal → ℕ → List ℕ → List SwingPoint → List Crossing
crossings up close index broken [] = []
crossings up close index broken (s ∷ ss) =
    let rest = crossings up close index broken ss in
    if is_crossed up close s && (ltb s.index index && not (is_member s.index broken))
    then (s, if up then pos 1 else negsuc 0) ∷ rest
    else rest

-- What is left of the heap.
unfoldable pub uncrossed : Bool → Decimal → List SwingPoint → List SwingPoint
uncrossed up close [] = []
uncrossed up close (s ∷ ss) =
    let rest = uncrossed up close ss in if is_crossed up close s then rest else s ∷ rest

abbrev first_swing : List SwingPoint → Option SwingPoint
first_swing [] = none
first_swing (s ∷ ss) = some s

abbrev index_list : Option SwingPoint → List ℕ → List ℕ
index_list none is = is
index_list (some s) is = s.index ∷ is

-- The later of an anchor and the origin of a break.
abbrev later_anchor : Option SwingPoint → Option SwingPoint → Option SwingPoint
later_anchor none anchor = anchor
later_anchor (some origin) none = some origin
later_anchor (some origin) (some anchor) =
    if ltb anchor.index origin.index then some origin else some anchor

-- A break with the trend makes its swing weak, and protects the last swing on the other side.
unfoldable pub protect_origin : SwingPoint → ℤ → Structure → Structure
protect_origin swing direction s =
    let up = eqb_ℤ direction (pos 1) in
    let origin = first_swing (if up then s.lows else s.highs) in
    record s {
      weak_indices = swing.index ∷ s.weak_indices;
      protected_indices = index_list origin s.protected_indices;
      low_anchor = if up then later_anchor origin s.low_anchor else s.low_anchor;
      high_anchor = if up then s.high_anchor else later_anchor origin s.high_anchor;
    }

-- The kind of a break, from the trend before it.
unfoldable pub kind_of : ℤ → ℤ → BreakType
kind_of trend_before direction =
    if eqb_ℤ trend_before (pos 0) || eqb_ℤ trend_before direction then bos else choch

abbrev is_bos : BreakType → Bool
is_bos bos = true
is_bos choch = false

-- One turn of the loop over the crossed swings.
unfoldable pub break_swing : ℕ → ℕ → Decimal → Crossing → Structure → Structure
unfolding protect_origin kind_of trend
break_swing index timestamp close (swing, direction) s =
    let kind = kind_of (trend s) direction in
    let s' = record s {
      breaks =
          record {
            index = index;
            timestamp = timestamp;
            break_type = kind;
            swing_index = swing.index;
            swing_price = swing.price;
            direction = direction;
            body_close = close;
          }
          ∷ s.breaks;
      broken_indices = swing.index ∷ s.broken_indices;
    } in
    if is_bos kind then protect_origin swing direction s' else s'

unfoldable pub break_swings : ℕ → ℕ → Decimal → List Crossing → Structure → Structure
unfolding break_swing
break_swings index timestamp close [] s = s
break_swings index timestamp close (c ∷ cs) s =
    break_swings index timestamp close cs (break_swing index timestamp close c s)

abbrev pub crossing_index : Crossing → ℕ
crossing_index (swing, direction) = swing.index

-- The swings that a close crosses, in the order of their bars.
unfoldable pub crossed : ℕ → Decimal → Structure → List Crossing
unfolding crossings
crossed index close s = sort_by crossing_index (
    crossings true close index s.broken_indices s.pending_highs
    ++ crossings false close index s.broken_indices s.pending_lows)

-- The first part of `push`, up to the breaks of the bar.
unfoldable pub track : Bar → Structure → Structure
unfolding find_swing confirm_swing crossed uncrossed break_swings
track bar s =
    let index = length s.bars in
    let bars = bar ∷ s.bars in
    let s1 = confirm_swing (find_swing s.lookback index bars) (record s { bars = bars }) in
    break_swings index bar.timestamp bar.close (crossed index bar.close s1) (record s1 {
      pending_highs = uncrossed true bar.close s1.pending_highs;
      pending_lows = uncrossed false bar.close s1.pending_lows;
    })

unfoldable pub track_all : List Bar → Structure → Structure
unfolding track
track_all [] s = s
track_all (bar ∷ bars) s = track_all bars (track bar s)
