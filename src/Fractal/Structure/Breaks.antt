-- ===== src/Fractal/Structure/Breaks.antt =====
-- What holds of the swings and breaks after any bars.
use forex_platform.Fractal.Structure.Crossings.{
  IsBeyond, IsCross, Kinds, IsFalling, IsPast, All-past, find_swing-past, newer-falling,
  crossings-pass, uncrossed-past, kind-turn,
}
use forex_platform.Fractal.Structure.Origins.{IsOfSwing, track_all-IsOfSwing}
use forex_platform.Decimal
use forex_platform.Fractal.Structure.{
  Bar, Crossing, Structure, StructureBreak, SwingPoint, add_swing, break_swing, break_swings,
  confirm_swing, crossed, crossings, find_swing, is_bos, is_newer, kind_of, no_structure,
  protect_origin, track, track_all, trend, trend_of_breaks, crossing_index,
}
use forex_platform.Fractal.States.{SwingType, swing_eq}
use forex_platform.Prelude.{
  ℕ, ◌+◌, ◌≤◌, ◌<◌, true, false, Bool-cases, Option, none, some, List, [], ◌∷◌, ◌++◌, length, All,
  All-append, All-sort_by, ℤ, ◌≡◌, ◌∙◌, inl, inr, refl, arith,
}

record IsSound (lookback : ℕ) (s : Structure) : Type 0 where
  kept : s.lookback ≡ lookback
  past : All (IsPast lookback (length s.bars)) s.swings
  falling : IsFalling s.swings
  high : All (IsPast lookback (length s.bars)) s.pending_highs
  low : All (IsPast lookback (length s.bars)) s.pending_lows
  crosses : All (IsCross lookback) s.breaks
  kinds : Kinds s.breaks

add_swing-IsSound :
    (lookback : ℕ) (w : SwingPoint) (s : Structure)
    → IsPast lookback (length s.bars) w
    → is_newer w s.swings ≡ true
    → IsSound lookback s
    → IsSound lookback (add_swing w s)
unfolding add_swing
add_swing-IsSound lookback w s past newer h =
    let falls = newer-falling w s.swings newer h.falling in
    record {
      kept = h.kept;
      past = (past, h.past);
      falling = (falls, h.falling);
      high = elim (Bool-cases (swing_eq w.swing_type SwingType.high)) [
        | inl is_high ↦ rw is_high (past, h.high)
        | inr is_low ↦ rw is_low h.high
      ];
      low = elim (Bool-cases (swing_eq w.swing_type SwingType.high)) [
        | inl is_high ↦ rw is_high h.low
        | inr is_low ↦ rw is_low (past, h.low)
      ];
      crosses = h.crosses;
      kinds = h.kinds;
    }

Kinds-cons :
    (lookback : ℕ) (b : StructureBreak) (bs : List StructureBreak) (other : ℤ)
    → b.break_type ≡ kind_of (trend_of_breaks bs other) b.direction
    → All (IsCross lookback) bs
    → Kinds bs
    → Kinds (b ∷ bs)
Kinds-cons lookback b [] other kind all kinds = tt
Kinds-cons lookback b (c ∷ bs) other kind all kinds =
    (kind ∙ kind-turn lookback c b.direction all.0, kinds)

break_swing-IsSound :
    (lookback index t : ℕ) (close : Decimal.Decimal) (c : Crossing) (s : Structure)
    → (c.0.index + lookback ≤ index) × IsBeyond c.0.price c.1 close
    → IsSound lookback s
    → IsSound lookback (break_swing index t close c s)
unfolding break_swing protect_origin trend
break_swing-IsSound lookback index t close (w, d) s pass h =
    let b : StructureBreak = record {
      index = index;
      timestamp = t;
      break_type = kind_of (trend s) d;
      swing_index = w.index;
      swing_price = w.price;
      direction = d;
      body_close = close;
    } in
    let kinds = Kinds-cons lookback b s.breaks _ refl h.crosses h.kinds in
    elim (Bool-cases (is_bos (kind_of (trend s) d))) [
      | inl with_trend ↦ rw with_trend (record {
        kept = h.kept;
        past = h.past;
        falling = h.falling;
        high = h.high;
        low = h.low;
        crosses = (pass, h.crosses);
        kinds = kinds;
      })
      | inr against ↦ rw against (record {
        kept = h.kept;
        past = h.past;
        falling = h.falling;
        high = h.high;
        low = h.low;
        crosses = (pass, h.crosses);
        kinds = kinds;
      })
    ]

break_swings-IsSound :
    (lookback index t : ℕ) (close : Decimal.Decimal) (cs : List Crossing) (s : Structure)
    → All (λ (c : Crossing). (c.0.index + lookback ≤ index) × IsBeyond c.0.price c.1 close) cs
    → IsSound lookback s
    → IsSound lookback (break_swings index t close cs s)
unfolding break_swings
break_swings-IsSound lookback index t close [] s pass h = h
break_swings-IsSound lookback index t close (c ∷ cs) s pass h =
    break_swings-IsSound lookback index t close cs (break_swing index t close c s) pass.1
      (break_swing-IsSound lookback index t close c s pass.0 h)

add_swing-bars : (w : SwingPoint) (s : Structure) → (add_swing w s).bars ≡ s.bars
unfolding add_swing
add_swing-bars w s = refl

confirm_swing-IsSound :
    (lookback index : ℕ) (o : Option SwingPoint) (s : Structure)
    → length s.bars ≡ index + 1
    → ((w : SwingPoint) → o ≡ some w → w.index + lookback ≡ index)
    → IsSound lookback s
    → IsSound lookback (confirm_swing o s) × ((confirm_swing o s).bars ≡ s.bars)
unfolding confirm_swing
confirm_swing-IsSound lookback index none s n past h = (h, refl)
confirm_swing-IsSound lookback index (some w) s n past h = elim (Bool-cases (is_newer w s.swings)) [
  | inl newer ↦
      let e = past w refl in
      let before : IsPast lookback (length s.bars) w = omega arith in
      rw newer (add_swing-IsSound lookback w s before newer h, add_swing-bars w s)
  | inr old ↦ rw old (h, refl)
]

crossed-pass :
    (lookback index : ℕ) (close : Decimal.Decimal) (s : Structure)
    → length s.bars ≡ index + 1
    → IsSound lookback s
    → All
        (λ (c : Crossing). (c.0.index + lookback ≤ index) × IsBeyond c.0.price c.1 close)
        (crossed index close s)
unfolding crossed
crossed-pass lookback index close s n h =
    let P = λ (c : Crossing). (c.0.index + lookback ≤ index) × IsBeyond c.0.price c.1 close in
    let highs = crossings true close index s.broken_indices s.pending_highs in
    let lows = crossings false close index s.broken_indices s.pending_lows in
    let high =
      crossings-pass true close index lookback s.broken_indices s.pending_highs
        (All-past lookback (length s.bars) (index + 1) s.pending_highs (omega arith) h.high) in
    let low =
      crossings-pass false close index lookback s.broken_indices s.pending_lows
        (All-past lookback (length s.bars) (index + 1) s.pending_lows (omega arith) h.low) in
    All-sort_by crossing_index P (highs ++ lows) (All-append P highs lows high low)

track-IsSound :
    (lookback : ℕ) (bar : Bar) (s : Structure) → IsSound lookback s → IsSound lookback (track bar s)
unfolding track
track-IsSound lookback bar s h =
    let index = length s.bars in
    let s0 : Structure = record s { bars = bar ∷ s.bars } in
    let n : length s0.bars ≡ index + 1 = omega arith in
    let h0 : IsSound lookback s0 = record {
      kept = h.kept;
      past = All-past lookback index (length s0.bars) s.swings (omega arith) h.past;
      falling = h.falling;
      high = All-past lookback index (length s0.bars) s.pending_highs (omega arith) h.high;
      low = All-past lookback index (length s0.bars) s.pending_lows (omega arith) h.low;
      crosses = h.crosses;
      kinds = h.kinds;
    } in
    let o = find_swing s.lookback index s0.bars in
    let s1 = confirm_swing o s0 in
    let found : (w : SwingPoint) → o ≡ some w → w.index + lookback ≡ index =
      λ w e. omega (arith, h.kept, find_swing-past s.lookback index s0.bars w n e) in
    let (h1, same) = confirm_swing-IsSound lookback index o s0 n found h0 in
    let n1 : length s1.bars ≡ index + 1 = rw same n in
    break_swings-IsSound lookback index bar.timestamp bar.close (crossed index bar.close s1) _
      (crossed-pass lookback index bar.close s1 n1 h1)
      (record {
        kept = h1.kept;
        past = h1.past;
        falling = h1.falling;
        high = uncrossed-past lookback (length s1.bars) true bar.close s1.pending_highs h1.high;
        low = uncrossed-past lookback (length s1.bars) false bar.close s1.pending_lows h1.low;
        crosses = h1.crosses;
        kinds = h1.kinds;
      })

track_all-IsSound :
    (lookback : ℕ) (bars : List Bar) (s : Structure)
    → IsSound lookback s
    → IsSound lookback (track_all bars s)
unfolding track_all
track_all-IsSound lookback [] s h = h
track_all-IsSound lookback (bar ∷ bars) s h =
    track_all-IsSound lookback bars (track bar s) (track-IsSound lookback bar s h)

-- After any bars, each swing has the lookback's number of bars behind it, with the indices in order; each
-- break is of one of these swings, a high for a break upwards and a low for one downwards, which was
-- confirmed by then, and was made by a close beyond its price in that direction; and of two breaks that
-- follow, the later one is a change of character exactly when it turns.
pub track_all_sound :
    (lookback : ℕ) (bars : List Bar)
    → let s = track_all bars (no_structure lookback) in
      All (λ (w : SwingPoint). w.index + lookback < length s.bars) s.swings
      × IsFalling s.swings
      × All (IsCross lookback) s.breaks
      × All (IsOfSwing s.swings) s.breaks
      × Kinds s.breaks
track_all_sound lookback bars =
    let start : IsSound lookback (no_structure lookback) = record {
      kept = refl;
      past = tt;
      falling = tt;
      high = tt;
      low = tt;
      crosses = tt;
      kinds = tt;
    } in
    let h = track_all-IsSound lookback bars (no_structure lookback) start in
    (h.past, h.falling, h.crosses, track_all-IsOfSwing lookback bars, h.kinds)
