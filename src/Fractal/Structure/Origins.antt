-- ===== src/Fractal/Structure/Origins.antt =====
-- Which swing a break is of.
use forex_platform.Decimal.{Decimal}
use forex_platform.Fractal.States.{SwingType, swing_eq}
use forex_platform.Fractal.Structure.{
  Bar, Crossing, Structure, StructureBreak, SwingPoint, add_swing, break_swing, break_swings,
  confirm_swing, crossed, crossing_index, crossings, find_swing, is_bos, is_newer, kind_of,
  no_structure, protect_origin, track, track_all, trend, uncrossed,
}
use forex_platform.Prelude.{
  ℕ, Bool, true, false, if◌then◌else◌, Bool-cases, Option, none, some, List, [], ◌∷◌, ◌++◌, Any,
  All, All-append, All-sort_by, ℤ, pos, negsuc, ◌≡◌, inl, inr, refl, sym, subst, arith, length,
}

-- A break upwards is of a high, one downwards of a low.
abbrev pub broken_type : ℤ → SwingType
broken_type (pos n) = SwingType.high
broken_type (negsuc n) = SwingType.low

-- One of the swings has this index, price and type.
abbrev pub IsKept : List SwingPoint → ℕ → Decimal → SwingType → Type 0
IsKept swings index price type =
    Any (λ (v : SwingPoint). (v.index ≡ index) × (v.price ≡ price) × (v.swing_type ≡ type)) swings

-- The break is of one of the swings.
abbrev pub IsOfSwing : List SwingPoint → StructureBreak → Type 0
IsOfSwing swings b = IsKept swings b.swing_index b.swing_price (broken_type b.direction)

abbrev IsPending : List SwingPoint → SwingType → SwingPoint → Type 0
IsPending swings type w = IsKept swings w.index w.price type

abbrev IsCrossed : List SwingPoint → Crossing → Type 0
IsCrossed swings c = IsKept swings c.0.index c.0.price (broken_type c.1)

record IsTied (s : Structure) : Type 0 where
  high : All (IsPending s.swings SwingType.high) s.pending_highs
  low : All (IsPending s.swings SwingType.low) s.pending_lows
  made : All (IsOfSwing s.swings) s.breaks

All-pending :
    (w : SwingPoint) (swings ws : List SwingPoint) (type : SwingType)
    → All (IsPending swings type) ws
    → All (IsPending (w ∷ swings) type) ws
All-pending w swings [] type all = tt
All-pending w swings (v ∷ vs) type all = (inr all.0, All-pending w swings vs type all.1)

All-made :
    (w : SwingPoint) (swings : List SwingPoint) (bs : List StructureBreak)
    → All (IsOfSwing swings) bs
    → All (IsOfSwing (w ∷ swings)) bs
All-made w swings [] all = tt
All-made w swings (b ∷ bs) all = (inr all.0, All-made w swings bs all.1)

swing_eq-high : (t : SwingType) → swing_eq t SwingType.high ≡ true → t ≡ SwingType.high
unfolding swing_eq
swing_eq-high SwingType.high e = refl
swing_eq-high SwingType.low e = absurd (ground arith)

swing_eq-low : (t : SwingType) → swing_eq t SwingType.high ≡ false → t ≡ SwingType.low
unfolding swing_eq
swing_eq-low SwingType.high e = absurd (ground arith)
swing_eq-low SwingType.low e = refl

add_swing-IsTied : (w : SwingPoint) (s : Structure) → IsTied s → IsTied (add_swing w s)
unfolding add_swing
add_swing-IsTied w s h =
    let highs = All-pending w s.swings s.pending_highs SwingType.high h.high in
    let lows = All-pending w s.swings s.pending_lows SwingType.low h.low in
    record {
      high = elim (Bool-cases (swing_eq w.swing_type SwingType.high)) [
        | inl is_high ↦ rw is_high (inl (refl, refl, swing_eq-high w.swing_type is_high), highs)
        | inr is_low ↦ rw is_low highs
      ];
      low = elim (Bool-cases (swing_eq w.swing_type SwingType.high)) [
        | inl is_high ↦ rw is_high lows
        | inr is_low ↦ rw is_low (inl (refl, refl, swing_eq-low w.swing_type is_low), lows)
      ];
      made = All-made w s.swings s.breaks h.made;
    }

confirm_swing-IsTied :
    (o : Option SwingPoint) (s : Structure) → IsTied s → IsTied (confirm_swing o s)
unfolding confirm_swing
confirm_swing-IsTied none s h = h
confirm_swing-IsTied (some w) s h = elim (Bool-cases (is_newer w s.swings)) [
  | inl newer ↦ rw newer (add_swing-IsTied w s h)
  | inr old ↦ rw old h
]

crossings-IsCrossed :
    (up : Bool) (close : Decimal) (index : ℕ) (broken : List ℕ) (swings ws : List SwingPoint)
    → All (IsPending swings (if up then SwingType.high else SwingType.low)) ws
    → All (IsCrossed swings) (crossings up close index broken ws)
unfolding crossings
crossings-IsCrossed up close index broken swings [] all = tt
crossings-IsCrossed true close index broken swings (w ∷ ws) all =
    ground (arith, crossings-IsCrossed true close index broken swings ws all.1)
crossings-IsCrossed false close index broken swings (w ∷ ws) all =
    ground (arith, crossings-IsCrossed false close index broken swings ws all.1)

uncrossed-IsPending :
    (up : Bool) (close : Decimal) (swings ws : List SwingPoint) (type : SwingType)
    → All (IsPending swings type) ws
    → All (IsPending swings type) (uncrossed up close ws)
unfolding uncrossed
uncrossed-IsPending up close swings [] type all = tt
uncrossed-IsPending up close swings (w ∷ ws) type all =
    ground (arith, uncrossed-IsPending up close swings ws type all.1)

crossed-IsCrossed :
    (index : ℕ) (close : Decimal) (s : Structure)
    → IsTied s
    → All (IsCrossed s.swings) (crossed index close s)
unfolding crossed
crossed-IsCrossed index close s h =
    let highs = crossings true close index s.broken_indices s.pending_highs in
    let lows = crossings false close index s.broken_indices s.pending_lows in
    All-sort_by crossing_index (IsCrossed s.swings) (highs ++ lows) (
      All-append (IsCrossed s.swings) highs lows
        (crossings-IsCrossed true close index s.broken_indices s.swings s.pending_highs h.high)
        (crossings-IsCrossed false close index s.broken_indices s.swings s.pending_lows h.low))

break_swing-IsTied :
    (index t : ℕ) (close : Decimal) (c : Crossing) (s : Structure)
    → IsCrossed s.swings c
    → IsTied s
    → IsTied (break_swing index t close c s) × ((break_swing index t close c s).swings ≡ s.swings)
unfolding break_swing protect_origin trend
break_swing-IsTied index t close (w, d) s crossing h =
    elim (Bool-cases (is_bos (kind_of (trend s) d))) [
      | inl with_trend ↦
          rw with_trend (record { high = h.high; low = h.low; made = (crossing, h.made) }, refl)
      | inr against ↦
          rw against (record { high = h.high; low = h.low; made = (crossing, h.made) }, refl)
    ]

break_swings-IsTied :
    (index t : ℕ) (close : Decimal) (cs : List Crossing) (s : Structure)
    → All (IsCrossed s.swings) cs
    → IsTied s
    → IsTied (break_swings index t close cs s)
unfolding break_swings
break_swings-IsTied index t close [] s all h = h
break_swings-IsTied index t close (c ∷ cs) s all h =
    let (tied, same) = break_swing-IsTied index t close c s all.0 h in
    break_swings-IsTied index t close cs (break_swing index t close c s)
      (subst (λ (ws : List SwingPoint). All (IsCrossed ws) cs) (sym same) all.1) tied

track-IsTied : (bar : Bar) (s : Structure) → IsTied s → IsTied (track bar s)
unfolding track
track-IsTied bar s h =
    let index = length s.bars in
    let s0 : Structure = record s { bars = bar ∷ s.bars } in
    let h0 : IsTied s0 = record { high = h.high; low = h.low; made = h.made } in
    let o = find_swing s.lookback index s0.bars in
    let s1 = confirm_swing o s0 in
    let h1 = confirm_swing-IsTied o s0 h0 in
    break_swings-IsTied index bar.timestamp bar.close (crossed index bar.close s1) _
      (crossed-IsCrossed index bar.close s1 h1)
      (record {
        high = uncrossed-IsPending true bar.close s1.swings s1.pending_highs SwingType.high h1.high;
        low = uncrossed-IsPending false bar.close s1.swings s1.pending_lows SwingType.low h1.low;
        made = h1.made;
      })

track_all-IsTied : (bars : List Bar) (s : Structure) → IsTied s → IsTied (track_all bars s)
unfolding track_all
track_all-IsTied [] s h = h
track_all-IsTied (bar ∷ bars) s h = track_all-IsTied bars (track bar s) (track-IsTied bar s h)

pub track_all-IsOfSwing :
    (lookback : ℕ) (bars : List Bar)
    → let s = track_all bars (no_structure lookback) in All (IsOfSwing s.swings) s.breaks
track_all-IsOfSwing lookback bars =
    let start : IsTied (no_structure lookback) = record { high = tt; low = tt; made = tt } in
    (track_all-IsTied bars (no_structure lookback) start).made
