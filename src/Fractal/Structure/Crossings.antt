-- ===== src/Fractal/Structure/Crossings.antt =====
-- Single steps of the swings and breaks: what a swing, a crossing and a break are, one at a time.
use forex_platform.Decimal
use forex_platform.Fractal.Structure.{
  Bar, Crossing, StructureBreak, SwingPoint, bos, choch, crossings, find_swing, is_newer, kind_of,
  uncrossed,
}
use forex_platform.Prelude.{
  ℕ, ◌+◌, ◌*◌, ◌≤◌, ◌<◌, ltb, Bool, true, false, if◌then◌else◌, Bool-cases, some, Option-cases,
  List, [], ◌∷◌, length, All, ℤ, pos, negsuc, eqb_ℤ, ◌≡◌, ◌⊎◌, inl, inr, refl, arith, get_elem?,
}

-- The close lies beyond the price of the swing, in the direction given.
abbrev pub IsBeyond : Decimal.Decimal → ℤ → Decimal.Decimal → Type 0
IsBeyond price direction close =
    ((direction ≡ pos 1) × (Decimal.lt price close ≡ true))
    ⊎ ((direction ≡ negsuc 0) × (Decimal.lt close price ≡ true))

-- The swing of a break was confirmed before the break, and the body of the bar closed beyond it.
abbrev pub IsCross : ℕ → StructureBreak → Type 0
IsCross lookback b =
    (b.swing_index + lookback ≤ b.index) × IsBeyond b.swing_price b.direction b.body_close

-- From the newest on, each break that follows another changes the character exactly when it turns.
abbrev pub Kinds : List StructureBreak → Type 0
Kinds [] = Unit
Kinds (b ∷ []) = Unit
Kinds (b ∷ c ∷ bs) =
    (b.break_type ≡ (if eqb_ℤ c.direction b.direction then bos else choch)) × Kinds (c ∷ bs)

-- From the newest on, the indices fall.
abbrev pub IsFalling : List SwingPoint → Type 0
IsFalling [] = Unit
IsFalling (s ∷ ss) = All (λ (t : SwingPoint). t.index < s.index) ss × IsFalling ss

abbrev pub IsPast : ℕ → ℕ → SwingPoint → Type 0
IsPast lookback n w = w.index + lookback < n

pub All-past :
    (lookback n m : ℕ) (ws : List SwingPoint)
    → n ≤ m
    → All (IsPast lookback n) ws
    → All (IsPast lookback m) ws
All-past lookback n m [] h all = tt
All-past lookback n m (w ∷ ws) h all = (omega (arith, all.0), All-past lookback n m ws h all.1)

pub find_swing-past :
    (lookback index : ℕ) (bars : List Bar) (w : SwingPoint)
    → length bars ≡ index + 1
    → find_swing lookback index bars ≡ some w
    → w.index + lookback ≡ index
unfolding find_swing
find_swing-past lookback index bars w n found =
    elim (Bool-cases (ltb (length bars) (2 * lookback + 1))) [
      | inl short ↦ absurd (ground arith)
      | inr long ↦ elim (Option-cases (get_elem? bars lookback)) [
        | inl missing ↦ absurd (ground arith)
        | inr (bar, there) ↦ ground arith
      ]
    ]

pub All-falling :
    (w v : SwingPoint) (ws : List SwingPoint)
    → v.index < w.index
    → IsFalling (v ∷ ws)
    → All (λ (t : SwingPoint). t.index < w.index) ws
All-falling w v [] h falling = tt
All-falling w v (x ∷ xs) h falling =
    (omega (arith, falling.0.0), All-falling w x xs (omega (arith, falling.0.0)) falling.1)

pub newer-falling :
    (w : SwingPoint) (ws : List SwingPoint)
    → is_newer w ws ≡ true
    → IsFalling ws
    → All (λ (t : SwingPoint). t.index < w.index) ws
newer-falling w [] newer falling = tt
newer-falling w (v ∷ vs) newer falling =
    let lt : v.index < w.index = ground arith in (lt, All-falling w v vs lt falling)

pub crossings-pass :
    (up : Bool) (close : Decimal.Decimal) (index lookback : ℕ) (broken : List ℕ)
    (ws : List SwingPoint)
    → All (IsPast lookback (index + 1)) ws
    → All
        (λ (c : Crossing). (c.0.index + lookback ≤ index) × IsBeyond c.0.price c.1 close)
        (crossings up close index broken ws)
unfolding crossings
crossings-pass up close index lookback broken [] all = tt
crossings-pass true close index lookback broken (w ∷ ws) all =
    ground (arith, crossings-pass true close index lookback broken ws all.1)
crossings-pass false close index lookback broken (w ∷ ws) all =
    ground (arith, crossings-pass false close index lookback broken ws all.1)

pub uncrossed-past :
    (lookback n : ℕ) (up : Bool) (close : Decimal.Decimal) (ws : List SwingPoint)
    → All (IsPast lookback n) ws
    → All (IsPast lookback n) (uncrossed up close ws)
unfolding uncrossed
uncrossed-past lookback n up close [] all = tt
uncrossed-past lookback n up close (w ∷ ws) all =
    ground (arith, uncrossed-past lookback n up close ws all.1)

pub kind-turn :
    (lookback : ℕ) (c : StructureBreak) (d : ℤ)
    → IsCross lookback c
    → kind_of c.direction d ≡ (if eqb_ℤ c.direction d then bos else choch)
unfolding kind_of
kind-turn lookback c d (past, inl (up, beyond)) = rw up refl
kind-turn lookback c d (past, inr (down, beyond)) = rw down refl
