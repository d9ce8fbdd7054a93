-- ===== src/Fractal/Streaming/Candles.antt =====
-- The candles that a stream of source bars closes.
use mathlib.Core.List.{append-nil, append_assoc}
use forex_platform.Fractal.Ladder.{CanonicalTimeframe, timeframe_bucket_end, timeframe_bucket_start}
use forex_platform.Fractal.Ladder.Buckets.{buckets_partition}
use forex_platform.Fractal.Streaming.{
  Group, close_other, group_bar, group_bars, rows_of, group_start,
}
use forex_platform.Fractal.Structure.{Bar}
use forex_platform.Prelude.{
  subst, ℕ, ◌+◌, ◌≤◌, ◌<◌, ◌==◌, Bool-cases, All, All-append, List, [], ◌∷◌, ◌++◌, Option, none,
  some, ◌≡◌, ◌≢◌, ◌∙◌, refl, sym, ap, arith, inl, inr, ltb→lt, ltb,
}

-- All source bars of a list of candles.
abbrev pub all_rows : List Group → List Bar
all_rows [] = []
all_rows (g ∷ gs) = g.rows ++ all_rows gs

-- The timestamps rise strictly, from a bound.
abbrev pub Rising : ℕ → List Bar → Type 0
Rising now [] = Unit
Rising now (b ∷ bs) = (now < b.timestamp) × Rising b.timestamp bs

-- The bars of a group lie in its interval.
abbrev pub InInterval : CanonicalTimeframe → Group → Type 0
InInterval tf g =
    (g.rows ≢ []) × All (λ (b : Bar). timeframe_bucket_start tf b.timestamp ≡ g.start) g.rows

-- The last instant of a list of bars, from a bound.
abbrev pub last_instant : ℕ → List Bar → ℕ
last_instant now [] = now
last_instant now (b ∷ bs) = last_instant b.timestamp bs

-- A candle is whole: its bars are of its interval, which is over by then.
abbrev pub IsWhole : CanonicalTimeframe → ℕ → Group → Type 0
IsWhole tf known g = InInterval tf g × (timeframe_bucket_end tf g.start ≤ known)

abbrev pub IsOpen : CanonicalTimeframe → ℕ → Option Group → Type 0
IsOpen tf now none = Unit
IsOpen tf now (some g) = InInterval tf g × All (λ (b : Bar). b.timestamp ≤ now) g.rows

all_rows-append : (gs hs : List Group) → all_rows (gs ++ hs) ≡ all_rows gs ++ all_rows hs
all_rows-append [] hs = refl
all_rows-append (g ∷ gs) hs =
    ap (λ (r : List Bar). g.rows ++ r) (all_rows-append gs hs)
    ∙ sym (append_assoc g.rows (all_rows gs) (all_rows hs))

-- An instant outside the interval of an earlier bar comes after its end.
outside_bar :
    (tf : CanonicalTimeframe) (start t : ℕ) (b : Bar)
    → timeframe_bucket_start tf b.timestamp ≡ start
    → b.timestamp < t
    → timeframe_bucket_start tf t ≢ start
    → timeframe_bucket_end tf start ≤ t
outside_bar tf start t b here later other =
    let ((from, to), same) = buckets_partition tf b.timestamp t in
    elim (Bool-cases (ltb t (timeframe_bucket_end tf start))) [
      | inl inside ↦
          let below : t < timeframe_bucket_end tf (timeframe_bucket_start tf b.timestamp) =
            rw here (ltb→lt t _ inside) in
          absurd (other (same (omega arith) below ∙ here))
      | inr after ↦ ground arith
    ]

outside :
    (tf : CanonicalTimeframe) (now start t : ℕ) (rows : List Bar)
    → rows ≢ []
    → All (λ (b : Bar). timeframe_bucket_start tf b.timestamp ≡ start) rows
    → All (λ (b : Bar). b.timestamp ≤ now) rows
    → now < t
    → timeframe_bucket_start tf t ≢ start
    → timeframe_bucket_end tf start ≤ t
outside tf now start t [] some_row here past later other = absurd (some_row refl)
outside tf now start t (b ∷ bs) some_row here past later other =
    outside_bar tf start t b here.0 (omega (arith, past.0)) other

-- What is left of a group when a bar of an interval comes.
record Left (tf : CanonicalTimeframe) (now start t : ℕ) (group : Option Group) (closed : List Group)
    (left : Option Group) : Type 0 where
  kept : all_rows closed ++ rows_of left ≡ rows_of group
  whole : All (IsWhole tf t) closed
  here : group_start start left ≡ start
  inside : All (λ (b : Bar). timeframe_bucket_start tf b.timestamp ≡ start) (rows_of left)
  past : All (λ (b : Bar). b.timestamp ≤ now) (rows_of left)

close_other-Left :
    (tf : CanonicalTimeframe) (now t : ℕ) (group : Option Group)
    → now < t
    → IsOpen tf now group
    → let start = timeframe_bucket_start tf t in
      let r = close_other start group in Left tf now start t group r.0 r.1
unfolding close_other
close_other-Left tf now t none later open_group = record {
  kept = refl;
  whole = tt;
  here = refl;
  inside = tt;
  past = tt;
}
close_other-Left tf now t (some g) later open_group =
    let start = timeframe_bucket_start tf t in
    let ((some_row, inside), past) = open_group in
    elim (Bool-cases (g.start == start)) [
      | inl same ↦
          let e : g.start ≡ start = ground arith in
          rw same (record {
            kept = refl;
            whole = tt;
            here = e;
            inside =
                subst
                  (λ (n : ℕ). All (λ (b : Bar). timeframe_bucket_start tf b.timestamp ≡ n) g.rows) e
                  inside;
            past = past;
          })
      | inr other ↦
          let e : timeframe_bucket_start tf t ≢ g.start = λ k. absurd (ground (arith, k)) in
          let over = outside tf now g.start t g.rows some_row inside past later e in
          rw other (record {
            kept = append-nil (g.rows ++ []) ∙ append-nil g.rows;
            whole = (((some_row, inside), over), tt);
            here = refl;
            inside = tt;
            past = tt;
          })
    ]

All-le :
    (m n : ℕ) (bs : List Bar)
    → m ≤ n
    → All (λ (b : Bar). b.timestamp ≤ m) bs
    → All (λ (b : Bar). b.timestamp ≤ n) bs
All-le m n [] h all = tt
All-le m n (b ∷ bs) h all = (omega (arith, all.0), All-le m n bs h all.1)

snoc-ne-nil : (bs : List Bar) (b : Bar) → bs ++ b ∷ [] ≢ []
snoc-ne-nil [] b h = absurd cc
snoc-ne-nil (c ∷ bs) b h = absurd cc

All-IsWhole :
    (tf : CanonicalTimeframe) (m n : ℕ) (gs : List Group)
    → m ≤ n
    → All (IsWhole tf m) gs
    → All (IsWhole tf n) gs
All-IsWhole tf m n [] h all = tt
All-IsWhole tf m n (g ∷ gs) h all =
    let (interval, over) = all.0 in ((interval, omega arith), All-IsWhole tf m n gs h all.1)

-- The step of one bar keeps every bar, closes whole candles, and leaves an open group.
record Stepped (tf : CanonicalTimeframe) (known now : ℕ) (rows : List Bar) (closed : List Group)
    (left : Option Group) : Type 0 where
  kept : all_rows closed ++ rows_of left ≡ rows
  whole : All (IsWhole tf known) closed
  fresh : IsOpen tf now left

group_bar-Stepped :
    (tf : CanonicalTimeframe) (interval now : ℕ) (bar : Bar) (group : Option Group)
    → now < bar.timestamp
    → IsOpen tf now group
    → let r = group_bar tf interval bar group in
      Stepped tf (bar.timestamp + interval) bar.timestamp (rows_of group ++ bar ∷ []) r.0 r.1
unfolding group_bar
group_bar-Stepped tf interval now bar group later open_group =
    let t = bar.timestamp in
    let start = timeframe_bucket_start tf t in
    let closed = (close_other start group).0 in
    let left = (close_other start group).1 in
    let l = close_other-Left tf now t group later open_group in
    let rows = rows_of left ++ bar ∷ [] in
    let g : Group = record { start = group_start start left; rows = rows } in
    let whole = All-IsWhole tf t (t + interval) closed (omega arith) l.whole in
    let inside : All (λ (b : Bar). timeframe_bucket_start tf b.timestamp ≡ g.start) rows =
      rw l.here (
        All-append (λ (b : Bar). timeframe_bucket_start tf b.timestamp ≡ start) (rows_of left)
          (bar ∷ []) l.inside (refl, tt)) in
    let kept : all_rows closed ++ rows ≡ rows_of group ++ bar ∷ [] =
      sym (append_assoc (all_rows closed) (rows_of left) (bar ∷ []))
      ∙ ap (λ (bs : List Bar). bs ++ bar ∷ []) l.kept in
    elim (Bool-cases (t + interval == timeframe_bucket_end tf start)) [
      | inl complete ↦
          let e : timeframe_bucket_end tf start ≡ t + interval = ground arith in
          let over : timeframe_bucket_end tf g.start ≤ t + interval =
            rw (l.here, e) (omega arith) in
          rw complete (record {
            kept =
                append-nil _
                ∙ all_rows-append closed (g ∷ [])
                ∙ ap (λ (bs : List Bar). all_rows closed ++ bs) (append-nil rows)
                ∙ kept;
            whole =
                All-append (IsWhole tf (t + interval)) closed (g ∷ []) whole
                  (((snoc-ne-nil (rows_of left) bar, inside), over), tt);
            fresh = tt;
          })
      | inr partial ↦ rw partial (record {
        kept = kept;
        whole = whole;
        fresh = (
          (snoc-ne-nil (rows_of left) bar, inside),
          All-append (λ (b : Bar). b.timestamp ≤ t) (rows_of left) (bar ∷ [])
              (All-le now t (rows_of left) (omega arith) l.past) (omega arith, tt),
        );
      })
    ]

last_instant_le : (now : ℕ) (bars : List Bar) → Rising now bars → now ≤ last_instant now bars
last_instant_le now [] rising = omega arith
last_instant_le now (b ∷ bs) rising =
    omega (arith, last_instant_le b.timestamp bs rising.1, rising.0)

group_bars-Stepped :
    (tf : CanonicalTimeframe) (interval now : ℕ) (bars : List Bar) (group : Option Group)
    → Rising now bars
    → IsOpen tf now group
    → let r = group_bars tf interval bars group in
      Stepped tf
        (last_instant now bars + interval)
        (last_instant now bars)
        (rows_of group ++ bars)
        r.0
        r.1
unfolding group_bars
group_bars-Stepped tf interval now [] group rising open_group = record {
  kept = sym (append-nil (rows_of group));
  whole = tt;
  fresh = open_group;
}
group_bars-Stepped tf interval now (b ∷ bs) group rising open_group =
    let closed = (group_bar tf interval b group).0 in
    let left = (group_bar tf interval b group).1 in
    let later = (group_bars tf interval bs left).0 in
    let rest = (group_bars tf interval bs left).1 in
    let first = group_bar-Stepped tf interval now b group rising.0 open_group in
    let then_rest = group_bars-Stepped tf interval b.timestamp bs left rising.1 first.fresh in
    let n = last_instant_le b.timestamp bs rising.1 in
    record {
      kept =
          ap (λ (r : List Bar). r ++ rows_of rest) (all_rows-append closed later)
          ∙ append_assoc (all_rows closed) (all_rows later) (rows_of rest)
          ∙ ap (λ (r : List Bar). all_rows closed ++ r) then_rest.kept
          ∙ sym (append_assoc (all_rows closed) (rows_of left) bs)
          ∙ ap (λ (r : List Bar). r ++ bs) first.kept
          ∙ append_assoc (rows_of group) (b ∷ []) bs;
      whole =
          All-append (IsWhole tf (last_instant b.timestamp bs + interval)) closed later
            (All-IsWhole tf (b.timestamp + interval) _ closed (omega arith) first.whole)
            then_rest.whole;
      fresh = then_rest.fresh;
    }

-- Source bars after an instant and in strictly increasing order are grouped with none lost,
-- repeated or moved; each closed candle has bars, all of its own interval, which has ended by the close of
-- the last source bar; and the bars of the group that is left are of one interval.
pub group_bars_partition :
    (tf : CanonicalTimeframe) (interval now : ℕ) (bars : List Bar)
    → Rising now bars
    → let r = group_bars tf interval bars none in
      (all_rows r.0 ++ rows_of r.1 ≡ bars)
      × All (IsWhole tf (last_instant now bars + interval)) r.0
      × IsOpen tf (last_instant now bars) r.1
group_bars_partition tf interval now bars rising =
    let s = group_bars-Stepped tf interval now bars none rising tt in (s.kept, s.whole, s.fresh)
