-- ===== src/Tests/Bars.antt =====
-- Examples for the bars, swings and candles of forex_platform/fractal_engine/state_engine.py.
use forex_platform.Fractal.Ladder.{h1}
use forex_platform.Fractal.Structure.{Bar, SwingPoint, no_structure, track_all}
use forex_platform.Fractal.Structure.Crossings.{IsCross, IsFalling, Kinds}
use forex_platform.Fractal.Structure.Origins.{IsOfSwing}
use forex_platform.Fractal.Structure.Breaks.{track_all_sound}
use forex_platform.Fractal.Streaming.{group_bars, rows_of}
use forex_platform.Fractal.Streaming.Candles.{IsOpen, IsWhole, all_rows, group_bars_partition}
use forex_platform.Prelude.{ℕ, ◌+◌, ◌<◌, All, List, [], ◌∷◌, ◌++◌, length, none, pos, ◌≡◌, arith}

abbrev bar_at : ℕ → ℕ → ℕ → ℕ → Bar
bar_at timestamp high low close = record {
  timestamp = timestamp;
  high = record { coefficient = pos high; places = 4 };
  low = record { coefficient = pos low; places = 4 };
  close = record { coefficient = pos close; places = 4 };
}

-- A high of 11050, a low of 10950, and a close above that high.
abbrev zigzag : List Bar
zigzag =
    bar_at 60 11000 10990 10995
    ∷ bar_at 120 11050 11000 11010
    ∷ bar_at 180 11010 10970 10980
    ∷ bar_at 240 10990 10950 10960
    ∷ bar_at 300 11040 10980 11030
    ∷ bar_at 360 11090 11020 11080
    ∷ []

track_all_sound_example :
    All
      (λ (w : SwingPoint). w.index + 1 < length (track_all zigzag (no_structure 1)).bars)
      (track_all zigzag (no_structure 1)).swings
    × IsFalling (track_all zigzag (no_structure 1)).swings
    × All (IsCross 1) (track_all zigzag (no_structure 1)).breaks
    × All
        (IsOfSwing (track_all zigzag (no_structure 1)).swings)
        (track_all zigzag (no_structure 1)).breaks
    × Kinds (track_all zigzag (no_structure 1)).breaks
track_all_sound_example = track_all_sound 1 zigzag

-- Half an hour of the source's bars, from the first of an hour, and one of the next hour.
abbrev half_hours : List Bar
half_hours =
    bar_at 3600 11000 10990 10995
    ∷ bar_at 5400 11050 11000 11010
    ∷ bar_at 7200 11010 10970 10980
    ∷ []

group_bars_partition_example :
    (all_rows (group_bars h1 1800 half_hours none).0
        ++ rows_of (group_bars h1 1800 half_hours none).1
      ≡ half_hours)
    × All (IsWhole h1 (7200 + 1800)) (group_bars h1 1800 half_hours none).0
    × IsOpen h1 7200 (group_bars h1 1800 half_hours none).1
group_bars_partition_example =
    group_bars_partition h1 1800 0 half_hours (omega arith, (omega arith, (omega arith, tt)))
