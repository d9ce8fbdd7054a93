-- ===== src/Time.antt =====
-- Python's `datetime`: microseconds of the wall clock since 0001-01-01 00:00, which was a Monday,
-- and the offset from UTC of an aware value. Python's limits (years 1 to 9999, and the
-- OverflowError at them) are not modelled.
use forex_platform.Prelude.{ℕ, ◌+◌, ◌*◌, ◌/◌, ◌%◌, Option, none, some, ℤ, pos, pos_part, ◌-ℤ◌}

pub record DateTime : Type 0 where
  pub wall : ℕ
  pub offset : Option ℤ  -- `tzinfo`: none is a naive value

abbrev pub microseconds_per_day : ℕ
microseconds_per_day = 86400000000

-- `time(h, m, 0)`
abbrev pub time : ℕ → ℕ → ℕ
time h m = (h * 60 + m) * 60000000

-- `dt.date()`, as the number of days since 0001-01-01
unfoldable pub date : DateTime → ℕ
date dt = dt.wall / microseconds_per_day

-- `dt.weekday()`: Monday is 0
unfoldable pub weekday : DateTime → ℕ
weekday dt = dt.wall / microseconds_per_day % 7

-- `dt.time()`
unfoldable pub time_of_day : DateTime → ℕ
time_of_day dt = dt.wall % microseconds_per_day

-- `dt if dt.tzinfo else dt.replace(tzinfo=timezone.utc)`
unfoldable pub assume_utc : DateTime → DateTime
assume_utc dt = elim dt.offset [ none ↦ record dt { offset = some (pos 0) } | some o ↦ dt ]

-- `dt.astimezone(timezone.utc)` of an aware value
unfoldable pub to_utc : DateTime → ℤ → DateTime
to_utc dt o = record { wall = pos_part (pos dt.wall -ℤ o); offset = some (pos 0) }

-- The instant of an aware value, in microseconds.
unfoldable pub instant : DateTime → ℤ
instant dt = elim dt.offset [ none ↦ pos dt.wall | some o ↦ pos dt.wall -ℤ o ]

-- `a - b`, of aware values
unfoldable pub elapsed : DateTime → DateTime → ℤ
unfolding instant
elapsed a b = instant a -ℤ instant b
