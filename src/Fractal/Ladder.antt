-- ===== src/Fractal/Ladder.antt =====
-- forex_platform/fractal_engine/timeframes.py. An instant is its count of microseconds since the start of
-- the year 1 in UTC, and a duration its count of microseconds. Only a source interval that is given as a
-- text is parsed.
pub mod Buckets
use forex_platform.Time.{microseconds_per_day}
use forex_platform.Prelude.{
  ℕ, zero, suc, ◌+◌, ◌-◌, ◌*◌, ◌/◌, ◌%◌, ltb, leb, ◌==◌, if◌then◌else◌, Bool, true, false, not,
  ◌&&◌, ◌||◌, List, [], ◌∷◌, ◌++◌, drop, Text, codes, text_eq, upper, strip, remove_char,
  starts_with, Dict, lookup, Option, none, some, Result, ok, err, value_error,
}

pub data CanonicalTimeframe : Type 0 where
  month week day h4 h1 m15 m3 : CanonicalTimeframe

abbrev pub canonical_ladder : List CanonicalTimeframe
canonical_ladder = month ∷ week ∷ day ∷ h4 ∷ h1 ∷ m15 ∷ m3 ∷ []

abbrev pub Roles : Type 0
Roles = CanonicalTimeframe × CanonicalTimeframe × CanonicalTimeframe

-- The higher, middle and lower timeframe of each set.
abbrev pub timeframe_sets : Dict Roles
timeframe_sets =
    (codes "SET_1", (month, week, day))
    ∷ (codes "SET_2", (week, day, h4))
    ∷ (codes "SET_3", (day, h4, h1))
    ∷ (codes "SET_4", (h4, h1, m15))
    ∷ (codes "SET_5", (h1, m15, m3))
    ∷ []

-- `c.lower()` of one ASCII character
unfoldable pub to_lower : ℕ → ℕ
to_lower c = if leb b'A' c && leb c b'Z' then c + 32 else c

unfoldable pub lower : Text → Text
unfolding to_lower
lower [] = []
lower (c ∷ s) = to_lower c ∷ lower s

abbrev pub minute : ℕ
minute = 60000000

abbrev pub interval_aliases : Dict ℕ
interval_aliases =
    (codes "1m", 1 * minute)
    ∷ (codes "m1", 1 * minute)
    ∷ (codes "3m", 3 * minute)
    ∷ (codes "m3", 3 * minute)
    ∷ (codes "5m", 5 * minute)
    ∷ (codes "m5", 5 * minute)
    ∷ (codes "15m", 15 * minute)
    ∷ (codes "m15", 15 * minute)
    ∷ (codes "30m", 30 * minute)
    ∷ (codes "m30", 30 * minute)
    ∷ (codes "1h", 60 * minute)
    ∷ (codes "h1", 60 * minute)
    ∷ (codes "4h", 240 * minute)
    ∷ (codes "h4", 240 * minute)
    ∷ (codes "1d", 1440 * minute)
    ∷ (codes "d1", 1440 * minute)
    ∷ []

unfoldable pub parse_source_interval : Text → Result ℕ
unfolding lower
parse_source_interval value = elim (lookup (lower (strip value)) interval_aliases) [
  | none ↦ err value_error
  | some interval ↦ ok interval
]

-- The minutes of a timeframe of fixed length, that of a day at most.
abbrev pub fixed_minutes : CanonicalTimeframe → Option ℕ
fixed_minutes month = none
fixed_minutes week = none
fixed_minutes day = some 1440
fixed_minutes h4 = some 240
fixed_minutes h1 = some 60
fixed_minutes m15 = some 15
fixed_minutes m3 = some 3

unfoldable pub target_is_available : CanonicalTimeframe → ℕ → Bool
target_is_available target source = elim (fixed_minutes target) [
  | none ↦ true
  | some minutes ↦ leb source (minutes * minute) && ((minutes * minute) % source == 0)
]

unfoldable pub available_timeframes : List CanonicalTimeframe → ℕ → List CanonicalTimeframe
unfolding target_is_available
available_timeframes [] source = []
available_timeframes (tf ∷ tfs) source =
    let more = available_timeframes tfs source in
    if target_is_available tf source then tf ∷ more else more

-- The calendar of the `datetime` class: months are counted from January of the year 1.
abbrev is_leap : ℕ → Bool
is_leap year = (year % 4 == 0) && (not (year % 100 == 0) || (year % 400 == 0))

unfoldable pub days_in : ℕ → ℕ
days_in index =
    let m = index % 12 + 1 in
    if m == 2
    then (if is_leap (index / 12 + 1) then 29 else 28)
    else if (m == 4) || (m == 6) || (m == 9) || (m == 11)
    then 30
    else 31

-- The month that holds a day, with its first day.
unfoldable pub month_from : ℕ → ℕ → ℕ → ℕ → ℕ × ℕ
unfolding days_in
month_from zero index first d = (index, first)
month_from (suc fuel) index first d = elim (ltb d (first + days_in index)) [
  | true ↦ (index, first)
  | false ↦ month_from fuel (index + 1) (first + days_in index) d
]

unfoldable pub month_of : ℕ → ℕ × ℕ
unfolding month_from
month_of d = month_from (suc d) 0 0 d

unfoldable pub timeframe_bucket_start : CanonicalTimeframe → ℕ → ℕ
unfolding month_of
timeframe_bucket_start target ts =
    let d = ts / microseconds_per_day in
    let midnight = d * microseconds_per_day in
    let minute_of_day = (ts % microseconds_per_day) / minute in
    let floored = λ (minutes : ℕ). midnight + (minute_of_day - minute_of_day % minutes) * minute in
    elim target [
      | month ↦ (month_of d).1 * microseconds_per_day
      | week ↦ midnight - (d % 7) * microseconds_per_day
      | day ↦ midnight
      | h4 ↦ floored 240
      | h1 ↦ floored 60
      | m15 ↦ floored 15
      | m3 ↦ floored 3
    ]

unfoldable pub timeframe_bucket_end : CanonicalTimeframe → ℕ → ℕ
unfolding month_of
timeframe_bucket_end target start =
    let (index, first) = month_of (start / microseconds_per_day) in
    elim target [
      | month ↦ (first + days_in index) * microseconds_per_day + start % microseconds_per_day
      | week ↦ start + 7 * microseconds_per_day
      | day ↦ start + 1440 * minute
      | h4 ↦ start + 240 * minute
      | h1 ↦ start + 60 * minute
      | m15 ↦ start + 15 * minute
      | m3 ↦ start + 3 * minute
    ]

-- `replace("-", "_")`
abbrev replace_dash : Text → Text
replace_dash [] = []
replace_dash (c ∷ s) = (if c == b'-' then b'_' else c) ∷ replace_dash s

unfoldable pub normalized_set_key : Text → Result Text
normalized_set_key value =
    let key = replace_dash (remove_char 32 (upper (strip value))) in
    let full =
      if starts_with (codes "SET") key && not (starts_with (codes "SET_") key)
      then codes "SET_" ++ drop 3 key
      else key in
    elim (lookup full timeframe_sets) [ none ↦ err value_error | some roles ↦ ok full ]
