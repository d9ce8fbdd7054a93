-- ===== src/Fractal/Ladder/Buckets.antt =====
-- The candles of a timeframe cut the time into intervals.
use forex_platform.Fractal.Ladder.{
  CanonicalTimeframe, month, week, day, h4, h1, m15, m3, days_in, month_from, month_of,
  timeframe_bucket_start, timeframe_bucket_end,
}
use forex_platform.Prelude.{
  ℕ, zero, suc, ◌+◌, ◌*◌, ◌/◌, ◌≤◌, ◌<◌, ltb, true, false, ◌≡◌, refl, inl, inr, arith, Bool-cases,
}
use forex_platform.Time.{microseconds_per_day}

days_in_pos : (index : ℕ) → 1 ≤ days_in index
unfolding days_in
days_in_pos index = ground arith

month_from_here :
    (fuel index first d : ℕ)
    → ltb d (first + days_in index) ≡ true
    → month_from (suc fuel) index first d ≡ (index, first)
unfolding month_from
month_from_here fuel index first d h = rw (h, month_from) refl

month_from_next :
    (fuel index first d : ℕ)
    → ltb d (first + days_in index) ≡ false
    → month_from (suc fuel) index first d ≡ month_from fuel (index + 1) (first + days_in index) d
unfolding month_from
month_from_next fuel index first d h = rw (h, month_from) refl

month_from_first : (fuel index first d : ℕ) → first ≤ (month_from fuel index first d).1
unfolding month_from
month_from_first zero index first d = omega arith
month_from_first (suc fuel) index first d =
    ground (arith, month_from_first fuel (index + 1) (first + days_in index) d)

-- With fuel for a day in each round the month is found.
month_from_holds :
    (fuel index first d : ℕ)
    → first ≤ d
    → d < first + fuel
    → let (found, start) = month_from fuel index first d in
      (start ≤ d) × (d < start + days_in found)
month_from_holds zero index first d h k = absurd (omega arith)
month_from_holds (suc fuel) index first d h k = elim (Bool-cases (ltb d (first + days_in index))) [
  | inl here ↦ rw (month_from_here fuel index first d here) (h, ground arith)
  | inr later ↦ rw (month_from_next fuel index first d later) (
      month_from_holds fuel (index + 1) (first + days_in index) d (ground arith)
        (ground (arith, days_in_pos index)))
]

-- A day of the month that was found is in no other.
month_from_same :
    (fuel fuel' index first d e : ℕ)
    → first ≤ d
    → d < first + fuel
    → first ≤ e
    → e < first + fuel'
    → (month_from fuel index first d).1 ≤ e
    → e < (month_from fuel index first d).1 + days_in (month_from fuel index first d).0
    → month_from fuel' index first e ≡ month_from fuel index first d
month_from_same zero fuel' index first d e p k h k' low high = absurd (omega arith)
month_from_same (suc fuel) zero index first d e p k h k' low high = absurd (omega arith)
month_from_same (suc fuel) (suc fuel') index first d e p k h k' low high =
    elim (Bool-cases (ltb d (first + days_in index))) [
      | inl here ↦
          let found = month_from_here fuel index first d here in
          rw found (
            month_from_here fuel' index first e
              (let high' : e < first + days_in index = rw found at high in ground arith))
      | inr later ↦
          let next = first + days_in index in
          let found = month_from_next fuel index first d later in
          let grows = days_in_pos index in
          let below = month_from_first fuel (index + 1) next d in
          let low' : (month_from fuel (index + 1) next d).1 ≤ e = rw found at low in
          let high' : e
              < (month_from fuel (index + 1) next d).1
                + days_in (month_from fuel (index + 1) next d).0 =
            rw found at high in
          rw (found, month_from_next fuel' index first e (ground arith))
            (month_from_same fuel fuel' (index + 1) next d e (ground arith) (ground arith)
              (omega arith) (ground arith) low' high')
    ]

abbrev midnight : ℕ → ℕ
midnight ts = ts / microseconds_per_day * microseconds_per_day

month_of_holds : (d : ℕ) → ((month_of d).1 ≤ d) × (d < (month_of d).1 + days_in (month_of d).0)
unfolding month_of
month_of_holds d = month_from_holds (suc d) 0 0 d (omega arith) (omega arith)

month_of_same :
    (d e : ℕ)
    → (month_of d).1 ≤ e
    → e < (month_of d).1 + days_in (month_of d).0
    → month_of e ≡ month_of d
unfolding month_of
month_of_same d e low high =
    month_from_same (suc d) (suc e) 0 0 d e (omega arith) (omega arith) (omega arith) (omega arith)
      low high

-- The first day of a month is of that month.
month_of_first : (d : ℕ) → month_of (month_of d).1 ≡ month_of d
month_of_first d =
    let (low, high) = month_of_holds d in
    month_of_same d (month_of d).1 (omega arith) (omega (arith, days_in_pos (month_of d).0))

-- Every instant lies in the candle that it is given, from its start, included, to its end, excluded, and the
-- candle of every other instant in that interval starts there too.
pub buckets_partition :
    (target : CanonicalTimeframe) (ts other : ℕ)
    → let start = timeframe_bucket_start target ts in
      let end = timeframe_bucket_end target start in
      ((start ≤ ts) × (ts < end))
      × (start ≤ other → other < end → timeframe_bucket_start target other ≡ start)
unfolding timeframe_bucket_start timeframe_bucket_end
buckets_partition month ts other =
    let d = ts / microseconds_per_day in
    let (low, high) = month_of_holds d in
    let start_day : (month_of d).1 * microseconds_per_day / microseconds_per_day ≡ (month_of d).1 =
      omega arith in
    rw (start_day, month_of_first d)
      (
        (omega arith, omega arith),
        λ from to.
            rw (month_of_same d (other / microseconds_per_day) (omega arith) (omega arith)) refl,
      )
buckets_partition week ts other = ((omega arith, omega arith), λ from to. omega arith)
buckets_partition day ts other = ((omega arith, omega arith), λ from to. omega arith)
buckets_partition h4 ts other = ((omega arith, omega arith), λ from to. omega arith)
buckets_partition h1 ts other = ((omega arith, omega arith), λ from to. omega arith)
buckets_partition m15 ts other = ((omega arith, omega arith), λ from to. omega arith)
buckets_partition m3 ts other = ((omega arith, omega arith), λ from to. omega arith)
