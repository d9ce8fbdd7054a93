-- ===== src/Sessions/Calendar.antt =====
-- The session calendar against the description of the market week.
use forex_platform.Domain.Kinds.{SessionName}
use forex_platform.Prelude.{
  ℕ, ◌+◌, ◌*◌, ◌%◌, ◌≤◌, ◌<◌, ◌≡◌, ◌≢◌, ◌↔◌, true, false, some, arith, length, ltb, List, is_some,
  ◌⊎◌, ◌-ℤ◌,
}
use forex_platform.Sessions.{
  ensure_utc, is_weekend, is_rollover, is_triple_swap, get_active_sessions, get_session_state,
  weekend_at, rollover_at, active_at, overlap_of, overlap_regime, joined, quiet_hours,
  weekend_closed,
}
use forex_platform.Time.{
  DateTime, time, weekday, time_of_day, to_utc, assume_utc, microseconds_per_day,
}

-- Microseconds since Monday 00:00 UTC.
abbrev pub time_of_week : DateTime → ℕ
time_of_week dt = (ensure_utc dt).wall % (7 * microseconds_per_day)

-- The market is closed exactly from Friday 21:00 UTC (included) to Sunday 21:00 UTC (excluded),
-- as one interval of the week.
pub is_weekend_interval :
    (dt : DateTime)
    → (is_weekend dt ≡ true) ↔ (
        (4 * microseconds_per_day + time 21 0 ≤ time_of_week dt)
        × (time_of_week dt < 6 * microseconds_per_day + time 21 0))
unfolding is_weekend weekday time_of_day
is_weekend_interval dt = ground arith

time_of_day_lt : (dt : DateTime) → time_of_day dt < microseconds_per_day
unfolding time_of_day
time_of_day_lt dt = omega arith

some_session :
    (day t : ℕ) → t < microseconds_per_day → weekend_at day t ≡ false → 1 ≤ length (active_at day t)
some_session day t h trading = ground arith

-- Some major session is active whenever the market is open, and none at the weekend.
pub get_active_sessions_cover :
    (dt : DateTime) → (is_weekend dt ≡ false) ↔ (1 ≤ length (get_active_sessions dt))
unfolding is_weekend get_active_sessions
get_active_sessions_cover dt =
    let utc = ensure_utc dt in
    (some_session (weekday utc) (time_of_day utc) (time_of_day_lt utc), λ h. ground arith)

pub ensure_utc_idem : (dt : DateTime) → ensure_utc (ensure_utc dt) ≡ ensure_utc dt
unfolding ensure_utc to_utc assume_utc ◌-ℤ◌
ensure_utc_idem dt = ground arith

overlap_regime-ne-quiet :
    (day t : ℕ)
    → t < microseconds_per_day
    → weekend_at day t ≡ false
    → overlap_regime (overlap_of (active_at day t)) (active_at day t) ≢ quiet_hours
overlap_regime-ne-quiet day t h trading e = ground arith

overlap_of_named :
    (day t : ℕ) (l : List SessionName) → overlap_of (active_at day t) ≢ some (joined l)
overlap_of_named day t l e = ground arith

overlap_of_iff :
    (day t : ℕ) → ltb 1 (length (active_at day t)) ≡ is_some (overlap_of (active_at day t))
overlap_of_iff day t = ground arith

-- In the session state of any time: the fallbacks QUIET_HOURS and the joined overlap names never
-- occur, there is an overlap exactly when the overlap type is set, and the regime is
-- WEEKEND_CLOSED exactly when the market is not open.
pub get_session_state_regime :
    (dt : DateTime)
    → let s = get_session_state dt in
      (s.regime_tag ≢ quiet_hours)
      × ((l : List SessionName) → s.overlap_type ≢ some (joined l))
      × (s.has_overlap ≡ is_some s.overlap_type)
      × ((s.regime_tag ≡ weekend_closed) ↔ (s.is_market_open ≡ false))
unfolding get_session_state
get_session_state_regime dt =
    let utc = ensure_utc (ensure_utc dt) in
    let day = weekday utc in
    let t = time_of_day utc in
    (
      λ e. ground (arith, overlap_regime-ne-quiet day t (time_of_day_lt utc)),
      overlap_of_named day t,
      overlap_of_iff day t,
      (λ e. ground arith, λ e. ground arith),
    )

weekday_lt : (dt : DateTime) → weekday dt < 7
unfolding weekday
weekday_lt dt = omega arith

rollover_at_window :
    (day t : ℕ)
    → day < 7
    → (rollover_at day t ≡ true) ↔ (
        (day ≤ 3) × (time 20 55 ≤ t) × (t ≤ time 21 15)
        ⊎ (day ≡ 4) × (time 20 55 ≤ t) × (t < time 21 0)
        ⊎ (day ≡ 6) × (time 21 0 ≤ t) × (t ≤ time 21 15))
rollover_at_window day t h = ground arith

-- The rollover window lies in market hours: 20:55 to 21:15 UTC (both included) from Monday to
-- Thursday and from 21:00 to 21:15 on Sunday, 20:55 to 21:00 (excluded) on Friday.
pub is_rollover_window :
    (dt : DateTime)
    → let utc = ensure_utc dt in
      let day = weekday utc in
      let t = time_of_day utc in
      (is_rollover dt ≡ true) ↔ (
        (day ≤ 3) × (time 20 55 ≤ t) × (t ≤ time 21 15)
        ⊎ (day ≡ 4) × (time 20 55 ≤ t) × (t < time 21 0)
        ⊎ (day ≡ 6) × (time 21 0 ≤ t) × (t ≤ time 21 15))
unfolding is_rollover
is_rollover_window dt =
    let utc = ensure_utc dt in rollover_at_window (weekday utc) (time_of_day utc) (weekday_lt utc)

-- The triple-swap window is the rollover window of a Wednesday, and without the window mode the part of
-- it from 21:00 on.
pub is_triple_swap_window :
    (dt : DateTime)
    → let utc = ensure_utc dt in
      ((is_triple_swap dt true ≡ true) ↔ ((is_rollover dt ≡ true) × (weekday utc ≡ 2)))
      × ((is_triple_swap dt false ≡ true)
          ↔ ((is_triple_swap dt true ≡ true) × (time 21 0 ≤ time_of_day utc)))
unfolding is_rollover is_triple_swap
is_triple_swap_window dt = ground arith
