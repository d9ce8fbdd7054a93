-- ===== src/Risk/Breaker/Status.antt =====
-- The circuit breaker over sequences of equity updates.
use forex_platform.Decimal
use forex_platform.Decimal.{Decimal, decimal}
use forex_platform.Decimal.Order.{lt_irrefl, lt_asymm, le_trans, div_total, div_self_sub}
use forex_platform.Time.{DateTime, assume_utc, date}
use forex_platform.Prelude.{
  ◌<◌, ◌≤◌, true, false, List, [], ◌∷◌, pos, ok, ◌≡◌, ◌↔◌, ◌⊎◌, inl, inr, arith, All, Bool-cases,
  Result-cases,
}
use forex_platform.Risk.Breaker.{
  CircuitBreaker, CircuitBreakerStatus, update_equity, change_pct, mark, roll_day, evaluate,
  daily_dampener_threshold, daily_halt_threshold, hwm_safe_mode_threshold,
}

change_pct_total : (equity base : Decimal) → (p : Decimal) × (change_pct equity base ≡ ok p)
unfolding change_pct
change_pct_total equity base = elim (Bool-cases (Decimal.lt (decimal (pos 0) 0) base)) [
  | inl positive ↦ rw positive (div_total (Decimal.sub equity base) base positive)
  | inr other ↦ (decimal (pos 0) 1, rw other)
]

-- The breaker and the percentages at which an update evaluates its rules.
update_equity_cases :
    (equity : Decimal) (t : DateTime) (s : CircuitBreaker)
    → (pnl : Decimal) × (drawdown : Decimal) × (change_pct equity
          (mark (roll_day s equity (date (assume_utc t))) equity).daily_open_equity
        ≡ ok pnl)
      × (update_equity equity t s
          ≡ evaluate (mark (roll_day s equity (date (assume_utc t))) equity) pnl drawdown)
unfolding update_equity
update_equity_cases equity t s =
    let m = mark (roll_day s equity (date (assume_utc t))) equity in
    let (pnl, e) = change_pct_total equity m.daily_open_equity in
    let (drawdown, e') = change_pct_total equity m.high_water_mark in
    (pnl, drawdown, e, ground (arith, e, e'))

abbrev after : Decimal → DateTime → CircuitBreaker → CircuitBreaker
after equity t s = (update_equity equity t s).1

-- What one update does to the equity figures.
after_figures :
    (equity : Decimal) (t : DateTime) (s : CircuitBreaker)
    → ((after equity t s).current_equity ≡ equity)
      × (Decimal.le equity (after equity t s).high_water_mark ≡ true)
      × (Decimal.le s.high_water_mark (after equity t s).high_water_mark ≡ true)
      × (s.safe_mode ≡ true → (after equity t s).safe_mode ≡ true)
unfolding evaluate mark roll_day
after_figures equity t s =
    let (pnl, drawdown, _, e) = update_equity_cases equity t s in
    ground
      (arith, e, lt_irrefl equity, lt_irrefl s.high_water_mark, lt_asymm s.high_water_mark equity)

-- `update_equity` never raises: a base that is not positive is not divided by.
pub update_equity_total :
    (equity : Decimal) (t : DateTime) (s : CircuitBreaker)
    → (st : CircuitBreakerStatus) × ((update_equity equity t s).0 ≡ ok st)
unfolding evaluate
update_equity_total equity t s =
    let (pnl, drawdown, _, e) = update_equity_cases equity t s in
    elim (Result-cases (update_equity equity t s).0) [
      | inl value ↦ value
      | inr (x, raised) ↦ absurd (ground (arith, e))
    ]

-- The statuses are left aside.
unfoldable pub run_updates : List (Decimal × DateTime) → CircuitBreaker → CircuitBreaker
run_updates [] s = s
run_updates ((equity, t) ∷ rest) s = run_updates rest (update_equity equity t s).1

hwm_grows :
    (us : List (Decimal × DateTime)) (s : CircuitBreaker)
    → Decimal.le s.high_water_mark (run_updates us s).high_water_mark ≡ true
unfolding run_updates
hwm_grows [] s = ground (arith, lt_irrefl s.high_water_mark)
hwm_grows ((equity, t) ∷ rest) s =
    let (_, _, up, _) = after_figures equity t s in
    le_trans s.high_water_mark (after equity t s).high_water_mark
      (run_updates rest (after equity t s)).high_water_mark up (hwm_grows rest (after equity t s))

-- After any sequence of updates the high-water mark is at least what it was, and at least each
-- equity that was reported.
pub run_updates_high_water :
    (us : List (Decimal × DateTime)) (s : CircuitBreaker)
    → let mark = (run_updates us s).high_water_mark in
      (Decimal.le s.high_water_mark mark ≡ true) × All (λ u. Decimal.le u.0 mark ≡ true) us
unfolding run_updates
run_updates_high_water [] s = (hwm_grows [] s, tt)
run_updates_high_water ((equity, t) ∷ rest) s =
    let next = after equity t s in
    let (_, above, _, _) = after_figures equity t s in
    (
      hwm_grows ((equity, t) ∷ rest) s,
      (
        le_trans equity next.high_water_mark (run_updates rest next).high_water_mark above
            (hwm_grows rest next),
        (run_updates_high_water rest next).1,
      ),
    )

safe_mode_stays :
    (us : List (Decimal × DateTime)) (s : CircuitBreaker)
    → s.safe_mode ≡ true
    → (run_updates us s).safe_mode ≡ true
unfolding run_updates
safe_mode_stays [] s h = h
safe_mode_stays ((equity, t) ∷ rest) s h =
    safe_mode_stays rest (after equity t s) ((after_figures equity t s).3 h)

-- SAFE_MODE survives any sequence of updates, however the equity recovers and the days pass; then the
-- next status has a sizing multiplier of zero.
pub safe_mode_sticky :
    (us : List (Decimal × DateTime)) (s : CircuitBreaker) (equity : Decimal) (t : DateTime)
    {st : CircuitBreakerStatus}
    → s.safe_mode ≡ true
    → (update_equity equity t (run_updates us s)).0 ≡ ok st
    → (st.is_safe_mode ≡ true) × (st.sizing_multiplier ≡ decimal (pos 0) 1)
unfolding evaluate roll_day mark
safe_mode_sticky us s equity t h e =
    let b = run_updates us s in
    let (pnl, drawdown, _, run) = update_equity_cases equity t b in
    ground (arith, e, run, safe_mode_stays us s h)

-- What a status says: it stops all sizing exactly when SAFE_MODE or the daily halt is on, it halves the
-- sizing exactly when neither is on and the day's change is at or below -2%, the daily halt is on
-- whenever the change is at or below -4%, and SAFE_MODE whenever the drawdown is at or below -10%.
pub status_consistent :
    (equity : Decimal) (t : DateTime) (s : CircuitBreaker) {st : CircuitBreakerStatus}
    → (update_equity equity t s).0 ≡ ok st
    → ((st.sizing_multiplier ≡ decimal (pos 0) 1)
        ↔ ((st.is_safe_mode ≡ true) ⊎ (st.is_daily_halted ≡ true)))
      × ((st.is_dampened ≡ true) ↔ (
          (st.is_safe_mode ≡ false)
          × (st.is_daily_halted ≡ false)
          × (Decimal.le st.daily_pnl_pct daily_dampener_threshold ≡ true)))
      × ((st.is_dampened ≡ false) ⊎ (st.sizing_multiplier ≡ decimal (pos 50) 2))
      × ((Decimal.le st.daily_pnl_pct daily_halt_threshold ≡ false) ⊎ (st.is_daily_halted ≡ true))
      × ((Decimal.le st.hwm_drawdown_pct hwm_safe_mode_threshold ≡ false)
          ⊎ (st.is_safe_mode ≡ true))
unfolding evaluate
status_consistent equity t s e =
    let (pnl, drawdown, _, run) = update_equity_cases equity t s in
    (
      ground (arith, e, run),
      ground (arith, e, run),
      ground (arith, e, run),
      ground (arith, e, run),
      ground (arith, e, run),
    )

change_pct_self :
    (equity : Decimal) (p : Decimal)
    → Decimal.lt (decimal (pos 0) 0) equity ≡ true
    → change_pct equity equity ≡ ok p
    → Decimal.le p daily_halt_threshold ≡ false
unfolding change_pct
change_pct_self equity p h e = div_self_sub equity p 3 2 h (rw h at e)

-- On a later date a positive equity lifts the daily halt, and becomes the opening equity of the day.
pub new_day_lifts_halt :
    (equity : Decimal) (t : DateTime) (s : CircuitBreaker)
    → s.current_trading_date < date (assume_utc t)
    → Decimal.lt (decimal (pos 0) 0) equity ≡ true
    → ((update_equity equity t s).1.daily_halted ≡ false)
      × ((update_equity equity t s).1.daily_open_equity ≡ equity)
unfolding evaluate roll_day mark
new_day_lifts_halt equity t s later positive =
    let (pnl, drawdown, e, run) = update_equity_cases equity t s in
    (ground (arith, run, e, change_pct_self equity pnl positive), ground (arith, run))

-- On the same date, or an earlier one, a daily halt stays, and so does the opening equity of the day.
pub same_day_keeps_halt :
    (equity : Decimal) (t : DateTime) (s : CircuitBreaker)
    → date (assume_utc t) ≤ s.current_trading_date
    → s.daily_halted ≡ true
    → ((update_equity equity t s).1.daily_halted ≡ true)
      × ((update_equity equity t s).1.daily_open_equity ≡ s.daily_open_equity)
unfolding evaluate roll_day mark
same_day_keeps_halt equity t s early halted =
    let (pnl, drawdown, e, run) = update_equity_cases equity t s in
    (ground (arith, run), ground (arith, run))
