-- ===== src/Costs/Regimes.antt =====
-- Which multiplier of the spread a time has.
use forex_platform.Costs.{
  SpreadModel, get_spread_multiplier, regime_multiplier, multiplier_london_ny_overlap,
  multiplier_western_solo,
}
use forex_platform.Decimal.{Decimal}
use forex_platform.Domain.Kinds.{SessionName}
use forex_platform.Sessions.{
  Overlap, ensure_utc, is_weekend, is_rollover, get_session_state, get_active_sessions, overlap_of,
  overlap_regime, quiet_hours,
}
use forex_platform.Sessions.Calendar.{ensure_utc_idem, get_session_state_regime}
use forex_platform.Prelude.{
  Bool-cases, true, false, Option, List, ok, err, market_closed_error, ◌≡◌, ◌≢◌, ◌⊎◌, ◌∙◌, refl,
  inl, inr, arith,
}
use forex_platform.Time.{DateTime}

-- The regime of a trading time outside the rollover.
trading_regime :
    (dt : DateTime)
    → is_weekend dt ≡ false
    → is_rollover dt ≡ false
    → let active = get_active_sessions (ensure_utc dt) in
      (get_session_state dt).regime_tag ≡ overlap_regime (overlap_of active) active
unfolding get_session_state is_weekend is_rollover
trading_regime dt trading steady = ground (arith, ensure_utc_idem dt)

-- A multiplier of the sessions, not that of the quiet hours.
abbrev pub IsSessional : Decimal → SpreadModel → Type 0
IsSessional x m =
    (x ≡ multiplier_london_ny_overlap) ⊎ (x ≡ multiplier_western_solo) ⊎ (x ≡ m.asian_multiplier)

overlap_regime-IsSessional :
    (o : Option Overlap) (active : List SessionName) (m : SpreadModel)
    → overlap_regime o active ≢ quiet_hours
    → IsSessional (regime_multiplier (overlap_regime o active) m) m
overlap_regime-IsSessional o active m named = ground arith

-- The spread multiplier of a time is an error at the weekend, that of the rollover within its window, and
-- else one of the three of the sessions: the one of the quiet hours is never given.
pub get_spread_multiplier-IsSessional :
    (dt : DateTime) (m : SpreadModel)
    → ((is_weekend dt ≡ true) × (get_spread_multiplier dt m ≡ err market_closed_error))
      ⊎ ((is_weekend dt ≡ false)
          × (is_rollover dt ≡ true)
          × (get_spread_multiplier dt m ≡ ok m.rollover_multiplier))
      ⊎ ((is_weekend dt ≡ false)
          × (is_rollover dt ≡ false)
          × ((x : Decimal) × (get_spread_multiplier dt m ≡ ok x) × IsSessional x m))
unfolding get_spread_multiplier
get_spread_multiplier-IsSessional dt m = elim (Bool-cases (is_weekend dt)) [
  | inl closed ↦ inl (closed, ground arith)
  | inr trading ↦ elim (Bool-cases (is_rollover dt)) [
    | inl rolling ↦ inr (inl (trading, rolling, ground arith))
    | inr steady ↦
        let active = get_active_sessions (ensure_utc dt) in
        let regime = trading_regime dt trading steady in
        let named : overlap_regime (overlap_of active) active ≢ quiet_hours =
          λ e. (get_session_state_regime dt).0 (regime ∙ e) in
        inr (
          inr (
            trading,
            steady,
            (
              regime_multiplier (overlap_regime (overlap_of active) active) m,
              rw (trading, steady, regime) refl,
              overlap_regime-IsSessional (overlap_of active) active m named,
            ),
          ))
  ]
]
