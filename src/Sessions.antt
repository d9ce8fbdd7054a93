-- ===== src/Sessions.antt =====
-- `ForexSessionEngine` of forex_platform/core/sessions.py.
pub mod Calendar
use forex_platform.Domain.Kinds.{SessionName, sydney, tokyo, london, new_york}
use forex_platform.Prelude.{
  ℕ, ltb, leb, ◌==◌, if◌then◌else◌, Bool, true, false, ◌&&◌, ◌||◌, Option, none, some, List, [],
  ◌∷◌, ◌++◌, length, Text, codes, not,
}
use forex_platform.Time.{DateTime, time, weekday, time_of_day, assume_utc, to_utc}

-- `_ensure_utc`
unfoldable pub ensure_utc : DateTime → DateTime
unfolding assume_utc
ensure_utc dt = elim dt.offset [ none ↦ assume_utc dt | some o ↦ to_utc dt o ]

-- `is_weekend` of the weekday and the time of day in UTC
abbrev pub weekend_at : ℕ → ℕ → Bool
weekend_at day t =
    if day == 4 && leb (time 21 0) t
    then true
    else if day == 5
    then true
    else if day == 6 && ltb t (time 21 0)
    then true
    else false

unfoldable pub is_weekend : DateTime → Bool
is_weekend dt = let utc = ensure_utc dt in weekend_at (weekday utc) (time_of_day utc)

unfoldable pub is_market_open : DateTime → Bool
unfolding is_weekend
is_market_open dt = not (is_weekend dt)

abbrev pub rollover_start : ℕ
rollover_start = time 20 55

abbrev pub rollover_end : ℕ
rollover_end = time 21 15

abbrev pub rollover_at : ℕ → ℕ → Bool
rollover_at day t =
    if weekend_at day t
    then false
    else if day == 4
    then leb rollover_start t && ltb t (time 21 0)
    else leb rollover_start t && leb t rollover_end

unfoldable pub is_rollover : DateTime → Bool
is_rollover dt = let utc = ensure_utc dt in rollover_at (weekday utc) (time_of_day utc)

abbrev pub triple_swap_at : ℕ → ℕ → Bool → Bool
triple_swap_at day t window_mode =
    if day == 2
    then (if window_mode
        then leb rollover_start t && leb t rollover_end
        else leb (time 21 0) t && leb t rollover_end)
    else false

unfoldable pub is_triple_swap : DateTime → Bool → Bool
is_triple_swap dt window_mode =
    let utc = ensure_utc dt in triple_swap_at (weekday utc) (time_of_day utc) window_mode

abbrev when : Bool → SessionName → List SessionName
when b s = if b then s ∷ [] else []

abbrev pub active_at : ℕ → ℕ → List SessionName
active_at day t =
    if weekend_at day t
    then []
    else when (leb (time 21 0) t || ltb t (time 6 0)) sydney
      ++ (when (leb (time 0 0) t && ltb t (time 9 0)) tokyo
          ++ (when (leb (time 7 0) t && ltb t (time 16 0)) london
              ++ when (leb (time 12 0) t && ltb t (time 21 0)) new_york))

unfoldable pub get_active_sessions : DateTime → List SessionName
get_active_sessions dt = let utc = ensure_utc dt in active_at (weekday utc) (time_of_day utc)

abbrev session_eq : SessionName → SessionName → Bool
session_eq sydney sydney = true
session_eq tokyo tokyo = true
session_eq london london = true
session_eq new_york new_york = true
session_eq _ _ = false

-- `s in active`, of the four major sessions
abbrev pub is_active : SessionName → List SessionName → Bool
is_active s [] = false
is_active s (x ∷ xs) = session_eq s x || is_active s xs

-- `overlap_type`: a session pair with a name of its own, or `"_".join(s.value for s in active)`.
pub data Overlap : Type 0 where
  london_new_york sydney_tokyo tokyo_london : Overlap
  joined : List SessionName → Overlap

abbrev pub overlap_of : List SessionName → Option Overlap
overlap_of active =
    if is_active london active && is_active new_york active
    then some london_new_york
    else if is_active sydney active && is_active tokyo active
    then some sydney_tokyo
    else if is_active tokyo active && is_active london active
    then some tokyo_london
    else if ltb 1 (length active)
    then some (joined active)
    else none

-- The values of `regime_tag`.
pub data Regime : Type 0 where
  weekend_closed rollover_triple_swap rollover overlap_london_ny overlap_tokyo_london : Regime
  overlap_sydney_tokyo london_solo new_york_solo asian_session quiet_hours : Regime

abbrev solo_regime : List SessionName → Regime
solo_regime active =
    if is_active london active
    then london_solo
    else if is_active new_york active
    then new_york_solo
    else if is_active tokyo active || is_active sydney active
    then asian_session
    else quiet_hours

abbrev pub overlap_regime : Option Overlap → List SessionName → Regime
overlap_regime (some london_new_york) active = overlap_london_ny
overlap_regime (some tokyo_london) active = overlap_tokyo_london
overlap_regime (some sydney_tokyo) active = overlap_sydney_tokyo
overlap_regime (some (joined _)) active = solo_regime active
overlap_regime none active = solo_regime active

pub record ForexSessionState : Type 0 where
  pub dt : DateTime
  pub is_market_open : Bool
  pub is_weekend : Bool
  pub is_rollover : Bool
  pub is_triple_swap : Bool
  pub active_sessions : List SessionName
  pub has_overlap : Bool
  pub overlap_type : Option Overlap
  pub regime_tag : Regime

unfoldable pub get_session_state : DateTime → ForexSessionState
unfolding is_weekend is_rollover is_triple_swap get_active_sessions
get_session_state dt =
    let utc = ensure_utc dt in
    let closed = is_weekend utc in
    let rolling = is_rollover utc in
    let triple = is_triple_swap utc true in
    let active = get_active_sessions utc in
    record {
      dt = utc;
      is_market_open = not closed;
      is_weekend = closed;
      is_rollover = rolling;
      is_triple_swap = triple;
      active_sessions = active;
      has_overlap = ltb 1 (length active);
      overlap_type = overlap_of active;
      regime_tag =
          if closed
          then weekend_closed
          else if rolling
          then (if triple then rollover_triple_swap else rollover)
          else overlap_regime (overlap_of active) active;
    }
