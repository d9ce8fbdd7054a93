-- ===== src/Tests/Switches.antt =====
-- Examples for forex_platform/risk_engine/kill_switches.py.
use forex_platform.Risk.KillSwitch
use forex_platform.Risk.KillSwitch.{
  KillSwitch, KillQuery, is_killed, arm_pair, disarm_pair, disarm_all, armed, armed_pair,
}
use forex_platform.Risk.KillSwitch.Levels.{
  IsAnswer, IsArmed, IsPairArmed, is_killed_iff, Arming, globally, broker,
}
use forex_platform.Prelude.{
  true, none, some, List, [], ◌∷◌, codes, ◌≡◌, ◌≢◌, ◌⊎◌, ◌↔◌, refl, clean_symbol, text_eq, lookup,
  insert, strip, lstrip, is_space, upper, to_upper, remove_char,
}

abbrev query : KillQuery
query = record {
  tenant_id = none;
  broker_id = some (codes "B1");
  symbol = some (codes "eur/usd");
  strategy_id = none;
}

abbrev pair_armed : KillSwitch
pair_armed = arm_pair (codes "EURUSD") (codes "news") KillSwitch.new

query_killed : (is_killed query pair_armed).0 ≡ true
unfolding is_killed arm_pair clean_symbol strip lstrip is_space upper to_upper remove_char text_eq
    lookup insert
query_killed = refl

is_killed_iff_example :
    (((is_killed query pair_armed).0 ≡ true) ↔ (
      (pair_armed.global_killed ≡ true)
      ⊎ IsArmed query.tenant_id pair_armed.tenant_switches
      ⊎ IsArmed query.broker_id pair_armed.broker_switches
      ⊎ IsPairArmed query.symbol pair_armed.pair_switches
      ⊎ IsArmed query.strategy_id pair_armed.strategy_switches))
    × IsAnswer query pair_armed (is_killed query pair_armed)
is_killed_iff_example = is_killed_iff query pair_armed

abbrev more : List Arming
more = broker (codes "B2") (codes "outage") ∷ globally (codes "halt") ∷ []

spelled : codes "eur/usd" ≢ []
spelled e = cc

same_pair : clean_symbol (codes "eur/usd") ≡ clean_symbol (codes "EURUSD")
unfolding clean_symbol strip lstrip is_space upper to_upper remove_char
same_pair = refl
