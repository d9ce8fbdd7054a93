-- ===== src/Risk/KillSwitch.antt =====
-- `HierarchicalKillSwitch` of forex_platform/risk_engine/kill_switches.py. Each method holds the
-- lock for its whole body, so it is one step. A reason that `is_killed` formats is the level with
-- the key and the stored reason.
pub mod Levels
use forex_platform.Prelude.{
  Bool, true, false, Option, none, some, List, [], ◌∷◌, if◌then◌else◌, Text, clean_symbol, Dict,
  lookup, insert, erase,
}

pub record KillSwitch : Type 0 where
  pub global_killed : Bool
  pub global_reason : Option Text
  pub tenant_switches : Dict Text
  pub broker_switches : Dict Text
  pub pair_switches : Dict Text
  pub strategy_switches : Dict Text

-- `__init__`
abbrev pub new : KillSwitch
new = record {
  global_killed = false;
  global_reason = none;
  tenant_switches = [];
  broker_switches = [];
  pair_switches = [];
  strategy_switches = [];
}

unfoldable pub arm_global : Text → KillSwitch → KillSwitch
arm_global reason s = record s { global_killed = true; global_reason = some reason }

unfoldable pub disarm_global : KillSwitch → KillSwitch
disarm_global s = record s { global_killed = false; global_reason = none }

unfoldable pub arm_tenant : Text → Text → KillSwitch → KillSwitch
arm_tenant tenant_id reason s = record s {
  tenant_switches = insert tenant_id reason s.tenant_switches;
}

unfoldable pub disarm_tenant : Text → KillSwitch → KillSwitch
disarm_tenant tenant_id s = record s { tenant_switches = erase tenant_id s.tenant_switches }

unfoldable pub arm_broker : Text → Text → KillSwitch → KillSwitch
arm_broker broker_id reason s = record s {
  broker_switches = insert broker_id reason s.broker_switches;
}

unfoldable pub disarm_broker : Text → KillSwitch → KillSwitch
disarm_broker broker_id s = record s { broker_switches = erase broker_id s.broker_switches }

unfoldable pub arm_pair : Text → Text → KillSwitch → KillSwitch
arm_pair symbol reason s = record s {
  pair_switches = insert (clean_symbol symbol) reason s.pair_switches;
}

unfoldable pub disarm_pair : Text → KillSwitch → KillSwitch
disarm_pair symbol s = record s { pair_switches = erase (clean_symbol symbol) s.pair_switches }

unfoldable pub arm_strategy : Text → Text → KillSwitch → KillSwitch
arm_strategy strategy_id reason s = record s {
  strategy_switches = insert strategy_id reason s.strategy_switches;
}

unfoldable pub disarm_strategy : Text → KillSwitch → KillSwitch
disarm_strategy strategy_id s = record s {
  strategy_switches = erase strategy_id s.strategy_switches;
}

unfoldable pub disarm_all : KillSwitch → KillSwitch
disarm_all s = record {
  global_killed = false;
  global_reason = none;
  tenant_switches = [];
  broker_switches = [];
  pair_switches = [];
  strategy_switches = [];
}

pub data KillReason : Type 0 where
  global_kill : Option Text → KillReason
  tenant_kill broker_kill pair_kill strategy_kill : Text → Text → KillReason

-- `k and k in switches`, with the key and its reason: an empty text is false.
abbrev pub armed : Option Text → Dict Text → Option (Text × Text)
armed none d = none
armed (some []) d = none
armed (some (c ∷ k)) d = elim (lookup (c ∷ k) d) [ none ↦ none | some r ↦ some (c ∷ k, r) ]

-- The pair level tests `symbol` and looks up its clean form.
abbrev pub armed_pair : Option Text → Dict Text → Option (Text × Text)
armed_pair none d = none
armed_pair (some []) d = none
armed_pair (some (c ∷ k)) d =
    let clean = clean_symbol (c ∷ k) in
    elim (lookup clean d) [ none ↦ none | some r ↦ some (clean, r) ]

pub record KillQuery : Type 0 where
  pub tenant_id : Option Text
  pub broker_id : Option Text
  pub symbol : Option Text
  pub strategy_id : Option Text

-- The first of two levels that is armed.
abbrev or_next :
    (Text → Text → KillReason)
    → Option (Text × Text)
    → Bool × Option KillReason
    → Bool × Option KillReason
or_next kill none rest = rest
or_next kill (some (key, reason)) rest = (true, some (kill key reason))

unfoldable pub is_killed : KillQuery → KillSwitch → Bool × Option KillReason
is_killed q s =
    if s.global_killed
    then (true, some (global_kill s.global_reason))
    else or_next tenant_kill (armed q.tenant_id s.tenant_switches) (
        or_next broker_kill (armed q.broker_id s.broker_switches) (
          or_next pair_kill (armed_pair q.symbol s.pair_switches)
            (or_next strategy_kill (armed q.strategy_id s.strategy_switches) (false, none))))
