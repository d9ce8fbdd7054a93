-- ===== src/Tests/Brokers.antt =====
-- Examples for forex_platform/production/brokers.py.
use forex_platform.Domain.Kinds.{filled}
use forex_platform.Production.Brokers.{
  AccountSpec, Adapters, ExecutionMode, Registry, candidates, eligible, insert_spec, send_order,
  try_routes,
}
use forex_platform.Production.Brokers.Failover.{
  IsIn, IsEligible, IsRanked, Outcome, send_order_failover,
}
use forex_platform.Prelude.{
  ◌↔◌, values, if◌then◌else◌, ℕ, suc, true, false, none, List, [], ◌∷◌, pos, codes, text_eq, ok,
  err, broker_error, upper, ◌≡◌, refl,
}
use forex_platform.Tests.Data.{noon, small}

abbrev account : ℕ → AccountSpec
account priority = record {
  account_id = priority ∷ [];
  broker = codes "broker";
  mode = ExecutionMode.demo;
  adapter = codes "mt5_remote";
  enabled = true;
  supports_live = false;
  priority = pos priority;
  requested_capital = record { coefficient = pos 0; places = 0 };
}

-- The account of priority 70 refuses each order, the state of the adapters counts what is sent.
abbrev agents : Adapters ℕ
agents = record {
  is_connected = λ name sent. true;
  send = λ name intent sent. if text_eq name (70 ∷ []) then (err broker_error, suc sent) else (
    ok (record {
      order_id = intent.intent_id;
      broker_ticket = codes "T";
      status = filled;
      timestamp = noon;
      filled_units = intent.lot_size.units;
      fill_price = none;
    }),
    suc sent,
  );
  cancel = λ name order sent. (ok true, sent);
}

abbrev accounts : Registry
accounts = record {
  default_execution_mode = codes "DEMO";
  specs = (90 ∷ [], account 90) ∷ (70 ∷ [], account 70) ∷ [];
}

-- The second account takes the order, after the first refused it.
second_takes : ((send_order agents none none accounts small 0).1 ≡ 2)
unfolding send_order candidates eligible insert_spec try_routes upper text_eq
second_takes = refl

send_order_failover_example :
    (specs : List AccountSpec) × (candidates none none accounts ≡ ok specs)
    × ((s : AccountSpec)
        → IsIn s specs ↔ (IsIn s (values accounts.specs) × IsEligible (upper (codes "DEMO")) s))
    × IsRanked specs
    × Outcome agents small specs 0 (send_order agents none none accounts small 0)
send_order_failover_example = send_order_failover agents small none accounts 0
