-- ===== src/Tests/Reconciliation.antt =====
-- Examples for forex_platform/reconciliation/reconciler.py.
use forex_platform.Prelude.{
  remove_char, to_upper, upper, is_space, lstrip, strip, clean_symbol, text_eq, ◌*ℤ◌, ◌+ℤ◌, Text,
  arith, false, inr, ◌↔◌, ◌≢◌, true, none, ◌∷◌, List, some, ok, ◌≡◌, Result, pos, [], codes,
}
use forex_platform.Domain.Kinds.{buy, sell}
use forex_platform.Reconciliation.{
  Leg, Observation, Reconciler, BrokerPosition, leg_of_broker, report_of, run_loop,
}
use forex_platform.Reconciliation.Freeze.{IsBreach, breach_freezes}
use forex_platform.Reconciliation.Nets.{total}
use forex_platform.Reconciliation.Verdict.{report_of-clean}
use forex_platform.Risk.KillSwitch
use forex_platform.Risk.Firewall.{evaluate_order}
use forex_platform.Prelude.{refl}
use forex_platform.Tests.Data.{firewall, breaker, request, small, noon, equity}

abbrev ours : List Leg
ours =
    record { symbol = codes "EUR/USD"; side = buy; units = pos 30000 }
    ∷ record { symbol = codes "EURUSD"; side = sell; units = pos 10000 }
    ∷ []

abbrev theirs : List Leg
theirs = record { symbol = codes "eurusd"; side = buy; units = pos 20000 } ∷ []

report_of-clean_example :
    ((report_of noon ours theirs).is_clean ≡ true) ↔ ((k : Text) → total k ours ≡ total k theirs)
report_of-clean_example = report_of-clean noon ours theirs

abbrev reconciler : Reconciler
reconciler = record {
  broker_name = codes "PAPER";
  kill_switch = KillSwitch.new;
  circuit_breaker = some breaker;
  latest_report = none;
  reconciliation_count = 0;
}

abbrev phantom : BrokerPosition
phantom = record {
  ticket_id = codes "T1";
  symbol = codes "EURUSD";
  side = buy;
  units = pos 20000;
  open_price = equity;
  unrealized_pnl = equity;
  timestamp = noon;
}

abbrev observe : Result (List BrokerPosition) → Observation
observe answer = record { now = noon; oms_positions = []; broker_positions = answer }

counted_there : total (codes "EURUSD") (leg_of_broker phantom ∷ []) ≡ pos 20000
unfolding ◌+ℤ◌ ◌*ℤ◌ text_eq clean_symbol strip lstrip is_space upper to_upper remove_char
counted_there = refl

held_there : total (codes "EURUSD") [] ≢ total (codes "EURUSD") (leg_of_broker phantom ∷ [])
held_there e = ground (arith, counted_there)

abbrev breach : IsBreach (observe (ok (phantom ∷ [])))
breach = inr (phantom ∷ [], codes "EURUSD", refl, held_there)

breach_freezes_example :
    (evaluate_order firewall request small
      (run_loop
        (observe (ok []) ∷ observe (ok (phantom ∷ [])) ∷ observe (ok []) ∷ [])
        reconciler).kill_switch
      breaker).0.approved
    ≡ false
breach_freezes_example =
    breach_freezes (observe (ok []) ∷ []) (observe (ok []) ∷ []) (observe (ok (phantom ∷ [])))
      reconciler firewall request small breaker breach
