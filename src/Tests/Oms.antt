-- ===== src/Tests/Oms.antt =====
-- Examples for forex_platform/order_management/oms.py.
use forex_platform.Risk.Breaker.{change_pct, roll_day, mark, evaluate, update_equity}
use forex_platform.Risk.KillSwitch.{is_killed}
use forex_platform.Sessions.{ensure_utc, is_rollover, is_weekend}
use forex_platform.Time.{instant, elapsed, time_of_day, weekday, date, to_utc, assume_utc}
use forex_platform.Domain.Pair.{to_pips, pair_of_code, from_symbol}
use forex_platform.Decimal
use forex_platform.Orders.Lifecycle
use forex_platform.Orders.Lifecycle.{OrderStateMachine, is_legal}
use forex_platform.Orders.Oms.Accounts.{IsBooked, balance-IsBooked}
use forex_platform.Orders.Oms.Calls.{Call, submit, quote, after_calls}
use forex_platform.Orders.Oms.Filling.{mark_order_unknown}
use forex_platform.Orders.Oms.Safety.{unknown_locks_pair}
use forex_platform.Orders.Oms.State
use forex_platform.Orders.Oms.State.{Oms}
use forex_platform.Orders.Oms.Submission.{submit_intent}
use forex_platform.Risk.Firewall.{
  spread_gate, exposure_gate, latency_gate, market_tiers, breaker_tiers, run_tiers, evaluate_order,
  sanity_gate,
}
use forex_platform.Risk.Quotes.{median_spread_pips, spread_pips, fail, kill_switch_active}
use forex_platform.Risk.KillSwitch
use forex_platform.Prelude.{
  is_member, ◌-ℤ◌, ◌+ℤ◌, insert, starts_with, has_substring, remove_char, to_upper, upper, is_space,
  lstrip, text_eq, strip, true, none, some, List, [], ◌∷◌, codes, clean_symbol, lookup, ok, ◌≡◌,
  ◌≢◌, refl,
}
use forex_platform.Tests.Data.{firewall, breaker, router, equity, small, request, noon, telemetry}

abbrev calls : List Call
calls =
    quote (codes "EURUSD") telemetry.bid telemetry.ask telemetry.ask
    ∷ submit small request noon
    ∷ []

balance-IsBooked_example :
    IsBooked (after_calls calls (State.new firewall breaker KillSwitch.new router equity))
balance-IsBooked_example = balance-IsBooked calls firewall breaker KillSwitch.new router equity

abbrev machine : OrderStateMachine
machine = record {
  order_id = codes "O1";
  symbol = codes "EURUSD";
  current_state = Lifecycle.submitted;
  state_history = [];
}

-- A system with one order under way.
abbrev under_way : Oms
under_way = record {
  firewall = firewall;
  circuit_breaker = breaker;
  kill_switch = KillSwitch.new;
  router = router;
  heap = [];
  initial_balance = equity;
  balance = equity;
  orders = (codes "O1", 0) ∷ [];
  state_machines = (codes "O1", machine) ∷ [];
  open_positions = [];
  closed_positions = [];
  fills = [];
  latest_quotes = [];
  alerts = [];
}

order_known : lookup (codes "O1") under_way.orders ≡ some 0
unfolding lookup text_eq
order_known = refl

machine_known : lookup (codes "O1") under_way.state_machines ≡ some machine
unfolding lookup text_eq
machine_known = refl

legal : is_legal machine.current_state Lifecycle.unknown ≡ true
unfolding is_legal
legal = refl

named : small.symbol ≢ []
named e = cc

same_pair : clean_symbol small.symbol ≡ clean_symbol machine.symbol
unfolding clean_symbol strip lstrip is_space upper to_upper remove_char
same_pair = refl

sane : sanity_gate under_way.firewall small ≡ none
unfolding Decimal.add Decimal.sub Decimal.mul Decimal.neg Decimal.abs Decimal.div Decimal.quantize
    Decimal.lt text_eq clean_symbol strip lstrip is_space upper to_upper remove_char has_substring
    starts_with lookup insert ◌+ℤ◌ ◌-ℤ◌ from_symbol pair_of_code to_pips assume_utc to_utc date
    weekday time_of_day elapsed instant evaluate_order run_tiers breaker_tiers market_tiers
    sanity_gate latency_gate exposure_gate spread_gate spread_pips median_spread_pips is_member
    is_weekend is_rollover ensure_utc is_killed update_equity evaluate mark roll_day change_pct
sane = refl

unknown_locks_pair_example :
    (submit_intent small request noon
      (after_calls calls (mark_order_unknown (codes "O1") noon (codes "timeout") under_way).1)).0
    ≡ ok (fail 2 kill_switch_active, [])
unknown_locks_pair_example =
    unknown_locks_pair (codes "O1") (codes "timeout") noon under_way 0 machine calls small request
      noon order_known machine_known legal named same_pair sane
