-- ===== src/Tests/Production.antt =====
-- Examples for forex_platform/production/execution.py.
use forex_platform.Domain.Instruments.{normalize, is_supported}
use forex_platform.Portfolio.Targets.Bounds.{IsBounded}
use forex_platform.Portfolio.Targets.{
  gross, units_of, normalize_units, regime_eq, is_allowed, target_intent, accept_delta, limit_delta,
  allocate_target, TargetPosition, allocate_targets, AllocationDecision, MarketRegime, allocate,
}
use forex_platform.Domain.Lots.{from_units}
use forex_platform.Orders.Lifecycle.{is_legal, transition_to}
use forex_platform.Orders.Router.Slices.{slice_sizes, slice_loop}
use forex_platform.Orders.Router.{
  new_order, register, generate_client_order_id, route_intent, slice_orders, slice_intent,
}
use forex_platform.Orders.Oms.Submission.{
  route_approved, submitted_machine, record_order, record_orders,
}
use forex_platform.Portfolio.Rates.{
  decompose_order_intent, rate_symbol, merge_rates, get_rate_to_account,
}
use forex_platform.Portfolio.Exposure.{
  simulate_order_exposure, currency_delta, convert, record_delta, add_legs, add_intents,
  add_positions, calculate_portfolio_exposure,
}
use forex_platform.Portfolio.Governor.{evaluate_intent}
use forex_platform.Risk.Breaker.{change_pct, roll_day, mark, update_equity}
use forex_platform.Risk.KillSwitch.{is_killed}
use forex_platform.Sessions.{ensure_utc, is_rollover, is_weekend}
use forex_platform.Risk.Firewall.{
  spread_gate, exposure_gate, latency_gate, sanity_gate, market_tiers, breaker_tiers, run_tiers,
  evaluate_order,
}
use forex_platform.Risk.Quotes.{median_spread_pips, spread_pips}
use forex_platform.Domain.Pair.{to_pips, pair_of_code, from_symbol}
use forex_platform.Time.{instant, elapsed, time_of_day, weekday, to_utc, assume_utc, date}
use forex_platform.Orders.Oms.State.{Oms}
use forex_platform.Orders.Oms.Valuation.{get_open_positions}
use forex_platform.Decimal
use forex_platform.Decimal.{Decimal, decimal}
use forex_platform.Domain.Kinds.{OrderStatus}
use forex_platform.Domain.Orders.{post_init}
use forex_platform.Risk.Breaker
use forex_platform.Orders.Oms.State
use forex_platform.Orders.Oms.Submission
use forex_platform.Portfolio.Governor.Verdict
use forex_platform.Production.Kernel
use forex_platform.Production.Kernel.{
  result_of_day, loss_limit, kernel_refusal, Kernel, KernelDecision, Settings, KernelReason,
  daily_pnl, record_realized_pnl, is_approved,
}
use forex_platform.Production.Kernel.Gates.{
  Admitted, evaluate_approved, record_realized_pnl-daily_pnl,
}
use forex_platform.Production.Service
use forex_platform.Production.Service.{
  ack_fill, apply_ack, settle_ack, child_intent, route_child, route_children, Ack, Gateway, World,
}
use forex_platform.Production.Service.Clearance.{submit_intent-Admitted}
use forex_platform.Production.Service.Journal.{journaled, submit_intent-journaled}
use forex_platform.Risk.KillSwitch
use forex_platform.Production.Allocation.{
  Options, default_allocator, current_units, submit_each, submit_targets,
}
use forex_platform.Production.Allocation.Clearance.{WasAdmitted, submit_targets-Admitted}
use forex_platform.Production.Positions.{RemotePosition, reconcile}
use forex_platform.Production.Positions.Locks.{held, reported, reconcile_locks}
use forex_platform.Prelude.{
  All, List, value_of, is_member, ◌-ℤ◌, ◌+ℤ◌, insert, lookup, starts_with, has_substring,
  remove_char, to_upper, upper, is_space, lstrip, strip, clean_symbol, text_eq, ◌==◌, false, ◌+◌,
  ok, true, arith, if◌then◌else◌, some, ◌∷◌, none, codes, ◌≡◌, negsuc, ◌≢◌, pos, [], ℕ, refl, catch,
}
use forex_platform.Tests.Data.{
  firewall, breaker, router, request, small, noon, equity, at, telemetry,
}

abbrev settings : Settings
settings = record {
  account_equity = equity;
  max_order_units = pos 50000;
  max_daily_loss_pct = decimal (pos 20) 1;
  news_enabled = true;
}

abbrev kernel : Kernel
kernel = record {
  settings = settings;
  daily_results = (737998, decimal (negsuc 4999) 2) ∷ [];
  status = none;
  has_news = true;
  blackout_for = λ symbol t. false;
}

record_realized_pnl-daily_pnl_example :
    let (updated, k') = record_realized_pnl (decimal (pos 2500) 2) noon kernel in
    (daily_pnl noon k' ≡ updated)
    × (daily_pnl (at 737999 9 0) k' ≡ (
        if date (at 737999 9 0) == date noon
        then Decimal.add (daily_pnl noon kernel) (decimal (pos 2500) 2)
        else daily_pnl (at 737999 9 0) kernel))
record_realized_pnl-daily_pnl_example =
    record_realized_pnl-daily_pnl (decimal (pos 2500) 2) noon (at 737999 9 0) kernel

abbrev oms : Oms
oms = State.new firewall breaker KillSwitch.new router equity

abbrev verdict : KernelDecision
verdict =
    catch (Kernel.evaluate kernel small request [] oms).0
      (λ e. KernelDecision.refused KernelReason.killed)

decided : (Kernel.evaluate kernel small request [] oms).0 ≡ ok verdict
unfolding Kernel.evaluate kernel_refusal daily_pnl loss_limit result_of_day Decimal.add Decimal.sub
    Decimal.mul Decimal.neg Decimal.abs Decimal.div Decimal.quantize Decimal.lt text_eq clean_symbol
    strip lstrip is_space upper to_upper remove_char has_substring starts_with lookup insert ◌+ℤ◌
    ◌-ℤ◌ from_symbol pair_of_code to_pips assume_utc to_utc date weekday time_of_day elapsed instant
    evaluate_order run_tiers breaker_tiers market_tiers sanity_gate latency_gate exposure_gate
    spread_gate spread_pips median_spread_pips is_member is_weekend is_rollover ensure_utc is_killed
    update_equity Breaker.evaluate mark roll_day change_pct State.new
decided = refl

approved : is_approved verdict ≡ true
unfolding Kernel.evaluate kernel_refusal daily_pnl loss_limit result_of_day Decimal.add Decimal.sub
    Decimal.mul Decimal.neg Decimal.abs Decimal.div Decimal.quantize Decimal.lt text_eq clean_symbol
    strip lstrip is_space upper to_upper remove_char has_substring starts_with lookup insert ◌+ℤ◌
    ◌-ℤ◌ from_symbol pair_of_code to_pips assume_utc to_utc date weekday time_of_day elapsed instant
    evaluate_order run_tiers breaker_tiers market_tiers sanity_gate latency_gate exposure_gate
    spread_gate spread_pips median_spread_pips is_member is_weekend is_rollover ensure_utc is_killed
    update_equity Breaker.evaluate mark roll_day change_pct State.new Verdict.verdict value_of
    evaluate_intent calculate_portfolio_exposure add_positions add_intents add_legs record_delta
    convert currency_delta get_rate_to_account merge_rates rate_symbol simulate_order_exposure
    decompose_order_intent
approved = refl

evaluate_approved_example : Admitted kernel small request [] oms
evaluate_approved_example = evaluate_approved kernel small request [] oms verdict decided approved

abbrev answer : Ack
answer = record {
  order_id = codes "O1";
  broker_ticket = codes "T1";
  status = OrderStatus.filled;
  timestamp = noon;
  filled_units = pos 10000;
  fill_price = some (decimal (pos 108010) 5);
}

-- A registry that counts the orders that it gets.
abbrev counting : Gateway ℕ
counting = record {
  send_order = λ child n. (ok (codes "PAPER", answer), n + 1);
  cancel = λ order_id account_id n. (false, n);
}

abbrev world : World ℕ
world = record { oms = oms; broker = 0 }

submit_intent-journaled_example :
    journaled none (Service.submit_intent counting kernel small request noon world).1 ≡ true
submit_intent-journaled_example = submit_intent-journaled counting kernel small request noon world

sent_once : (Service.submit_intent counting kernel small request noon world).2.broker ≡ 1
unfolding Kernel.evaluate kernel_refusal daily_pnl loss_limit result_of_day Decimal.add Decimal.sub
    Decimal.mul Decimal.neg Decimal.abs Decimal.div Decimal.quantize Decimal.lt text_eq clean_symbol
    strip lstrip is_space upper to_upper remove_char has_substring starts_with lookup insert ◌+ℤ◌
    ◌-ℤ◌ from_symbol pair_of_code to_pips assume_utc to_utc date weekday time_of_day elapsed instant
    evaluate_order run_tiers breaker_tiers market_tiers sanity_gate latency_gate exposure_gate
    spread_gate spread_pips median_spread_pips is_member is_weekend is_rollover ensure_utc is_killed
    update_equity Breaker.evaluate mark roll_day change_pct State.new Verdict.verdict value_of
    evaluate_intent calculate_portfolio_exposure add_positions add_intents add_legs record_delta
    convert currency_delta get_rate_to_account merge_rates rate_symbol simulate_order_exposure
    decompose_order_intent Service.submit_intent route_children route_child child_intent settle_ack
    apply_ack ack_fill get_open_positions Submission.submit_intent record_orders record_order
    submitted_machine route_approved slice_intent slice_orders slice_loop slice_sizes route_intent
    generate_client_order_id register new_order transition_to is_legal from_units post_init
sent_once = refl

changed : (Service.submit_intent counting kernel small request noon world).2.broker ≢ world.broker
changed e = ground (arith, sent_once)

submit_intent-Admitted_example : Admitted kernel small request (get_open_positions oms) oms
submit_intent-Admitted_example =
    submit_intent-Admitted counting kernel small request noon world changed

abbrev options : Options
options = record {
  account_id = none;
  strategy_id = none;
  account_equity = none;
  telemetry_for = λ symbol. some telemetry;
}

abbrev targets : List TargetPosition
targets =
    record { symbol = codes "EUR/USD"; target_units = pos 10000; strategy_id = codes "S1" } ∷ []

targets_sent :
    (submit_targets counting kernel options
      (λ tick. noon)
      targets
      MarketRegime.trending
      world).2.broker
    ≡ 1
unfolding Kernel.evaluate kernel_refusal daily_pnl loss_limit result_of_day Decimal.add Decimal.sub
    Decimal.mul Decimal.neg Decimal.abs Decimal.div Decimal.quantize Decimal.lt text_eq clean_symbol
    strip lstrip is_space upper to_upper remove_char has_substring starts_with lookup insert ◌+ℤ◌
    ◌-ℤ◌ from_symbol pair_of_code to_pips assume_utc to_utc date weekday time_of_day elapsed instant
    evaluate_order run_tiers breaker_tiers market_tiers sanity_gate latency_gate exposure_gate
    spread_gate spread_pips median_spread_pips is_member is_weekend is_rollover ensure_utc is_killed
    update_equity Breaker.evaluate mark roll_day change_pct State.new Verdict.verdict value_of
    evaluate_intent calculate_portfolio_exposure add_positions add_intents add_legs record_delta
    convert currency_delta get_rate_to_account merge_rates rate_symbol simulate_order_exposure
    decompose_order_intent Service.submit_intent route_children route_child child_intent settle_ack
    apply_ack ack_fill get_open_positions Submission.submit_intent record_orders record_order
    submitted_machine route_approved slice_intent slice_orders slice_loop slice_sizes route_intent
    generate_client_order_id register new_order transition_to is_legal from_units post_init
    submit_targets submit_each current_units allocate allocate_targets allocate_target limit_delta
    accept_delta target_intent is_allowed regime_eq is_supported normalize normalize_units units_of
    gross
targets_sent = refl

targets_changed :
    (submit_targets counting kernel options
      (λ tick. noon)
      targets
      MarketRegime.trending
      world).2.broker
    ≢ world.broker
targets_changed e = ground (arith, targets_sent)

submit_targets-Admitted_example :
    (d : AllocationDecision) × (allocate default_allocator targets
        (current_units (get_open_positions oms) [])
        MarketRegime.trending
        noon
      ≡ ok d)
    × All (IsBounded default_allocator) d.intents
    × WasAdmitted counting kernel options (λ tick. noon) 1 d.intents world
submit_targets-Admitted_example =
    submit_targets-Admitted counting kernel options (λ tick. noon) targets MarketRegime.trending
      world targets_changed

abbrev remote : List RemotePosition
remote = record { symbol = codes "EURUSD"; units = pos 20000; side = codes "buy" } ∷ []

reported_euro : reported (codes "EURUSD") remote ≡ pos 20000
unfolding text_eq upper to_upper ◌+ℤ◌ ◌-ℤ◌
reported_euro = refl

held_euro : held (codes "EURUSD") (get_open_positions oms) ≡ pos 0
unfolding get_open_positions State.new text_eq
held_euro = refl

unreconciled : reported (codes "EURUSD") remote ≢ held (codes "EURUSD") (get_open_positions oms)
unreconciled e = ground (arith, reported_euro, held_euro)

named : small.symbol ≢ []
named e = cc

same_pair : clean_symbol small.symbol ≡ clean_symbol (codes "EURUSD")
unfolding clean_symbol upper to_upper remove_char
same_pair = refl

reconcile_locks_example :
    let s' = (reconcile remote oms).2 in
    (evaluate_order firewall request small s'.kill_switch s'.circuit_breaker).0.approved ≡ false
reconcile_locks_example =
    reconcile_locks remote oms (codes "EURUSD") firewall request small unreconciled named same_pair
