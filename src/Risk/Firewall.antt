-- ===== src/Risk/Firewall.antt =====
-- `PreTradeRiskFirewall` of forex_platform/risk_engine/firewall.py: its tiers, in their order.
pub mod Conditions
pub mod Gates
pub mod Verdicts
use forex_platform.Decimal
use forex_platform.Decimal.{Decimal, decimal, of_int}
use forex_platform.Domain.Kinds.{OrderSide, buy, sell, OrderType}
use forex_platform.Domain.Orders.{OrderIntent}
use forex_platform.Domain.Pair.{CurrencyPair, from_symbol, to_pips, one}
use forex_platform.Domain.Position.{Position}
use forex_platform.Portfolio.Governor.{Governor, GovernorDecision, Portfolio}
use forex_platform.Portfolio.Governor.Verdict.{verdict}
use forex_platform.Risk.Quotes.{
  Firewall, MarketTelemetry, Request, RiskDecision, RiskReason, approved_all, bad_limit_price,
  bad_lot_size, bad_stop_loss, bad_take_profit, breaker_triggered, clock_drift, exposure_rejected,
  fail, fail_zero, invalid_symbol, kill_switch_active, live_capital_locked, major_spread_limit,
  major_symbols, market_closed, max_clock_drift, max_quote_age, median_spread_pips,
  missing_telemetry, relative_spread_multiplier, rollover_blackout, spread_above_limit,
  spread_above_median, spread_pips, stale_quote, unexpected_exception,
}
use forex_platform.Risk.Breaker.{CircuitBreaker, CircuitBreakerStatus, update_equity}
use forex_platform.Risk.KillSwitch.{KillSwitch, KillQuery, is_killed}
use forex_platform.Sessions.{is_weekend, is_rollover}
use forex_platform.Time.{DateTime, assume_utc, elapsed}
use forex_platform.Prelude.{
  is_member, ℕ, ltb, if◌then◌else◌, Bool, true, false, not, ◌&&◌, ◌||◌, Option, none, some, List,
  [], ◌∷◌, ℤ, pos, leb_ℤ, ltb_ℤ, abs_ℕ, Text, codes, text_eq, has_substring, Dict, Result, ok, err,
  ◌>>=◌, catch,
}

-- Tier 1.

abbrev pub is_live_tag : Option Text → Bool
is_live_tag none = false
is_live_tag (some tag) = has_substring (codes "LIVE_EXECUTION") tag

abbrev pub needs_limit : OrderType → Bool
needs_limit OrderType.limit = true
needs_limit OrderType.stop = true
needs_limit _ = false

abbrev pub is_positive_price : Option Decimal → Bool
is_positive_price none = false
is_positive_price (some p) = Decimal.lt (decimal (pos 0) 0) p

-- The stop loss is on the wrong side of the price, or at it.
abbrev pub stop_misplaced : OrderSide → Option Decimal → Option Decimal → Bool
stop_misplaced _ none _ = false
stop_misplaced _ (some price) none = false
stop_misplaced buy (some price) (some s) = Decimal.le price s
stop_misplaced sell (some price) (some s) = Decimal.le s price

abbrev pub take_misplaced : OrderSide → Option Decimal → Option Decimal → Bool
take_misplaced _ none _ = false
take_misplaced _ (some price) none = false
take_misplaced buy (some price) (some t) = Decimal.le t price
take_misplaced sell (some price) (some t) = Decimal.le price t

unfoldable pub sanity_gate : Firewall → OrderIntent → Option RiskDecision
sanity_gate f intent =
    if leb_ℤ intent.lot_size.units (pos 0)
    then some (fail 1 bad_lot_size)
    else elim (from_symbol intent.symbol none) [
      | err _ ↦ some (fail 1 invalid_symbol)
      | ok pair ↦
          if not f.allow_live_capital && is_live_tag intent.client_tag
          then some (fail 1 live_capital_locked)
          else if needs_limit intent.order_type && not (is_positive_price intent.limit_price)
          then some (fail 1 bad_limit_price)
          else if stop_misplaced intent.side intent.limit_price intent.stop_loss
          then some (fail 1 bad_stop_loss)
          else if take_misplaced intent.side intent.limit_price intent.take_profit
          then some (fail 1 bad_take_profit)
          else none
    ]

-- Tier 2.

abbrev pub kill_query : Request → OrderIntent → KillQuery
kill_query r intent = record {
  tenant_id = r.tenant_id;
  broker_id = r.broker_id;
  symbol = some intent.symbol;
  strategy_id = r.strategy_id;
}

abbrev pub is_tripped : CircuitBreakerStatus → Bool
is_tripped st = st.is_safe_mode || st.is_daily_halted

-- Tier 3, of a quote that is there.
unfoldable pub latency_gate : Request → OrderIntent → MarketTelemetry → Option RiskDecision
latency_gate r intent t =
    let now = assume_utc r.current_time in
    if ltb max_clock_drift (abs_ℕ (elapsed now (assume_utc intent.timestamp)))
    then some (fail 3 clock_drift)
    else if ltb_ℤ (pos max_quote_age) (elapsed now (assume_utc t.quote_timestamp))
    then some (fail 3 stale_quote)
    else none

-- Tier 4: the refusal, or the sizing multiplier after the exposure check.

abbrev pub price_map : MarketTelemetry → Dict Decimal
price_map t = (t.symbol, t.bid) ∷ []

abbrev pub or_else : Option Decimal → Decimal → Decimal
or_else none d = d
or_else (some e) d = e

-- A gate stops with a decision or passes a value on.
pub data Gate (A : Type 0) : Type 0 where
  stop : RiskDecision → Gate A
  pass : A → Gate A

unfoldable pub apply_governor : OrderIntent → Decimal → GovernorDecision → Result (Gate Decimal)
apply_governor intent sizing d =
    if not d.approved
    then ok (stop (fail_zero 4 exposure_rejected))
    else if d.downsized
    then elim d.allowed_lots [
      | none ↦ ok (pass sizing)
      | some lots ↦ Decimal.div (of_int lots.units) (of_int intent.lot_size.units) >>= λ share.
          Decimal.quantize share 2 >>= λ ratio. ok (pass (Decimal.min sizing ratio))
    ]
    else ok (pass sizing)

unfoldable pub exposure_gate :
    Firewall → Request → OrderIntent → MarketTelemetry → Decimal → Result (Gate Decimal)
unfolding apply_governor
exposure_gate f r intent t sizing =
    if is_weekend (assume_utc r.current_time)
    then ok (stop (fail 4 market_closed))
    else elim r.open_positions [
      | none ↦ ok (pass sizing)
      | some positions ↦
          verdict f.exposure_governor
            (record {
              open_positions = positions;
              account_equity = or_else r.account_equity f.account_equity;
              current_prices = some (price_map t);
            })
            intent
          >>= apply_governor intent sizing
    ]

-- Tiers 5 and 6.

abbrev pub in_blackout : Request → Bool
in_blackout r = is_rollover (assume_utc r.current_time) && not r.is_carry_order

abbrev pub above_limit : CurrencyPair → Decimal → Bool
above_limit pair spread =
    is_member pair.symbol major_symbols && Decimal.lt major_spread_limit spread

abbrev pub above_median : Decimal → Decimal → Bool
above_median median spread =
    Decimal.lt (decimal (pos 0) 0) median
    && Decimal.lt (Decimal.mul median relative_spread_multiplier) spread

abbrev pub approval : Decimal → RiskDecision
approval sizing = record {
  approved = true;
  tier_failed = none;
  reason = approved_all;
  sizing_multiplier = sizing;
}

unfoldable pub spread_gate :
    Firewall → CurrencyPair → MarketTelemetry → Decimal → Result RiskDecision
spread_gate f pair t sizing = spread_pips t >>= λ spread.
    if above_limit pair spread
    then ok (fail 6 spread_above_limit)
    else (median_spread_pips f t >>= λ median.
        if above_median median spread
        then ok (fail 6 spread_above_median)
        else ok (approval sizing))

-- Tiers 3 to 6, after the circuit breaker has given its multiplier.
unfoldable pub market_tiers :
    Firewall → Request → OrderIntent → CurrencyPair → Decimal → Result RiskDecision
unfolding latency_gate exposure_gate spread_gate
market_tiers f r intent pair sizing = elim r.telemetry [
  | none ↦ ok (fail 3 missing_telemetry)
  | some t ↦ elim (latency_gate r intent t) [
    | some d ↦ ok d
    | none ↦ exposure_gate f r intent t sizing >>= λ gate. elim gate [
      | stop d ↦ ok d
      | pass sizing' ↦
          if in_blackout r then ok (fail 5 rollover_blackout) else spread_gate f pair t sizing'
    ]
  ]
]

-- The circuit breaker is brought up to date at its own equity, which stays written.
unfoldable pub breaker_tiers :
    Firewall
    → Request
    → OrderIntent
    → CurrencyPair
    → CircuitBreaker
    → Result RiskDecision × CircuitBreaker
unfolding market_tiers
breaker_tiers f r intent pair cb =
    let (status, cb') = update_equity cb.current_equity (assume_utc r.current_time) cb in
    (
      status >>= λ st.
          if is_tripped st
          then ok (fail_zero 2 breaker_triggered)
          else market_tiers f r intent pair st.sizing_multiplier,
      cb',
    )

-- `_run_tiers`
unfoldable pub run_tiers :
    Firewall
    → Request
    → OrderIntent
    → KillSwitch
    → CircuitBreaker
    → Result RiskDecision × CircuitBreaker
unfolding sanity_gate breaker_tiers
run_tiers f r intent ks cb = elim (sanity_gate f intent) [
  | some d ↦ (ok d, cb)
  | none ↦
      if (is_killed (kill_query r intent) ks).0
      then (ok (fail 2 kill_switch_active), cb)
      else elim (from_symbol intent.symbol none) [
        | err e ↦ (err e, cb)
        | ok pair ↦ breaker_tiers f r intent pair cb
      ]
]

-- Any exception in the tiers is a refusal at tier 0.
unfoldable pub evaluate_order :
    Firewall → Request → OrderIntent → KillSwitch → CircuitBreaker → RiskDecision × CircuitBreaker
unfolding run_tiers
evaluate_order f r intent ks cb =
    let (decision, cb') = run_tiers f r intent ks cb in
    (catch decision (λ _. fail_zero 0 unexpected_exception), cb')
