-- ===== src/Risk/Firewall/Gates.antt =====
-- What an approval of the firewall certifies.
use forex_platform.Risk.Firewall.Conditions.{
  IsSane, Tight, IsWeighed, sanity_gate-IsSane, spread_gate-Tight,
}
use forex_platform.Decimal.{Decimal}
use forex_platform.Domain.Orders.{OrderIntent}
use forex_platform.Domain.Pair.{CurrencyPair, from_symbol}
use forex_platform.Risk.Breaker.{CircuitBreaker, CircuitBreakerStatus, update_equity}
use forex_platform.Risk.KillSwitch.{KillSwitch, is_killed}
use forex_platform.Risk.Firewall.{
  sanity_gate, latency_gate, exposure_gate, market_tiers, breaker_tiers, run_tiers, evaluate_order,
  kill_query, is_tripped, in_blackout, Gate, stop, pass, apply_governor, or_else, price_map,
}
use forex_platform.Risk.Quotes.{
  Firewall, Request, MarketTelemetry, RiskDecision, max_clock_drift, max_quote_age,
}
use forex_platform.Sessions.{is_rollover, is_weekend}
use forex_platform.Time.{assume_utc, elapsed}
use forex_platform.Portfolio.Governor.{Governor, GovernorDecision, Portfolio, evaluate_intent}
use forex_platform.Portfolio.Governor.Verdict.{
  Approval, evaluate_intent_sound, evaluate_intent_total, verdict,
}
use forex_platform.Domain.Position.{Position}
use forex_platform.Prelude.{
  List, Option, value_of-some, >>=-eq-ok, ◌>>=◌, ◌∙◌, ap, Bool-cases, Result, true, false, none,
  some, pos, abs_ℕ, ok, ◌≡◌, ◌⊎◌, refl, arith, inl, inr, Option-cases, Result-cases, ◌≤◌, ◌≤ℤ◌,
}

sanity_gate-approved :
    (f : Firewall) (intent : OrderIntent) (d : RiskDecision)
    → sanity_gate f intent ≡ some d
    → d.approved ≡ false
unfolding sanity_gate
sanity_gate-approved f intent d e = ground arith

-- Tiers 3 to 6 of an order, in the market that the telemetry shows.
pub record IsTimely (f : Firewall) (r : Request) (intent : OrderIntent) (pair : CurrencyPair)
    (t : MarketTelemetry) : Type 0 where
  pub seen : r.telemetry ≡ some t
  pub prompt :
      abs_ℕ (elapsed (assume_utc r.current_time) (assume_utc intent.timestamp)) ≤ max_clock_drift
  pub fresh :
      elapsed (assume_utc r.current_time) (assume_utc t.quote_timestamp) ≤ℤ pos max_quote_age
  pub trading : is_weekend (assume_utc r.current_time) ≡ false
  pub weighed : IsWeighed f r.open_positions r.account_equity t intent
  pub calm : (is_rollover (assume_utc r.current_time) ≡ false) ⊎ (r.is_carry_order ≡ true)
  pub tight : Tight f pair t

latency_gate-none :
    (r : Request) (intent : OrderIntent) (t : MarketTelemetry)
    → latency_gate r intent t ≡ none
    → (abs_ℕ (elapsed (assume_utc r.current_time) (assume_utc intent.timestamp)) ≤ max_clock_drift)
      × (elapsed (assume_utc r.current_time) (assume_utc t.quote_timestamp) ≤ℤ pos max_quote_age)
unfolding latency_gate
latency_gate-none r intent t e = (ground arith, ground arith)

latency_gate-approved :
    (r : Request) (intent : OrderIntent) (t : MarketTelemetry) (d : RiskDecision)
    → latency_gate r intent t ≡ some d
    → d.approved ≡ false
unfolding latency_gate
latency_gate-approved r intent t d e = ground arith

exposure_gate-stop :
    (f : Firewall) (r : Request) (intent : OrderIntent) (t : MarketTelemetry) (sizing : Decimal)
    (d : RiskDecision)
    → exposure_gate f r intent t sizing ≡ ok (stop d)
    → d.approved ≡ false
unfolding exposure_gate
exposure_gate-stop f r intent t sizing d e = ground arith

verdict-evaluate_intent :
    (g : Governor) (p : Portfolio) (intent : OrderIntent) (d : GovernorDecision)
    → verdict g p intent ≡ ok d
    → evaluate_intent g p intent ≡ some (ok d)
unfolding verdict
verdict-evaluate_intent g p intent d e =
    value_of-some (evaluate_intent g p intent) (evaluate_intent_total g p intent)
    ∙ ap (λ (r : Result GovernorDecision). some r) e

apply_governor-pass :
    (intent : OrderIntent) (sizing s : Decimal) (d : GovernorDecision)
    → apply_governor intent sizing d ≡ ok (pass s)
    → d.approved ≡ true
unfolding apply_governor
apply_governor-pass intent sizing s d e = ground arith

weighed :
    (f : Firewall) (intent : OrderIntent) (sizing s : Decimal) (p : Portfolio)
    → (verdict f.exposure_governor p intent >>= apply_governor intent sizing) ≡ ok (pass s)
    → (d : GovernorDecision) × (evaluate_intent f.exposure_governor p intent ≡ some (ok d))
      × (d.approved ≡ true)
      × Approval f.exposure_governor p intent d
weighed f intent sizing s p e =
    let (d, judged, applied) = >>=-eq-ok (verdict f.exposure_governor p intent) _ e in
    let made = verdict-evaluate_intent f.exposure_governor p intent d judged in
    let approved = apply_governor-pass intent sizing s d applied in
    (d, made, approved, evaluate_intent_sound f.exposure_governor p intent d made approved)

positions-IsWeighed :
    (f : Firewall) (positions : Option (List Position)) (equity : Option Decimal)
    (intent : OrderIntent) (t : MarketTelemetry) (sizing s : Decimal)
    → elim positions [
      | none ↦ ok (pass sizing)
      | some ps ↦
          verdict f.exposure_governor
            (record {
              open_positions = ps;
              account_equity = or_else equity f.account_equity;
              current_prices = some (price_map t);
            })
            intent
          >>= apply_governor intent sizing
    ]
      ≡ ok (pass s)
    → IsWeighed f positions equity t intent
positions-IsWeighed f none equity intent t sizing s e = tt
positions-IsWeighed f (some ps) none intent t sizing s e = weighed f intent sizing s _ e
positions-IsWeighed f (some ps) (some equity) intent t sizing s e = weighed f intent sizing s _ e

exposure_gate-IsWeighed :
    (f : Firewall) (r : Request) (intent : OrderIntent) (t : MarketTelemetry) (sizing s : Decimal)
    → exposure_gate f r intent t sizing ≡ ok (pass s)
    → IsWeighed f r.open_positions r.account_equity t intent
unfolding exposure_gate
exposure_gate-IsWeighed f r intent t sizing s e =
    elim (Bool-cases (is_weekend (assume_utc r.current_time))) [
      | inl closed ↦ absurd (ground arith)
      | inr trading ↦
          positions-IsWeighed f r.open_positions r.account_equity intent t sizing s
            (rw trading at e)
    ]

exposure_gate-cases :
    (f : Firewall) (r : Request) (intent : OrderIntent) (t : MarketTelemetry) (sizing : Decimal)
    (g : Gate Decimal)
    → exposure_gate f r intent t sizing ≡ ok g
    → ((d : RiskDecision) × (g ≡ stop d) × (d.approved ≡ false))
      ⊎ ((sizing' : Decimal) × (g ≡ pass sizing')
          × (is_weekend (assume_utc r.current_time) ≡ false)
          × IsWeighed f r.open_positions r.account_equity t intent)
unfolding exposure_gate
exposure_gate-cases f r intent t sizing (stop d) e =
    inl (d, refl, exposure_gate-stop f r intent t sizing d e)
exposure_gate-cases f r intent t sizing (pass s) e =
    inr (s, refl, ground arith, exposure_gate-IsWeighed f r intent t sizing s e)

market_tiers-IsTimely :
    (f : Firewall) (r : Request) (intent : OrderIntent) (pair : CurrencyPair) (sizing : Decimal)
    (d : RiskDecision)
    → market_tiers f r intent pair sizing ≡ ok d
    → d.approved ≡ true
    → (t : MarketTelemetry) × IsTimely f r intent pair t
unfolding market_tiers
market_tiers-IsTimely f r intent pair sizing d e passed = elim (Option-cases r.telemetry) [
  | inl missing ↦ absurd (ground arith)
  | inr (t, seen) ↦ elim (Option-cases (latency_gate r intent t)) [
    | inr (late, is_late) ↦ absurd (ground (arith, latency_gate-approved r intent t late is_late))
    | inl prompt ↦ elim (Result-cases (exposure_gate f r intent t sizing)) [
      | inr (x, raised) ↦ absurd (ground arith)
      | inl (g, is_gate) ↦ elim (exposure_gate-cases f r intent t sizing g is_gate) [
        | inl (refusal, stops, refused) ↦ absurd (ground arith)
        | inr (sizing', passes, trading, weighs) ↦
            let calm : in_blackout r ≡ false = ground arith in
            let late = latency_gate-none r intent t prompt in
            (
              t,
              record {
                seen = seen;
                prompt = late.0;
                fresh = late.1;
                trading = trading;
                weighed = weighs;
                calm = ground arith;
                tight = spread_gate-Tight f pair t sizing' d (ground arith) passed;
              },
            )
      ]
    ]
  ]
]

-- All that an approval certifies.
pub record Cleared (f : Firewall) (r : Request) (intent : OrderIntent) (ks : KillSwitch)
    (cb : CircuitBreaker) : Type 0 where
  pub pair : CurrencyPair
  pub t : MarketTelemetry
  pub status : CircuitBreakerStatus
  pub sane : IsSane f intent
  pub named : from_symbol intent.symbol none ≡ ok pair
  pub alive :
      (is_killed
        (record {
          tenant_id = r.tenant_id;
          broker_id = r.broker_id;
          symbol = some intent.symbol;
          strategy_id = r.strategy_id;
        })
        ks).0
      ≡ false
  pub updated : (update_equity cb.current_equity (assume_utc r.current_time) cb).0 ≡ ok status
  pub untripped : (status.is_safe_mode ≡ false) × (status.is_daily_halted ≡ false)
  pub timely : IsTimely f r intent pair t

breaker_tiers-cases :
    (f : Firewall) (r : Request) (intent : OrderIntent) (pair : CurrencyPair) (cb : CircuitBreaker)
    (d : RiskDecision)
    → (breaker_tiers f r intent pair cb).0 ≡ ok d
    → d.approved ≡ true
    → (st : CircuitBreakerStatus) × ((update_equity cb.current_equity
          (assume_utc r.current_time)
          cb).0
        ≡ ok st)
      × (is_tripped st ≡ false)
      × (market_tiers f r intent pair st.sizing_multiplier ≡ ok d)
unfolding breaker_tiers
breaker_tiers-cases f r intent pair cb d e passed =
    elim (Result-cases (update_equity cb.current_equity (assume_utc r.current_time) cb).0) [
      | inr (x, raised) ↦ absurd (ground arith)
      | inl (st, is_st) ↦ (st, is_st, ground arith, ground arith)
    ]

-- An approved order has passed every gate: it is sane (tier 1), no kill switch covers it and the circuit
-- breaker is not tripped (tier 2), its telemetry is there, its clock drift is at most 200 ms and its quote
-- at most 1000 ms old (tier 3), the market is not closed for the weekend and, when open positions are given,
-- the exposure governor has approved it in their portfolio (tier 4), it is outside the rollover window or a
-- carry order (tier 5), and its spread is within both limits (tier 6).
pub evaluate_order_approved :
    (f : Firewall) (r : Request) (intent : OrderIntent) (ks : KillSwitch) (cb : CircuitBreaker)
    → (evaluate_order f r intent ks cb).0.approved ≡ true
    → Cleared f r intent ks cb
unfolding evaluate_order run_tiers
evaluate_order_approved f r intent ks cb passed = elim (Option-cases (sanity_gate f intent)) [
  | inr (d, refused) ↦ absurd (ground (arith, sanity_gate-approved f intent d refused))
  | inl sane ↦ elim (Result-cases (from_symbol intent.symbol none)) [
    | inr (x, raised) ↦ absurd (ground arith)
    | inl (pair, named) ↦
        let alive : (is_killed (kill_query r intent) ks).0 ≡ false = ground arith in
        elim (Result-cases (breaker_tiers f r intent pair cb).0) [
          | inr (x, raised) ↦ absurd (ground arith)
          | inl (d, decided) ↦
              let approved : d.approved ≡ true = ground arith in
              let (st, updated, untripped, market) =
                breaker_tiers-cases f r intent pair cb d decided approved in
              let (t, timely) =
                market_tiers-IsTimely f r intent pair st.sizing_multiplier d market approved in
              record {
                pair = pair;
                t = t;
                status = st;
                sane = sanity_gate-IsSane f intent sane;
                named = named;
                alive = alive;
                updated = updated;
                untripped = (ground arith, ground arith);
                timely = timely;
              }
        ]
  ]
]
