-- ===== src/Production/Kernel.antt =====
-- `RiskKernel` of forex_platform/production/execution.py. Its kill switch, circuit breaker and firewall
-- are those of the order management system, as forex_platform/production/runtime.py builds them. The
-- store of the daily results is an association list by day, and the news service is a parameter: whether
-- a symbol is blacked out at a time. Metrics are not modelled.
pub mod Gates
use forex_platform.Decimal
use forex_platform.Decimal.{Decimal, decimal}
use forex_platform.Domain.Orders.{OrderIntent}
use forex_platform.Domain.Position.{Position}
use forex_platform.Orders.Oms.State.{Oms}
use forex_platform.Risk.Breaker.{CircuitBreaker, CircuitBreakerStatus, update_equity}
use forex_platform.Risk.Firewall.{evaluate_order, kill_query, is_tripped}
use forex_platform.Risk.Quotes.{MarketTelemetry, Request, RiskDecision}
use forex_platform.Risk.KillSwitch.{is_killed}
use forex_platform.Prelude.{
  ℕ, ◌==◌, if◌then◌else◌, Bool, true, false, not, ◌&&◌, Option, none, some, List, [], ◌∷◌, ℤ, pos,
  ltb_ℤ, Text, Result, ok, err, ◌>>=◌,
}
use forex_platform.Time.{DateTime, date}

-- The settings that the kernel reads.
pub record Settings : Type 0 where
  pub account_equity : Decimal
  pub max_order_units : ℤ
  pub max_daily_loss_pct : Decimal
  pub news_enabled : Bool

pub record Kernel : Type 0 where
  pub settings : Settings
  pub daily_results : List (ℕ × Decimal)
  pub status : Option CircuitBreakerStatus
  pub has_news : Bool
  pub blackout_for : Text → DateTime → Bool

-- `payload.get("pnl", "0")` of the day
unfoldable pub result_of_day : ℕ → List (ℕ × Decimal) → Decimal
result_of_day day [] = decimal (pos 0) 0
result_of_day day ((d, pnl) ∷ rest) = if day == d then pnl else result_of_day day rest

unfoldable pub set_result : ℕ → Decimal → List (ℕ × Decimal) → List (ℕ × Decimal)
set_result day pnl [] = (day, pnl) ∷ []
set_result day pnl ((d, old) ∷ rest) =
    if day == d then (d, pnl) ∷ rest else (d, old) ∷ set_result day pnl rest

unfoldable pub daily_pnl : DateTime → Kernel → Decimal
unfolding result_of_day
daily_pnl at k = result_of_day (date at) k.daily_results

unfoldable pub record_realized_pnl : Decimal → DateTime → Kernel → Decimal × Kernel
unfolding daily_pnl set_result
record_realized_pnl pnl at k =
    let updated = Decimal.add (daily_pnl at k) pnl in
    (updated, record k { daily_results = set_result (date at) updated k.daily_results })

-- `update_equity`: the status of the circuit breaker is kept.
unfoldable pub feed_equity :
    Decimal
    → DateTime
    → Kernel
    → CircuitBreaker
    → Result CircuitBreakerStatus × Kernel × CircuitBreaker
feed_equity equity at k cb =
    let (outcome, cb') = update_equity equity at cb in
    elim outcome [
      | err e ↦ (err e, k, cb')
      | ok status ↦ (ok status, record k { status = some status }, cb')
    ]

pub data KernelReason : Type 0 where
  killed size_cap daily_loss halted news_blackout : KernelReason

-- A refusal of the kernel itself, or the decision of the firewall.
pub data KernelDecision : Type 0 where
  refused : KernelReason → KernelDecision
  judged : RiskDecision → KernelDecision

abbrev pub is_approved : KernelDecision → Bool
is_approved (refused why) = false
is_approved (judged d) = d.approved

-- `account_equity or self.settings.account_equity`: zero counts as absent.
abbrev pub equity_or_setting : Option Decimal → Decimal → Decimal
equity_or_setting none setting = setting
equity_or_setting (some e) setting = if Decimal.is_zero e then setting else e

abbrev pub is_halted : Option CircuitBreakerStatus → Bool
is_halted none = false
is_halted (some st) = is_tripped st

-- The daily loss limit is positive and reached.
abbrev pub limit_reached : Decimal → Decimal → Bool
limit_reached limit daily =
    Decimal.lt (decimal (pos 0) 0) limit && Decimal.le daily (Decimal.neg limit)

unfoldable pub loss_limit : Settings → Decimal → Result Decimal
loss_limit settings equity =
    Decimal.div (Decimal.mul equity settings.max_daily_loss_pct) (decimal (pos 100) 0)

abbrev pub in_news_blackout : Kernel → OrderIntent → Request → Bool
in_news_blackout k intent r =
    k.has_news
    && k.settings.news_enabled
    && not r.is_carry_order
    && k.blackout_for intent.symbol r.current_time

-- What the firewall is asked: the open positions of the system, and the equity that was settled on.
abbrev pub kernel_request : Kernel → Request → List Position → Request
kernel_request k r positions = record r {
  open_positions = some positions;
  account_equity = some (equity_or_setting r.account_equity k.settings.account_equity);
}

-- The checks of the kernel before the firewall: the first that refuses.
unfoldable pub kernel_refusal : Kernel → OrderIntent → Request → Oms → Result (Option KernelReason)
unfolding daily_pnl loss_limit
kernel_refusal k intent r s =
    if (is_killed (kill_query r intent) s.kill_switch).0
    then ok (some killed)
    else if ltb_ℤ k.settings.max_order_units intent.lot_size.units
    then ok (some size_cap)
    else (loss_limit k.settings (equity_or_setting r.account_equity k.settings.account_equity)
        >>= λ limit.
            if limit_reached limit (daily_pnl r.current_time k)
            then ok (some daily_loss)
            else if is_halted k.status
            then ok (some halted)
            else if in_news_blackout k intent r
            then ok (some news_blackout)
            else ok none)

-- `evaluate`, with the circuit breaker that the firewall brings up to date.
unfoldable pub evaluate :
    Kernel → OrderIntent → Request → List Position → Oms → Result KernelDecision × CircuitBreaker
unfolding kernel_refusal
evaluate k intent r positions s = elim (kernel_refusal k intent r s) [
  | err e ↦ (err e, s.circuit_breaker)
  | ok refusal ↦ elim refusal [
    | some why ↦ (ok (refused why), s.circuit_breaker)
    | none ↦
        let (decision, cb) =
          evaluate_order s.firewall (kernel_request k r positions) intent s.kill_switch
            s.circuit_breaker in
        (ok (judged decision), cb)
  ]
]
