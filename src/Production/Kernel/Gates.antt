-- ===== src/Production/Kernel/Gates.antt =====
-- What an approval of the kernel certifies.
use forex_platform.Decimal
use forex_platform.Decimal.{Decimal, decimal}
use forex_platform.Domain.Orders.{OrderIntent}
use forex_platform.Domain.Position.{Position}
use forex_platform.Orders.Oms.State.{Oms}
use forex_platform.Production.Kernel.{
  Kernel, KernelDecision, is_approved, kernel_refusal, kernel_request, evaluate, loss_limit,
  is_halted, equity_or_setting, daily_pnl, result_of_day, set_result, record_realized_pnl,
}
use forex_platform.Risk.Quotes.{Request}
use forex_platform.Risk.Firewall.Gates.{Cleared, evaluate_order_approved}
use forex_platform.Risk.Breaker.{CircuitBreakerStatus}
use forex_platform.Prelude.{
  Option, some, pos, ◌⊎◌, ℕ, ◌==◌, true, false, none, List, [], ◌∷◌, if◌then◌else◌, ◌≤ℤ◌, ok, ◌≡◌,
  refl, Option-cases, Result-cases, inl, inr, arith,
}
use forex_platform.Time.{DateTime, date}

-- No circuit breaker status is known, or one that halts nothing.
abbrev pub IsRunning : Option CircuitBreakerStatus → Type 0
IsRunning none = Unit
IsRunning (some st) = (st.is_safe_mode ≡ false) × (st.is_daily_halted ≡ false)

-- The size of the order is within the cap, the daily loss is above its limit or there is no limit, no halt is
-- known, no news blackout holds, and the firewall has cleared it with these open positions and the equity
-- that was settled on.
pub record Admitted (k : Kernel) (intent : OrderIntent) (r : Request) (positions : List Position)
    (s : Oms) : Type 0 where
  pub capped : intent.lot_size.units ≤ℤ k.settings.max_order_units
  pub affordable :
      (limit : Decimal) × (Decimal.div
          (Decimal.mul
            (equity_or_setting r.account_equity k.settings.account_equity)
            k.settings.max_daily_loss_pct)
          (decimal (pos 100) 0)
        ≡ ok limit)
      × ((Decimal.lt (decimal (pos 0) 0) limit ≡ false)
          ⊎ (Decimal.lt (Decimal.neg limit) (daily_pnl r.current_time k) ≡ true))
  pub running : IsRunning k.status
  pub quiet :
      (k.has_news ≡ false)
      ⊎ (k.settings.news_enabled ≡ false)
      ⊎ (r.is_carry_order ≡ true)
      ⊎ (k.blackout_for intent.symbol r.current_time ≡ false)
  pub cleared :
      Cleared s.firewall
        (record r {
          open_positions = some positions;
          account_equity = some (equity_or_setting r.account_equity k.settings.account_equity);
        })
        intent
        s.kill_switch
        s.circuit_breaker

record Passed (k : Kernel) (intent : OrderIntent) (r : Request) : Type 0 where
  capped : intent.lot_size.units ≤ℤ k.settings.max_order_units
  affordable :
      (limit : Decimal) × (loss_limit k.settings
          (equity_or_setting r.account_equity k.settings.account_equity)
        ≡ ok limit)
      × ((Decimal.lt (decimal (pos 0) 0) limit ≡ false)
          ⊎ (Decimal.lt (Decimal.neg limit) (daily_pnl r.current_time k) ≡ true))
  running : IsRunning k.status
  quiet :
      (k.has_news ≡ false)
      ⊎ (k.settings.news_enabled ≡ false)
      ⊎ (r.is_carry_order ≡ true)
      ⊎ (k.blackout_for intent.symbol r.current_time ≡ false)

is_halted-IsRunning : (o : Option CircuitBreakerStatus) → is_halted o ≡ false → IsRunning o
is_halted-IsRunning none e = tt
is_halted-IsRunning (some st) e = (ground arith, ground arith)

kernel_refusal-none :
    (k : Kernel) (intent : OrderIntent) (r : Request) (s : Oms)
    → kernel_refusal k intent r s ≡ ok none
    → Passed k intent r
unfolding kernel_refusal
kernel_refusal-none k intent r s e =
    elim (Result-cases
      (loss_limit k.settings (equity_or_setting r.account_equity k.settings.account_equity))) [
        | inr (x, raised) ↦ absurd (ground arith)
        | inl (limit, is_limit) ↦ record {
          capped = ground arith;
          affordable = (limit, is_limit, ground arith);
          running = is_halted-IsRunning k.status (ground arith);
          quiet = ground arith;
        }
      ]

-- An order that the kernel approves is within the size cap, the result of the day is above the daily loss limit
-- or that limit is not positive, no halt of the circuit breaker is known, no news blackout holds for it, and it
-- has passed every gate of the firewall, the exposure governor included, with the open positions and the
-- equity that the kernel settled on.
pub evaluate_approved :
    (k : Kernel) (intent : OrderIntent) (r : Request) (positions : List Position) (s : Oms)
    (d : KernelDecision)
    → (evaluate k intent r positions s).0 ≡ ok d
    → is_approved d ≡ true
    → Admitted k intent r positions s
unfolding evaluate
evaluate_approved k intent r positions s d e passed =
    elim (Result-cases (kernel_refusal k intent r s)) [
      | inr (x, raised) ↦ absurd (ground arith)
      | inl (refusal, is_refusal) ↦ elim (Option-cases refusal) [
        | inr (why, refuses) ↦ absurd (ground arith)
        | inl passes ↦
            let p = kernel_refusal-none k intent r s (ground arith) in
            record {
              capped = p.capped;
              affordable = (unfold loss_limit in p.affordable);
              running = p.running;
              quiet = p.quiet;
              cleared =
                  evaluate_order_approved s.firewall (kernel_request k r positions) intent
                    s.kill_switch s.circuit_breaker (ground arith);
            }
      ]
    ]

result_of_day-set :
    (day other : ℕ) (pnl : Decimal) (rs : List (ℕ × Decimal))
    → result_of_day other (set_result day pnl rs)
      ≡ (if other == day then pnl else result_of_day other rs)
unfolding result_of_day set_result
result_of_day-set day other pnl [] = refl
result_of_day-set day other pnl ((d, old) ∷ rs) = ground (arith, result_of_day-set day other pnl rs)

-- A recorded result is what the day is read back as, on top of what it had, and no other day changes.
pub record_realized_pnl-daily_pnl :
    (pnl : Decimal) (at other : DateTime) (k : Kernel)
    → let (updated, k') = record_realized_pnl pnl at k in
      (daily_pnl at k' ≡ updated)
      × (daily_pnl other k'
          ≡ (if date other == date at then Decimal.add (daily_pnl at k) pnl else daily_pnl other k))
unfolding record_realized_pnl daily_pnl
record_realized_pnl-daily_pnl pnl at other k =
    let updated = Decimal.add (daily_pnl at k) pnl in
    let stored = λ (day : ℕ). result_of_day-set (date at) day updated k.daily_results in
    (ground (arith, stored (date at)), stored (date other))
