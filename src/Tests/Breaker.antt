-- ===== src/Tests/Breaker.antt =====
-- Examples for forex_platform/risk_engine/circuit_breakers.py.
use forex_platform.Decimal
use forex_platform.Decimal.{Decimal, decimal}
use forex_platform.Risk.Breaker.{CircuitBreaker, CircuitBreakerStatus, update_equity}
use forex_platform.Risk.Breaker.Status.{run_updates, update_equity_total, safe_mode_sticky}
use forex_platform.Prelude.{true, List, [], ◌∷◌, pos, ok, ◌≡◌, ◌<◌, ◌≤◌, refl, arith}
use forex_platform.Tests.Data.{equity, breaker, noon, at}
use forex_platform.Time.{DateTime, date, assume_utc}

-- Half of the equity is lost.
abbrev low : Decimal
low = decimal (pos 500000) 2

abbrev updates : List (Decimal × DateTime)
updates = (low, noon) ∷ (decimal (pos 1200000) 2, at 737999 9 0) ∷ []

abbrev tripped : CircuitBreaker
tripped = record breaker { safe_mode = true; daily_halted = true }

abbrev recovered :
    (st : CircuitBreakerStatus) × ((update_equity equity noon (run_updates updates tripped)).0
      ≡ ok st)
recovered = update_equity_total equity noon (run_updates updates tripped)

safe_mode_sticky_example :
    (recovered.0.is_safe_mode ≡ true) × (recovered.0.sizing_multiplier ≡ decimal (pos 0) 1)
safe_mode_sticky_example = safe_mode_sticky updates tripped equity noon refl recovered.1

abbrev after_loss : (st : CircuitBreakerStatus) × ((update_equity low noon breaker).0 ≡ ok st)
after_loss = update_equity_total low noon breaker

next_day : tripped.current_trading_date < date (assume_utc (at 737999 9 0))
unfolding date assume_utc
next_day = omega arith

low_positive : Decimal.lt (decimal (pos 0) 0) low ≡ true
unfolding Decimal.lt
low_positive = refl

same_day : date (assume_utc noon) ≤ tripped.current_trading_date
unfolding date assume_utc
same_day = omega arith
