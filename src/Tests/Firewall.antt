-- ===== src/Tests/Firewall.antt =====
-- Examples for forex_platform/risk_engine/firewall.py.
use forex_platform.Risk.Breaker.{change_pct, roll_day, mark, evaluate, update_equity}
use forex_platform.Sessions.{ensure_utc, is_rollover, is_weekend}
use forex_platform.Time.{instant, elapsed, time_of_day, weekday, date, to_utc, assume_utc}
use forex_platform.Domain.Pair.{to_pips, pair_of_code, from_symbol}
use forex_platform.Decimal
use forex_platform.Decimal.{decimal}
use forex_platform.Prelude.{
  is_member, ◌-ℤ◌, ◌+ℤ◌, insert, lookup, starts_with, has_substring, remove_char, to_upper, upper,
  is_space, lstrip, strip, clean_symbol, ◌≡◌, text_eq, true, refl,
}
use forex_platform.Tests.Data.{firewall, request, small, breaker}
use forex_platform.Risk.KillSwitch
use forex_platform.Risk.KillSwitch.{KillSwitch, is_killed}
use forex_platform.Risk.Firewall.{
  spread_gate, exposure_gate, latency_gate, sanity_gate, market_tiers, breaker_tiers, run_tiers,
  evaluate_order,
}
use forex_platform.Risk.Quotes.{median_spread_pips, spread_pips}
use forex_platform.Risk.Firewall.Gates.{Cleared, evaluate_order_approved}

small_approved : (evaluate_order firewall request small KillSwitch.new breaker).0.approved ≡ true
unfolding Decimal.add Decimal.sub Decimal.mul Decimal.neg Decimal.abs Decimal.div Decimal.quantize
    Decimal.lt text_eq clean_symbol strip lstrip is_space upper to_upper remove_char has_substring
    starts_with lookup insert ◌+ℤ◌ ◌-ℤ◌ from_symbol pair_of_code to_pips assume_utc to_utc date
    weekday time_of_day elapsed instant evaluate_order run_tiers breaker_tiers market_tiers
    sanity_gate latency_gate exposure_gate spread_gate spread_pips median_spread_pips is_member
    is_weekend is_rollover ensure_utc is_killed update_equity evaluate mark roll_day change_pct
small_approved = refl

evaluate_order_approved_example : Cleared firewall request small KillSwitch.new breaker
evaluate_order_approved_example =
    evaluate_order_approved firewall request small KillSwitch.new breaker small_approved
