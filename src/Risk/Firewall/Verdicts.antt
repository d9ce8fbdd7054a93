-- ===== src/Risk/Firewall/Verdicts.antt =====
-- What a kill switch refuses.
use forex_platform.Domain.Orders.{OrderIntent}
use forex_platform.Risk.Breaker.{CircuitBreaker}
use forex_platform.Risk.KillSwitch.{KillSwitch, is_killed}
use forex_platform.Risk.Firewall.{sanity_gate, run_tiers, evaluate_order, kill_query}
use forex_platform.Risk.Quotes.{Firewall, Request, fail, kill_switch_active}
use forex_platform.Prelude.{true, none, ◌≡◌, arith}

-- A sane order under an active kill switch is refused at tier 2, and the circuit breaker is left
-- alone.
pub evaluate_order_killed :
    (f : Firewall) (r : Request) (intent : OrderIntent) (ks : KillSwitch) (cb : CircuitBreaker)
    → sanity_gate f intent ≡ none
    → (is_killed (kill_query r intent) ks).0 ≡ true
    → evaluate_order f r intent ks cb ≡ (fail 2 kill_switch_active, cb)
unfolding evaluate_order run_tiers
evaluate_order_killed f r intent ks cb sane killed = ground arith
