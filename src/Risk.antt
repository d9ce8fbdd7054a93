-- ===== src/Risk.antt =====
-- forex_platform/risk_engine: the kill switches, the circuit breaker, the pre-trade firewall and the margin checks.
pub mod KillSwitch
pub mod Breaker
pub mod Quotes
pub mod Firewall
pub mod Margin
pub mod Integrated
