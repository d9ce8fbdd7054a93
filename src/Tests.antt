-- ===== src/Tests.antt =====
-- Examples at concrete values.
pub mod Data
mod Sessions
mod Switches
mod Breaker
mod Firewall
mod Margin
mod Portfolio
mod Orders
mod Oms
mod Targets
mod Reconciliation
mod Production
mod LiveGate
mod Brokers
mod Costs
mod Fractal
mod Bars
