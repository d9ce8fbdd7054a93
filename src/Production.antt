-- ===== src/Production.antt =====
-- forex_platform/production: the path from an approved intent to the broker.
pub mod Kernel
pub mod Service
pub mod Allocation
pub mod Positions
pub mod LiveGate
pub mod Brokers
