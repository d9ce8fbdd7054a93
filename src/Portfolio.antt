-- ===== src/Portfolio.antt =====
-- forex_platform/portfolio_engine: the currency exposure matrix and the exposure governor.
pub mod Rates
pub mod Exposure
pub mod Downsize
pub mod Governor
pub mod Targets
