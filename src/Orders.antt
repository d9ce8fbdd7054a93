-- ===== src/Orders.antt =====
-- forex_platform/order_management: the order state machine, the router and the order management
-- system.
pub mod Lifecycle
pub mod Router
pub mod Oms
