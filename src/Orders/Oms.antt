-- ===== src/Orders/Oms.antt =====
-- `OrderManagementSystem` of forex_platform/order_management/oms.py. The firewall and the system
-- are given one kill switch, as wherever the platform builds them. A method returns its result or
-- its exception, beside the state, in which what it wrote before stays.
pub mod State
pub mod Submission
pub mod Filling
pub mod Valuation
pub mod Calls
pub mod Accounts
pub mod Safety
