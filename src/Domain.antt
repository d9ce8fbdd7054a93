-- ===== src/Domain.antt =====
-- forex_platform/core/domain.py: the trading primitives. The arguments that the code accepts as
-- `Decimal | float | int | str` and passes through `to_decimal` are decimals here.
pub mod Kinds
pub mod Pair
pub mod Instruments
pub mod Lots
pub mod Pips
pub mod Orders
pub mod Position
