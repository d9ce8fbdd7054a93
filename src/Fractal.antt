-- ===== src/Fractal.antt =====
-- forex_platform/fractal_engine/: the ladder of timeframes and what is read from the states of a market
-- on it.
pub mod Ladder
pub mod States
pub mod Requirements
pub mod Timeline
pub mod Graph
pub mod Consistency
pub mod Hypotheses
pub mod Structure
pub mod Processor
pub mod Streaming
