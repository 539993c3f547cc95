-- ===== src/Matching.antt =====
-- app/core/matching.py: which bookmaker game a market is about, and the fair probability that the
-- bookmakers give one of its outcomes.
pub mod Match
pub mod Names
pub mod Fair
mod Tests
