-- ===== src/Backtest.antt =====
-- app/services/backtest.py: the harvest of resolved markets and the grading of their closing prices.
pub mod Sample
pub mod Close
pub mod Fetch
pub mod Harvest
pub mod Report
mod Tests
