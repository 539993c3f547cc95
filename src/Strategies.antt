-- ===== src/Strategies.antt =====
-- The bake-off of app/services/strategies.py: the rules, their scores, the shuffled results, the
-- holdout and the whole run.
pub mod Rules
pub mod Score
pub mod Null
pub mod Split
pub mod Run
mod Tests
