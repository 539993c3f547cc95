-- ===== src/Bets.antt =====
-- The bet ledger of app/services/bets.py: `Bets/Ledger` its rows, `Bets/Settle` and `Bets/Create` the
-- operations that write it, `Bets/Summary` the totals.
pub mod Ledger
pub mod Settle
pub mod Create
pub mod Summary
pub mod Reach
mod Tests
