-- ===== src/Odds.antt =====
-- app/core/odds_math.py: odds conversions, the de-vig methods, the bisection that two of them use,
-- and the weighted consensus over bookmakers. A ValueError is `value_error`.
pub mod Convert
pub mod Bisect
pub mod Devig
pub mod Consensus
mod Tests
