-- ===== src/Edge.antt =====
-- app/core/edge.py: fees, value, stake sizing, the walk up the order book, and the assembly of an
-- opportunity. app/core/clv.py is here too. A ValueError is `value_error`.
pub mod Types
pub mod Value
pub mod Ladder
pub mod Plan
pub mod Opportunity
mod Tests
