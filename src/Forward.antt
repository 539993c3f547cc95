-- ===== src/Forward.antt =====
-- The forward test of app/services/forward.py: samples are recorded, graded and reported.
pub mod Record
pub mod Grade
pub mod Closing
pub mod Report
mod Tests
