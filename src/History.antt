-- ===== src/History.antt =====
-- What the commit history shows: src/sot_graph/outcome.py.
pub mod Subject
pub mod Commit
pub mod Hunks
pub mod Outcome
mod Tests
