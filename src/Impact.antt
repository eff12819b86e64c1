-- ===== src/Impact.antt =====
-- What a change touches: src/sot_graph/diff_impact.py.
pub mod Summary
pub mod Risk
pub mod Mapper
pub mod Callers
pub mod Diff
pub mod Engine
mod Tests
