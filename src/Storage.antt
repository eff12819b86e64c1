-- ===== src/Storage.antt =====
-- What stands between the program and its store: src/sot_graph/locking.py and
-- src/sot_graph/freshness.py.
pub mod Lock
pub mod Freshness
