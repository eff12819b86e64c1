-- ===== src/Search.antt =====
-- What a search hit is worth: src/sot_graph/evidence.py.
pub mod Evidence
