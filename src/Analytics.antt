-- ===== src/Analytics.antt =====
-- src/sot_graph/analytics: the graph in memory and what is computed on it.
pub mod Graph
