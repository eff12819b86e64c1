-- ===== src/Providers.antt =====
-- src/sot_graph/providers: what is known of the external providers.
pub mod Compatibility
pub mod Artifacts
