-- ===== src/Search/Evidence/Legacy.antt =====
-- The legacy verdict of src/sot_graph/evidence.py.
use sotgraph.Prelude.{ℕ, ◌≡◌, ◌↔◌, Bool, true, false, arith, if◌then◌else◌}
use sotgraph.Search.Evidence.{
  FreshnessStatus, LegacyVerdict, TrustEvidence, is_exact, to_legacy_verdict,
}

module _ {F : Type 0} (at_least : F → ℕ → Bool) (e : TrustEvidence F) where
  abbrev pub threshold : ℕ
  threshold = if is_exact e.relevance then 70 else 50

  -- STRONG exactly for a fresh anchor with a path, neither removed nor rehomed, whose confidence
  -- reaches the threshold of its relevance.
  pub legacy-strong_iff : (to_legacy_verdict at_least e ≡ LegacyVerdict.strong) ↔ (
      (e.details.nopath ≡ false)
      × (e.details.removed ≡ false)
      × (e.details.rehomed ≡ false)
      × (e.freshness ≡ FreshnessStatus.fresh)
      × (at_least e.confidence threshold ≡ true))
  unfolding to_legacy_verdict
  legacy-strong_iff = (λ k. ground arith, λ k. ground arith)
