-- ===== src/Search/Evidence/Axes.antt =====
-- The four axes of src/sot_graph/evidence.py.
use sotgraph.Prelude.{◌≡◌, ◌≢◌, ◌↔◌, ◌⊎◌, Bool, true, false, ◌||◌, none, some, arith, nonempty}
use sotgraph.Prelude.Text.{strip}
use sotgraph.Search.Evidence.{
  FreshnessStatus, AnchorFreshnessAxis, IdentityAxis, QueryRelevanceAxis, TrustEvidence, Hit,
  unmeasurable, query_names_identity, identity_name, derive_trust_axes,
}

module _ {F : Type 0} (positive : F → Bool) (e : TrustEvidence F) (h : Hit F) where
  -- An anchor is reported fresh exactly when the verifier measured the file as fresh and the node
  -- was not removed from the graph.
  pub axes-fresh_iff :
      ((derive_trust_axes positive e h).anchor_freshness ≡ AnchorFreshnessAxis.fresh)
      ↔ ((e.freshness ≡ FreshnessStatus.fresh) × (e.details.removed ≡ false))
  unfolding derive_trust_axes
  axes-fresh_iff = (λ k. ground arith, λ k. ground arith)

  -- A relevance is claimed exactly when the anchor was measurable and either the query names the
  -- hit or its token coverage was measured.
  pub axes-relevance_iff :
      ((derive_trust_axes positive e h).query_relevance ≢ QueryRelevanceAxis.unknown) ↔ (
        (unmeasurable e.details ≡ false)
        × ((query_names_identity h.query (identity_name h) h.fqn ≡ true)
            ⊎ (h.query_token_coverage ≢ none)))
  unfolding derive_trust_axes
  axes-relevance_iff = (λ k. ground arith, λ k. ground arith)

  -- A hit is unique exactly when it has an indexed name that was counted once.
  pub axes-unique_iff : ((derive_trust_axes positive e h).identity ≡ IdentityAxis.unique) ↔ (
      (h.same_identity_count ≡ some 1)
      × ((nonempty (identity_name h) || nonempty (strip h.fqn)) ≡ true))
  unfolding derive_trust_axes
  axes-unique_iff = (λ k. ground arith, λ k. ground arith)
