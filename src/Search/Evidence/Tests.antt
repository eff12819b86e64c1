-- ===== src/Search/Evidence/Tests.antt =====
-- Hits as the search receives them. Confidence and coverage are hundredths.
use sotgraph.Prelude.{ℕ, ◌≡◌, refl, Bool, true, false, none, some, [], leb, ltb}
use sotgraph.Prelude.Text.{codes}
use sotgraph.Search.Evidence.{
  FreshnessStatus, RelevanceType, ResolutionStatus, AnchorFreshnessAxis, IdentityAxis,
  QueryRelevanceAxis, ScopeCompletenessAxis, LegacyVerdict, TrustEvidence, Hit,
  query_names_identity, derive_trust_axes, to_legacy_verdict, is_grounded,
}

abbrev evidence : TrustEvidence ℕ
evidence = record {
  freshness = FreshnessStatus.fresh;
  relevance = RelevanceType.file_token;
  resolution = ResolutionStatus.exact;
  confidence = 60;
  details = record {
    nopath = false;
    outside_root = false;
    oversized = false;
    binary = false;
    error = false;
    removed = false;
    rehomed = false;
  };
}

abbrev hit : Hit ℕ
hit = record {
  query = codes " Store.get ";
  same_identity_count = some 1;
  symbol = codes "get";
  label = [];
  fqn = codes "app.Store.get";
  query_token_coverage = none;
}

abbrev at_least : ℕ → ℕ → Bool
at_least c n = leb n c

hit-axes : derive_trust_axes (ltb 0) evidence hit ≡ record {
  anchor_freshness = AnchorFreshnessAxis.fresh;
  identity = IdentityAxis.unique;
  query_relevance = QueryRelevanceAxis.exact;
  scope_completeness = ScopeCompletenessAxis.unknown;
}
unfolding derive_trust_axes query_names_identity
hit-axes = refl

hit-strong : to_legacy_verdict at_least evidence ≡ LegacyVerdict.strong
unfolding to_legacy_verdict
hit-strong = refl

hit-grounded : is_grounded at_least evidence ≡ true
unfolding is_grounded
hit-grounded = refl
