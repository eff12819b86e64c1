-- ===== src/Assurance/State/Tests.antt =====
-- Decisions at concrete facts. Fractions are hundredths.
use sotgraph.Prelude.{ℕ, ◌≤◌, ◌≡◌, refl, true, false, some, [], ◌∷◌, arith, ltb}
use sotgraph.Assurance.State.{
  assured_within_scope, stale, severity, unique, absence, truncation, stale_sources,
  coverage_below_floor, AssuranceFacts, decide,
}
use sotgraph.Assurance.State.Spec.{ranked, decide-eq-ranked}
use sotgraph.Assurance.State.Monotone.{Worse, decide_mono}

abbrev clean : AssuranceFacts ℕ
clean = record {
  identity_status = unique;
  snapshot_bound = true;
  collection_error = false;
  stale_files = [];
  coverage_measured = true;
  coverage_fraction = some 95;
  coverage_floor = 90;
  parser_failures = 0;
  unresolved_count = 0;
  unresolved_budget = 0;
  open_conflicts = 0;
  truncated = false;
  truncation_sources = [];
  enumeration_complete = some true;
  parser_capability_complete = some true;
  partial_ast_present = false;
  provider_capability_ok = true;
  absence_claim = true;
  gate_blocked = false;
  dynamic_dispatch_unresolved = false;
  partial_targets = 0;
  claim_profile = absence;
}

abbrev poor : AssuranceFacts ℕ
poor = record clean {
  stale_files = "a.py" ∷ [];
  coverage_fraction = some 10;
  truncation_sources = "edges_cap_500" ∷ "evidence_cap_50" ∷ [];
  truncated = true;
}

clean-assured : decide ltb clean ≡ record { status = assured_within_scope; reason_codes = [] }
unfolding decide
clean-assured = refl

poor-stale : decide ltb poor ≡ record {
  status = stale;
  reason_codes =
      stale_sources
      ∷ truncation "edges_cap_500"
      ∷ truncation "evidence_cap_50"
      ∷ coverage_below_floor
      ∷ [];
}
unfolding decide
poor-stale = refl

decide-eq-ranked_example : (decide ltb poor).status ≡ ranked ltb poor
decide-eq-ranked_example = decide-eq-ranked ltb poor

clean-poor : Worse ltb clean poor
clean-poor = record {
  identity = λ e. e;
  collection = λ e. e;
  bound = λ e. e;
  staleness = λ e. refl;
  conflicts = omega arith;
  targets = omega arith;
  gate = λ e. e;
  cuts = λ e. refl;
  failures = omega arith;
  unresolved = omega arith;
  budget = omega arith;
  dispatch = λ e. e;
  negative = λ e. e;
  measured = λ e. e;
  coverage = λ e. refl;
  enumeration = λ e. e;
  capability = λ e. e;
  ast = λ e. e;
  provider = λ e. e;
}

decide_mono_example : severity (decide ltb clean).status ≤ severity (decide ltb poor).status
decide_mono_example = decide_mono ltb clean poor clean-poor
