-- ===== src/Assurance/State/Monotone.antt =====
-- Facts that are worse never raise the verdict of src/sot_graph/assurance/state.py.
use sotgraph.Prelude.{◌≤◌, ◌≡◌, Bool, true, arith, nonempty}
use sotgraph.Assurance.State.{
  severity, AssuranceFacts, is_unique, is_true, under_floor, requires_absence, decide,
}
use sotgraph.Assurance.State.Spec.{cut, thin, degraded, rank, decide-eq-ranked}

-- Every fact of `g` is at least as bad as that of `f`.
pub record Worse {F : Type 0} (below : F → F → Bool) (f g : AssuranceFacts F) : Type 0 where
  pub identity : is_unique g.identity_status ≡ true → is_unique f.identity_status ≡ true
  pub collection : f.collection_error ≡ true → g.collection_error ≡ true
  pub bound : g.snapshot_bound ≡ true → f.snapshot_bound ≡ true
  pub staleness : nonempty f.stale_files ≡ true → nonempty g.stale_files ≡ true
  pub conflicts : f.open_conflicts ≤ g.open_conflicts
  pub targets : f.partial_targets ≤ g.partial_targets
  pub gate : f.gate_blocked ≡ true → g.gate_blocked ≡ true
  pub cuts : cut below f ≡ true → cut below g ≡ true
  pub failures : f.parser_failures ≤ g.parser_failures
  pub unresolved : f.unresolved_count ≤ g.unresolved_count
  pub budget : g.unresolved_budget ≤ f.unresolved_budget
  pub dispatch : f.dynamic_dispatch_unresolved ≡ true → g.dynamic_dispatch_unresolved ≡ true
  pub negative : requires_absence below f ≡ true → requires_absence below g ≡ true
  pub measured : g.coverage_measured ≡ true → f.coverage_measured ≡ true
  pub coverage :
      under_floor below f.coverage_fraction f.coverage_floor ≡ true
      → under_floor below g.coverage_fraction g.coverage_floor ≡ true
  pub enumeration : is_true g.enumeration_complete ≡ true → is_true f.enumeration_complete ≡ true
  pub capability :
      is_true g.parser_capability_complete ≡ true → is_true f.parser_capability_complete ≡ true
  pub ast : f.partial_ast_present ≡ true → g.partial_ast_present ≡ true
  pub provider : g.provider_capability_ok ≡ true → f.provider_capability_ok ≡ true

severity-rank_mono :
    (a u s c p a' u' s' c' p' : Bool)
    → (a ≡ true → a' ≡ true)
    → (u ≡ true → u' ≡ true)
    → (s ≡ true → s' ≡ true)
    → (c ≡ true → c' ≡ true)
    → (p ≡ true → p' ≡ true)
    → severity (rank a u s c p) ≤ severity (rank a' u' s' c' p')
severity-rank_mono a u s c p a' u' s' c' p' ha hu hs hc hp = ground arith

module _ {F : Type 0} (below : F → F → Bool) (f g : AssuranceFacts F) (w : Worse below f g) where
  thin_mono : thin below f ≡ true → thin below g ≡ true
  thin_mono = ground arith

  degraded_mono : degraded below f ≡ true → degraded below g ≡ true
  degraded_mono = ground (arith, thin_mono)

  -- Facts that are at least as bad in every respect never get a less severe status.
  pub decide_mono : severity (decide below f).status ≤ severity (decide below g).status
  decide_mono =
      rw (decide-eq-ranked below f, decide-eq-ranked below g)
        (severity-rank_mono _ _ _ _ _ _ _ _ _ _ (ground arith) (ground arith) w.staleness
          (ground arith) degraded_mono)
