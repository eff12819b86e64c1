-- ===== src/Search/Evidence.antt =====
-- src/sot_graph/evidence.py: the evidence of a hit, its legacy verdict and its four trust axes.
-- A confidence and a coverage are Python floats: `F`, with the tests that the code makes of them.
pub mod Axes
pub mod Legacy
mod Tests
use sotgraph.Prelude.{
  ℕ, zero, suc, Bool, true, false, not, ◌||◌, ◌&&◌, Option, none, some, List, [], ◌∷◌, ◌++◌, ◌==◌,
  nonempty, if◌then◌else◌,
}
use sotgraph.Prelude.Text.{Text, strip, strip_of, same, ends, contains}

pub data FreshnessStatus : Type 0 where
  fresh stale missing unknown : FreshnessStatus

pub data RelevanceType : Type 0 where
  exact_symbol exact_span file_token name_only unknown : RelevanceType

pub data ResolutionStatus : Type 0 where
  exact inferred ambiguous unresolved not_applicable : ResolutionStatus

pub data AnchorFreshnessAxis : Type 0 where
  fresh stale missing unknown : AnchorFreshnessAxis

pub data IdentityAxis : Type 0 where
  unique ambiguous unresolved unknown : IdentityAxis

pub data QueryRelevanceAxis : Type 0 where
  exact semantic weak unknown : QueryRelevanceAxis

pub data ScopeCompletenessAxis : Type 0 where
  exhaustive bounded partial unknown : ScopeCompletenessAxis

pub data LegacyVerdict : Type 0 where
  nopath removed rebuilt stale weak strong : LegacyVerdict

-- The truth values of the entries of `details` that the code reads.
pub record Details : Type 0 where
  pub nopath : Bool
  pub outside_root : Bool
  pub oversized : Bool
  pub binary : Bool
  pub error : Bool
  pub removed : Bool
  pub rehomed : Bool

pub record TrustEvidence (F : Type 0) : Type 0 where
  pub freshness : FreshnessStatus
  pub relevance : RelevanceType
  pub resolution : ResolutionStatus
  pub confidence : F
  pub details : Details

-- `query_names_identity`, on code points
abbrev pub is_quote : ℕ → Bool
is_quote c = c == b'"' || c == b'\''

unfoldable pub query_names_identity : Text → Text → Text → Bool
query_names_identity query identity_name fqn =
    let q = strip_of is_quote (strip query) in
    let name = strip identity_name in
    if not (nonempty q) || contains b' ' (strip q)
    then false
    else if nonempty name && same q name
    then true
    else nonempty fqn && (same fqn q || ends fqn (b'.' ∷ q) || ends fqn (b':' ∷ b':' ∷ q))

pub record TrustAxes : Type 0 where
  pub anchor_freshness : AnchorFreshnessAxis
  pub identity : IdentityAxis
  pub query_relevance : QueryRelevanceAxis
  pub scope_completeness : ScopeCompletenessAxis

-- The keyword arguments of `derive_trust_axes`.
pub record Hit (F : Type 0) : Type 0 where
  pub query : Text
  pub same_identity_count : Option ℕ
  pub symbol : Text
  pub label : Text
  pub fqn : Text
  pub query_token_coverage : Option F

abbrev pub freshness_map : FreshnessStatus → AnchorFreshnessAxis
freshness_map FreshnessStatus.fresh = AnchorFreshnessAxis.fresh
freshness_map FreshnessStatus.stale = AnchorFreshnessAxis.stale
freshness_map FreshnessStatus.missing = AnchorFreshnessAxis.missing
freshness_map FreshnessStatus.unknown = AnchorFreshnessAxis.unknown

abbrev pub removed_axis : FreshnessStatus → AnchorFreshnessAxis
removed_axis FreshnessStatus.missing = AnchorFreshnessAxis.missing
removed_axis _ = AnchorFreshnessAxis.unknown

abbrev pub count_axis : Option ℕ → IdentityAxis
count_axis none = IdentityAxis.unknown
count_axis (some zero) = IdentityAxis.unknown
count_axis (some (suc zero)) = IdentityAxis.unique
count_axis (some (suc (suc n))) = IdentityAxis.ambiguous

abbrev pub unmeasurable : Details → Bool
unmeasurable d = d.nopath || d.outside_root || d.oversized || d.binary || d.error || d.removed

-- `a or b` of two texts
abbrev pub or_text : Text → Text → Text
or_text [] t = t
or_text (c ∷ cs) t = c ∷ cs

abbrev pub identity_name : {F : Type 0} → Hit F → Text
identity_name h = or_text (strip h.symbol) (strip h.label)

module _ {F : Type 0} (positive : F → Bool) where
  abbrev pub coverage_axis : Option F → QueryRelevanceAxis
  coverage_axis none = QueryRelevanceAxis.unknown
  coverage_axis (some c) =
      if positive c then QueryRelevanceAxis.semantic else QueryRelevanceAxis.weak

  unfoldable pub derive_trust_axes : TrustEvidence F → Hit F → TrustAxes
  derive_trust_axes e h = record {
    anchor_freshness =
        if e.details.removed then removed_axis e.freshness else freshness_map e.freshness;
    identity =
        if not (nonempty (identity_name h)) && not (nonempty (strip h.fqn))
        then IdentityAxis.unresolved
        else count_axis h.same_identity_count;
    query_relevance =
        if unmeasurable e.details
        then QueryRelevanceAxis.unknown
        else if query_names_identity h.query (identity_name h) h.fqn
        then QueryRelevanceAxis.exact
        else coverage_axis h.query_token_coverage;
    scope_completeness = ScopeCompletenessAxis.unknown;
  }

abbrev pub is_exact : RelevanceType → Bool
is_exact RelevanceType.exact_symbol = true
is_exact RelevanceType.exact_span = true
is_exact _ = false

abbrev pub is_resolved : ResolutionStatus → Bool
is_resolved ResolutionStatus.exact = true
is_resolved ResolutionStatus.inferred = true
is_resolved _ = false

-- `at_least c n` is the test `confidence >= n / 100`.
module _ {F : Type 0} (at_least : F → ℕ → Bool) where
  abbrev pub fresh_verdict : RelevanceType → F → LegacyVerdict
  fresh_verdict r c =
      if is_exact r
      then (if at_least c 70 then LegacyVerdict.strong else LegacyVerdict.weak)
      else if at_least c 50
      then LegacyVerdict.strong
      else LegacyVerdict.weak

  abbrev pub freshness_verdict : FreshnessStatus → RelevanceType → F → LegacyVerdict
  freshness_verdict FreshnessStatus.missing r c = LegacyVerdict.stale
  freshness_verdict FreshnessStatus.stale r c = LegacyVerdict.stale
  freshness_verdict FreshnessStatus.unknown r c = LegacyVerdict.weak
  freshness_verdict FreshnessStatus.fresh r c = fresh_verdict r c

  unfoldable pub to_legacy_verdict : TrustEvidence F → LegacyVerdict
  to_legacy_verdict e =
      if e.details.nopath
      then LegacyVerdict.nopath
      else if e.details.removed
      then LegacyVerdict.removed
      else if e.details.rehomed
      then LegacyVerdict.rebuilt
      else freshness_verdict e.freshness e.relevance e.confidence

  abbrev pub is_fresh : FreshnessStatus → Bool
  is_fresh FreshnessStatus.fresh = true
  is_fresh _ = false

  unfoldable pub is_grounded : TrustEvidence F → Bool
  is_grounded e = is_fresh e.freshness && at_least e.confidence 50 && is_resolved e.resolution
