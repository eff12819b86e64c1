-- ===== src/Assurance/State.antt =====
-- src/sot_graph/assurance/state.py: the statuses, the facts and the pure decision over them.
-- A fraction is a Python float; its type and the test `<` are the parameters `F` and `below`.
pub mod Spec
pub mod Monotone
pub mod Reasons
mod Tests
use sotgraph.Prelude.{
  ℕ, ◌+◌, ◌≡◌, refl, Bool, true, false, not, ◌||◌, ◌&&◌, Option, none, some, List, [], ◌∷◌, ◌++◌,
  String, ltb, nonempty, if◌then◌else◌, is_some,
}

-- CANONICAL_STATUSES, in the order of severity
pub data Status : Type 0 where
  assured_within_scope partial conflicted stale unverifiable abstained : Status

-- STATUS_SEVERITY
abbrev pub severity : Status → ℕ
severity assured_within_scope = 0
severity partial = 10
severity conflicted = 20
severity stale = 30
severity unverifiable = 40
severity abstained = 50

pub data IdentityStatus : Type 0 where
  unique not_found ambiguous : IdentityStatus

-- the three of CLAIM_PROFILES, and the "relation" that `decide` also names
pub data ClaimProfile : Type 0 where
  presence absence exhaustive relation : ClaimProfile

-- The codes that `decide` appends. `truncation s` is `reason_code_for(s)`.
pub data ReasonCode : Type 0 where
  collection_error target_not_found target_ambiguous targets_partially_resolved : ReasonCode
  snapshot_unbound stale_sources open_conflicts rename_gate_blocked : ReasonCode
  truncation : String → ReasonCode
  transitive_truncated parser_failures unresolved_over_budget : ReasonCode
  dynamic_dispatch_unresolved coverage_below_floor enumeration_incomplete : ReasonCode
  parser_capability_incomplete partial_ast_ceiling provider_capability_missing : ReasonCode

pub record AssuranceFacts (F : Type 0) : Type 0 where
  pub identity_status : IdentityStatus
  pub snapshot_bound : Bool
  pub collection_error : Bool
  pub stale_files : List String
  pub coverage_measured : Bool
  pub coverage_fraction : Option F
  pub coverage_floor : F
  pub parser_failures : ℕ
  pub unresolved_count : ℕ
  pub unresolved_budget : ℕ
  pub open_conflicts : ℕ
  pub truncated : Bool
  pub truncation_sources : List String
  pub enumeration_complete : Option Bool
  pub parser_capability_complete : Option Bool
  pub partial_ast_present : Bool
  pub provider_capability_ok : Bool
  pub absence_claim : Bool
  pub gate_blocked : Bool
  pub dynamic_dispatch_unresolved : Bool
  pub partial_targets : ℕ
  pub claim_profile : ClaimProfile

-- The two lists that `decide` fills.
pub record Collected : Type 0 where
  pub reasons : List ReasonCode
  pub candidates : List Status

-- `if b: reasons.append(r); candidate_statuses.append(s)`
unfoldable pub emit : Bool → ReasonCode → Status → Collected → Collected
emit b r s c =
    if b then record { reasons = c.reasons ++ r ∷ []; candidates = c.candidates ++ s ∷ [] } else c

unfoldable pub emit_sources : List String → Collected → Collected
emit_sources [] c = c
emit_sources (s ∷ sources) c = emit_sources sources (emit true (truncation s) partial c)

abbrev pub is_unique : IdentityStatus → Bool
is_unique unique = true
is_unique _ = false

abbrev pub identity_reason : IdentityStatus → ReasonCode
identity_reason not_found = target_not_found
identity_reason _ = target_ambiguous

abbrev pub is_absence_profile : ClaimProfile → Bool
is_absence_profile presence = false
is_absence_profile _ = true

-- `x is True`
abbrev pub is_true : Option Bool → Bool
is_true (some true) = true
is_true _ = false

-- `max(candidate_statuses, key=severity)`: the first among the greatest
abbrev pub max_status : Status → List Status → Status
max_status s [] = s
max_status s (t ∷ ts) = max_status (if ltb (severity s) (severity t) then t else s) ts

unfoldable pub reduce : List Status → Status
reduce [] = assured_within_scope
reduce (s ∷ ss) = max_status s ss

pub record Decision : Type 0 where
  pub status : Status
  pub reason_codes : List ReasonCode

unfoldable pub finish : Collected → Decision
unfolding reduce
finish c = record {
  status = reduce c.candidates;
  reason_codes = if nonempty c.candidates then c.reasons else [];
}

module _ {F : Type 0} (below : F → F → Bool) where
  abbrev pub under_floor : Option F → F → Bool
  under_floor none floor = true
  under_floor (some x) floor = below x floor

  abbrev pub requires_absence : AssuranceFacts F → Bool
  requires_absence f = f.absence_claim || is_absence_profile f.claim_profile

  unfoldable pub collect_scope : AssuranceFacts F → Collected → Collected
  collect_scope f c0 =
      let c1 = emit f.collection_error collection_error unverifiable c0 in
      let c2 =
        emit (not (is_unique f.identity_status)) (identity_reason f.identity_status) abstained c1 in
      let c3 = emit (ltb 0 f.partial_targets) targets_partially_resolved partial c2 in
      let c4 = emit (not f.snapshot_bound) snapshot_unbound unverifiable c3 in
      let c5 = emit (nonempty f.stale_files) stale_sources stale c4 in
      let c6 = emit (ltb 0 f.open_conflicts) open_conflicts conflicted c5 in
      emit f.gate_blocked rename_gate_blocked partial c6

  unfoldable pub collect_truncation : AssuranceFacts F → Collected → Collected
  collect_truncation f c =
      if nonempty f.truncation_sources
      then emit_sources f.truncation_sources c
      else emit f.truncated transitive_truncated partial c

  unfoldable pub collect_evidence : AssuranceFacts F → Collected → Collected
  collect_evidence f c0 =
      let negative = requires_absence f in
      let c1 = emit (ltb 0 f.parser_failures) parser_failures partial c0 in
      let c2 =
        emit (ltb f.unresolved_budget f.unresolved_count) unresolved_over_budget partial c1 in
      let c3 = emit f.dynamic_dispatch_unresolved dynamic_dispatch_unresolved partial c2 in
      let c4 =
        emit
          (negative
            && (not f.coverage_measured || under_floor f.coverage_fraction f.coverage_floor))
          coverage_below_floor partial c3 in
      let c5 =
        emit (negative && not (is_true f.enumeration_complete)) enumeration_incomplete partial c4 in
      let c6 =
        emit (negative && not (is_true f.parser_capability_complete)) parser_capability_incomplete
          partial c5 in
      let c7 = emit (negative && f.partial_ast_present) partial_ast_ceiling partial c6 in
      emit (not f.provider_capability_ok) provider_capability_missing partial c7

  unfoldable pub decide : AssuranceFacts F → Decision
  unfolding collect_scope collect_truncation collect_evidence emit emit_sources finish
  decide f = finish (
      collect_evidence f
        (collect_truncation f (collect_scope f (record { reasons = []; candidates = [] }))))
