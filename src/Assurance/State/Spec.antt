-- ===== src/Assurance/State/Spec.antt =====
-- The decision of src/sot_graph/assurance/state.py against its severity lattice.
use sotgraph.Prelude.{
  ℕ, max, ◌≡◌, refl, Bool, true, false, not, ◌||◌, ◌&&◌, List, [], ◌∷◌, ◌++◌, String, arith, ltb,
  nonempty, if◌then◌else◌,
}
use sotgraph.Assurance.State.{
  Status, assured_within_scope, partial, conflicted, stale, unverifiable, abstained, severity,
  ReasonCode, truncation, AssuranceFacts, Collected, emit, emit_sources, is_unique, is_true,
  max_status, reduce, finish, under_floor, requires_absence, collect_scope, collect_truncation,
  collect_evidence, decide,
}

severity-injective : (s t : Status) → severity s ≡ severity t → s ≡ t
severity-injective s t h = ground arith

-- The join of the severities of a list.
abbrev pub top : List Status → ℕ
top [] = 0
top (s ∷ ss) = max (severity s) (top ss)

pub top-append : (ss ts : List Status) → top (ss ++ ts) ≡ max (top ss) (top ts)
top-append [] ts = omega arith
top-append (s ∷ ss) ts = omega (arith, top-append ss ts)

severity-max_status :
    (s : Status) (ss : List Status) → severity (max_status s ss) ≡ max (severity s) (top ss)
severity-max_status s [] = omega arith
severity-max_status s (t ∷ ts) =
    ground (arith, severity-max_status (if ltb (severity s) (severity t) then t else s) ts)

pub severity-reduce : (ss : List Status) → severity (reduce ss) ≡ top ss
unfolding reduce
severity-reduce [] = refl
severity-reduce (s ∷ ss) = severity-max_status s ss

flag : Bool → Status → ℕ
flag b s = if b then severity s else 0

top-emit :
    (b : Bool) (r : ReasonCode) (s : Status) (c : Collected)
    → top (emit b r s c).candidates ≡ max (top c.candidates) (flag b s)
unfolding emit flag
top-emit false r s c = omega arith
top-emit true r s c = omega (arith, top-append c.candidates (s ∷ []))

top-emit_sources :
    (sources : List String) (c : Collected)
    → top (emit_sources sources c).candidates
      ≡ max (top c.candidates) (flag (nonempty sources) partial)
unfolding emit_sources flag
top-emit_sources [] c = omega arith
top-emit_sources (s ∷ []) c = top-emit true (truncation s) partial c
top-emit_sources (s ∷ t ∷ rest) c = omega (
  arith,
  top-emit_sources (t ∷ rest) (emit true (truncation s) partial c),
  top-emit true (truncation s) partial c,
)

module _ {F : Type 0} (below : F → F → Bool) where
  abbrev pub cut : AssuranceFacts F → Bool
  cut f = nonempty f.truncation_sources || f.truncated

  abbrev pub thin : AssuranceFacts F → Bool
  thin f =
      let negative = requires_absence below f in
      ltb 0 f.parser_failures
      || ltb f.unresolved_budget f.unresolved_count
      || f.dynamic_dispatch_unresolved
      || (negative
          && (not f.coverage_measured || under_floor below f.coverage_fraction f.coverage_floor))
      || (negative && not (is_true f.enumeration_complete))
      || (negative && not (is_true f.parser_capability_complete))
      || (negative && f.partial_ast_present)
      || not f.provider_capability_ok

  -- One of the facts that cap a verdict at PARTIAL.
  abbrev pub degraded : AssuranceFacts F → Bool
  degraded f = (ltb 0 f.partial_targets || f.gate_blocked) || (cut f || thin f)

  -- The documented lattice, read from the top.
  abbrev pub ranked : AssuranceFacts F → Status
  ranked f =
      if not (is_unique f.identity_status)
      then abstained
      else if f.collection_error || not f.snapshot_bound
      then unverifiable
      else if nonempty f.stale_files
      then stale
      else if ltb 0 f.open_conflicts
      then conflicted
      else if degraded f
      then partial
      else assured_within_scope

flag-or : (a b : Bool) (s : Status) → flag (a || b) s ≡ max (flag a s) (flag b s)
unfolding flag
flag-or a b s = ground arith

-- `ranked` at the five conditions.
abbrev pub rank : Bool → Bool → Bool → Bool → Bool → Status
rank a u s c p =
    if a
    then abstained
    else if u
    then unverifiable
    else if s
    then stale
    else if c
    then conflicted
    else if p
    then partial
    else assured_within_scope

severity-rank :
    (a u s c p : Bool)
    → severity (rank a u s c p)
      ≡ max (flag a abstained) (
          max (flag u unverifiable) (max (flag s stale) (max (flag c conflicted) (flag p partial))))
unfolding flag
severity-rank a u s c p = ground arith

max_assoc : (a b c : ℕ) → max (max a b) c ≡ max a (max b c)
max_assoc a b c = omega arith

max_left_comm : (a b c : ℕ) → max a (max b c) ≡ max b (max a c)
max_left_comm a b c = omega arith

zero-max : (a : ℕ) → max 0 a ≡ a
zero-max a = omega arith

-- The order of the checks in the code, and the order of the lattice.
max_regroup :
    (t a b p u s c g : ℕ)
    → max (max (max (max (max (max (max t a) b) p) u) s) c) g
      ≡ max t (max b (max (max a u) (max s (max c (max p g)))))
max_regroup t a b p u s c g =
    simp (max_assoc, max_left_comm a b, max_left_comm p u, max_left_comm p s, max_left_comm p c)

ruleset tops = (top-emit, top-emit_sources, severity-rank, flag-or)

module _ {F : Type 0} (below : F → F → Bool) (f : AssuranceFacts F) where
  top-collect_scope :
      (c : Collected)
      → top (collect_scope below f c).candidates
        ≡ max (top c.candidates) (
            severity (
              rank
                (not (is_unique f.identity_status))
                (f.collection_error || not f.snapshot_bound)
                (nonempty f.stale_files)
                (ltb 0 f.open_conflicts)
                (ltb 0 f.partial_targets || f.gate_blocked)))
  unfolding collect_scope
  top-collect_scope c = simp tops (max_regroup _ _ _ _ _ _ _ _)

  top-collect_truncation :
      (c : Collected)
      → top (collect_truncation below f c).candidates
        ≡ max (top c.candidates) (flag (cut below f) partial)
  unfolding collect_truncation flag
  top-collect_truncation c = ground (
    arith,
    top-emit_sources f.truncation_sources c,
    top-emit f.truncated ReasonCode.transitive_truncated partial c,
  )

  top-collect_evidence :
      (c : Collected)
      → top (collect_evidence below f c).candidates
        ≡ max (top c.candidates) (flag (thin below f) partial)
  unfolding collect_evidence
  top-collect_evidence c = simp (tops, max_assoc)

  ranked_lem :
      ranked below f
      ≡ rank
          (not (is_unique f.identity_status))
          (f.collection_error || not f.snapshot_bound)
          (nonempty f.stale_files)
          (ltb 0 f.open_conflicts)
          (degraded below f)
  ranked_lem = refl

  severity-decide : severity (decide below f).status ≡ severity (ranked below f)
  unfolding decide finish
  severity-decide = rw severity-reduce (
      simp (
        top-collect_evidence, top-collect_truncation, top-collect_scope, tops, max_assoc, zero-max,
      ))

  -- The status is the one that the documented severity order ranks highest among the failing facts:
  -- identity, then binding and collection, staleness, conflicts, and any fact that caps at PARTIAL.
  pub decide-eq-ranked : (decide below f).status ≡ ranked below f
  decide-eq-ranked = severity-injective _ _ severity-decide
