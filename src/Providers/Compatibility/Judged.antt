-- ===== src/Providers/Compatibility/Judged.antt =====
-- When src/sot_graph/providers/compatibility.py calls a provider compatible.
use sotgraph.Prelude.{
  ◌≡◌, refl, sym, ap, ◌∙◌, Bool, true, false, ◌&&◌, ◌||◌, Option, none, some, List, [], ◌∷◌, any,
  any-keep, nonempty-keep, any-both_none, keep, nonempty, Bool-cases, Option-cases, inl, inr, arith,
}
use sotgraph.Prelude.Text.{Text, same, same-eq, strip}
use sotgraph.Assurance.Identity.Keys.{same_text-eq}
use sotgraph.Providers.Compatibility.{
  TestedRecord, Identity, Verdict, compatible, unknown, incompatible, Assessment,
  normalize_operation, normalize_sha256_digest, normalize_protocol_id, binding_version,
  same_record_key, same_record, register, is_tested, fixture_step, given_fixture, protocol_step,
  exact_step, inexact_step, assess_artifact, optional, assess_normal, assess_digest,
  assess_arguments, assess,
}

abbrev pub is_compatible : Verdict → Bool
is_compatible compatible = true
is_compatible unknown = false
is_compatible incompatible = false

abbrev pub given : Option Text → Text → Bool
given none t = false
given (some s) t = same t s

-- The record was tested on exactly this artifact, with the protocol and the fixtures that are given.
abbrev pub covers : Text → Text → Text → Option Text → Option Text → TestedRecord → Bool
covers name op artifact fx proto r =
    is_tested name op artifact r
    && (given proto r.protocol_compatibility_id && given fx r.fixture_digest)

module _ (op artifact : Text) where
  fixture-compatible :
      (rs : List TestedRecord) → is_compatible (fixture_step op artifact rs).verdict ≡ nonempty rs
  fixture-compatible [] = refl
  fixture-compatible (r ∷ rs) = refl

  any-false {ℓ} : {A : Type ℓ} (rs : List A) → any (λ r. false) rs ≡ false
  any-false [] = refl
  any-false (r ∷ rs) = any-false rs

  given-compatible :
      (fx : Option Text) (rs : List TestedRecord)
      → is_compatible (given_fixture op artifact fx rs).verdict
        ≡ any (λ r. given fx r.fixture_digest) rs
  given-compatible none rs = sym (any-false rs)
  given-compatible (some fx) rs =
      fixture-compatible _ ∙ nonempty-keep (λ r. same r.fixture_digest fx) rs

  protocol-compatible :
      (fx : Option Text) (rs : List TestedRecord)
      → is_compatible (protocol_step op artifact fx rs).verdict
        ≡ any (λ r. given fx r.fixture_digest) rs
  protocol-compatible fx [] = refl
  protocol-compatible fx (r ∷ rs) = given-compatible fx (r ∷ rs)

  exact-compatible :
      (fx proto : Option Text) (rs : List TestedRecord)
      → is_compatible (exact_step op artifact fx proto rs).verdict
        ≡ any (λ r. given proto r.protocol_compatibility_id && given fx r.fixture_digest) rs
  exact-compatible fx none rs = sym (any-false rs)
  exact-compatible fx (some p) rs =
      protocol-compatible fx (keep (λ r. same r.protocol_compatibility_id p) rs)
      ∙ any-keep (λ r. given fx r.fixture_digest) (λ r. same r.protocol_compatibility_id p) rs

  inexact-compatible :
      (name : Text) (v : Option Text) (rs : List TestedRecord)
      → is_compatible (inexact_step name op artifact v rs).verdict ≡ false
  inexact-compatible name none rs = refl
  inexact-compatible name (some v) rs = ground arith

  assess_artifact-compatible :
      (records : List TestedRecord) (i : Identity) (fx proto : Option Text)
      → is_compatible (assess_artifact records i op artifact fx proto).verdict
        ≡ any (covers (strip i.name) op artifact fx proto) records
  unfolding assess_artifact
  assess_artifact-compatible records i fx proto =
      let tested = is_tested (strip i.name) op artifact in
      let nonempty_any = nonempty-keep tested records in
      elim (Bool-cases (nonempty (keep tested records))) [
        | inl e ↦ rw e (
            exact-compatible fx proto (keep tested records)
            ∙ any-keep (λ r. given proto r.protocol_compatibility_id && given fx r.fixture_digest)
                tested records)
        | inr e ↦ rw e (
            inexact-compatible (strip i.name) (binding_version i.version) records
            ∙ sym (
                any-both_none tested
                  (λ r. given proto r.protocol_compatibility_id && given fx r.fixture_digest)
                  records (sym nonempty_any ∙ e)))
      ]

-- Where the operation, the digests and the protocol are well formed, the assessment returns, and it is
-- compatible exactly when a tested record has the provider, the operation, the artifact, and the
-- protocol and fixture digest, both of which are given. The version has no part in it.
pub assess-compatible_iff :
    (records : List TestedRecord) (i : Identity) (operation op a artifact : Text)
    (fixture protocol fx proto : Option Text)
    → i.artifact_sha256 ≡ some a
    → normalize_operation operation ≡ some op
    → normalize_sha256_digest a ≡ some artifact
    → optional normalize_sha256_digest fixture ≡ some fx
    → optional normalize_protocol_id protocol ≡ some proto
    → (r : Assessment) × (assess records (some i) operation fixture protocol ≡ some r)
      × (is_compatible r.verdict ≡ any (covers (strip i.name) op artifact fx proto) records)
unfolding assess
assess-compatible_iff records i operation op a artifact fixture protocol fx proto e_a e_op
      e_artifact e_fx e_proto =
    (
      assess_artifact records i op artifact fx proto,
      (λ j. assess_arguments records (some i) (e_op j) (e_fx j) (e_proto j))
          ∙ (λ j. assess_digest records i op (e_a j) fx proto)
          ∙ (λ j. assess_normal records i op (e_artifact j) fx proto),
      assess_artifact-compatible op artifact records i fx proto,
    )

same_record-eq : (a b : TestedRecord) → same_record a b ≡ true → a ≡ b
same_record-eq a b h =
    let p = same-eq a.provider_name b.provider_name (ground arith) in
    let o = same-eq a.operation b.operation (ground arith) in
    let s = same-eq a.artifact_sha256 b.artifact_sha256 (ground arith) in
    let f = same-eq a.fixture_digest b.fixture_digest (ground arith) in
    let c = same-eq a.protocol_compatibility_id b.protocol_compatibility_id (ground arith) in
    let v = same_text-eq a.version b.version (ground arith) in
    let e = same_text-eq a.engine_commit b.engine_commit (ground arith) in
    let y = same_text-eq a.tested_by b.tested_by (ground arith) in
    let t = same_text-eq a.tested_at b.tested_at (ground arith) in
    λ i. record {
      provider_name = p i;
      operation = o i;
      artifact_sha256 = s i;
      fixture_digest = f i;
      protocol_compatibility_id = c i;
      version = v i;
      engine_commit = e i;
      tested_by = y i;
      tested_at = t i;
    }

any-register :
    (q : TestedRecord → Bool) (r : TestedRecord) (es rs : List TestedRecord)
    → register r es ≡ some rs
    → any q rs ≡ (any q es || q r)
unfolding register
any-register q r [] rs h =
    let same_list : r ∷ [] ≡ rs = ground arith in ap (any q) (sym same_list) ∙ (ground arith)
any-register q r (e ∷ es) rs h = elim (Bool-cases (same_record_key r e)) [
  | inl k ↦ elim (Bool-cases (same_record e r)) [
    | inl s ↦
        (let h' = rw (k, s) at h in
          let same_list : r ∷ es ≡ rs = ground arith in
          let same_q : q e ≡ q r = ap q (same_record-eq e r s) in
          ap (any q) (sym same_list) ∙ (ground arith))
    | inr s ↦ (let h' = rw (k, s) at h in cc)
  ]
  | inr k ↦ elim (Option-cases (register r es)) [
    | inl n ↦ (let h' = rw (k, n) at h in cc)
    | inr (ts, n) ↦
        (let h' = rw (k, n) at h in
          let same_list : e ∷ ts ≡ rs = ground arith in
          let rest = any-register q r es ts n in ap (any q) (sym same_list) ∙ (ground arith))
  ]
]

-- After a registration that is accepted, an assessment is compatible exactly when it was before or the
-- new record covers it; no other verdict becomes compatible, and none stops being so.
pub register-compatible :
    (t : TestedRecord) (records records' : List TestedRecord) (i : Identity) (op artifact : Text)
    (fx proto : Option Text)
    → register t records ≡ some records'
    → is_compatible (assess_artifact records' i op artifact fx proto).verdict ≡ (
        is_compatible (assess_artifact records i op artifact fx proto).verdict
        || covers (strip i.name) op artifact fx proto t)
register-compatible t records records' i op artifact fx proto h =
    assess_artifact-compatible op artifact records' i fx proto
    ∙ any-register (covers (strip i.name) op artifact fx proto) t records records' h
    ∙ ap (λ b. b || covers (strip i.name) op artifact fx proto t)
        (sym (assess_artifact-compatible op artifact records i fx proto))
