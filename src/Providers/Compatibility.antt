-- ===== src/Providers/Compatibility.antt =====
-- src/sot_graph/providers/compatibility.py: the registry of tested records and `assess`, on strings as
-- code points; `none` is a CompatibilityRecordError. The text of a reason is left out.
pub mod Judged
mod Tests
use sotgraph.Prelude.{
  ℕ, Bool, true, false, not, ◌&&◌, ◌||◌, Option, none, some, List, [], ◌∷◌, ◌++◌, ◌==◌, leb, any,
  all, keep, length, nonempty, if◌then◌else◌,
}
use sotgraph.Prelude.Text.{Text, codes, same, strip, lower, starts}
use sotgraph.Assurance.Identity.{same_text}

pub record TestedRecord : Type 0 where
  pub provider_name : Text
  pub operation : Text
  pub artifact_sha256 : Text
  pub fixture_digest : Text
  pub protocol_compatibility_id : Text
  pub version : Option Text
  pub engine_commit : Option Text
  pub tested_by : Option Text
  pub tested_at : Option Text

pub record Identity : Type 0 where
  pub name : Text
  pub version : Option Text
  pub engine_commit : Option Text
  pub artifact_sha256 : Option Text

pub data Verdict : Type 0 where
  compatible unknown incompatible : Verdict

pub data Reason : Type 0 where
  no_identity no_artifact no_protocol other_protocol no_fixture other_fixture exact_match : Reason
  masquerade no_record : Reason

pub record Assessment : Type 0 where
  pub verdict : Verdict
  pub reason : Reason
  pub operation : Text
  pub artifact_sha256 : Option Text
  pub matched_record : Option TestedRecord

abbrev if_nonempty : Text → Option Text
if_nonempty [] = none
if_nonempty (c ∷ cs) = some (c ∷ cs)

unfoldable pub normalize_protocol_id : Text → Option Text
normalize_protocol_id value = if_nonempty (lower (strip value))

unfoldable pub normalize_operation : Text → Option Text
normalize_operation operation = if_nonempty (strip operation)

abbrev pub is_hex : ℕ → Bool
is_hex c = (leb b'0' c && leb c b'9') || (leb b'a' c && leb c b'f') || (leb b'A' c && leb c b'F')

abbrev drop_prefix : Text → Text → Text
drop_prefix [] s = s
drop_prefix (p ∷ ps) [] = []
drop_prefix (p ∷ ps) (c ∷ cs) = drop_prefix ps cs

abbrev pub bare_digest : Text → Text
bare_digest s = if starts s (codes "sha256:") then drop_prefix (codes "sha256:") s else s

unfoldable pub normalize_sha256_digest : Text → Option Text
normalize_sha256_digest value =
    let digest = bare_digest (strip value) in
    if all is_hex digest && length digest == 64 then some (lower digest) else none

abbrev is_unknown_literal : Text → Bool
is_unknown_literal s =
    same s (codes "unknown") || same s (codes "n/a") || same s (codes "none") || same s []

unfoldable pub binding_version : Option Text → Option Text
binding_version none = none
binding_version (some v) =
    let cleaned = lower (strip v) in if is_unknown_literal cleaned then none else some cleaned

abbrev pub same_record_key : TestedRecord → TestedRecord → Bool
same_record_key a b =
    same a.provider_name b.provider_name
    && same a.operation b.operation
    && same a.artifact_sha256 b.artifact_sha256
    && same a.fixture_digest b.fixture_digest
    && same a.protocol_compatibility_id b.protocol_compatibility_id

abbrev pub same_record : TestedRecord → TestedRecord → Bool
same_record a b =
    same_record_key a b
    && same_text a.version b.version
    && same_text a.engine_commit b.engine_commit
    && same_text a.tested_by b.tested_by
    && same_text a.tested_at b.tested_at

-- The records in the order of their keys' insertion.
unfoldable pub register : TestedRecord → List TestedRecord → Option (List TestedRecord)
register r [] = some (r ∷ [])
register r (e ∷ es) =
    let rest = register r es in
    if same_record_key r e
    then (if same_record e r then some (r ∷ es) else none)
    else elim rest [ none ↦ none | some rs ↦ some (e ∷ rs) ]

abbrev without : Verdict → Reason → Text → Option Text → Assessment
without verdict reason operation artifact = record {
  verdict = verdict;
  reason = reason;
  operation = operation;
  artifact_sha256 = artifact;
  matched_record = none;
}

abbrev pub is_tested : Text → Text → Text → TestedRecord → Bool
is_tested name op artifact r =
    same r.provider_name name && same r.operation op && same r.artifact_sha256 artifact

abbrev pub fixture_step : Text → Text → List TestedRecord → Assessment
fixture_step op artifact [] = without unknown other_fixture op (some artifact)
fixture_step op artifact (r ∷ rs) = record {
  verdict = compatible;
  reason = exact_match;
  operation = op;
  artifact_sha256 = some artifact;
  matched_record = some r;
}

abbrev pub given_fixture : Text → Text → Option Text → List TestedRecord → Assessment
given_fixture op artifact none rs = without unknown no_fixture op (some artifact)
given_fixture op artifact (some fx) rs =
    fixture_step op artifact (keep (λ r. same r.fixture_digest fx) rs)

abbrev pub protocol_step : Text → Text → Option Text → List TestedRecord → Assessment
protocol_step op artifact fx rs =
    if nonempty rs
    then given_fixture op artifact fx rs
    else without incompatible other_protocol op (some artifact)

-- The records of the exact artifact.
abbrev pub exact_step : Text → Text → Option Text → Option Text → List TestedRecord → Assessment
exact_step op artifact fx none exact = without unknown no_protocol op (some artifact)
exact_step op artifact fx (some proto) exact =
    protocol_step op artifact fx (keep (λ r. same r.protocol_compatibility_id proto) exact)

abbrev same_version : Text → Option Text → Bool
same_version v none = false
same_version v (some w) = same w v

-- No record of the artifact: perhaps the version of another one.
abbrev pub inexact_step : Text → Text → Text → Option Text → List TestedRecord → Assessment
inexact_step name op artifact none records = without unknown no_record op (some artifact)
inexact_step name op artifact (some v) records =
    if any
      (λ r.
        same r.provider_name name
        && same r.operation op
        && same_version v (binding_version r.version))
      records
    then without incompatible masquerade op (some artifact)
    else without unknown no_record op (some artifact)

unfoldable pub assess_artifact :
    List TestedRecord → Identity → Text → Text → Option Text → Option Text → Assessment
assess_artifact records identity op artifact fx proto =
    let exact = keep (is_tested (strip identity.name) op artifact) records in
    if nonempty exact
    then exact_step op artifact fx proto exact
    else inexact_step (strip identity.name) op artifact (binding_version identity.version) records

-- A value that may be missing, normalized: `none` is the error.
abbrev pub optional : (Text → Option Text) → Option Text → Option (Option Text)
optional f none = some none
optional f (some t) = elim (f t) [ none ↦ none | some u ↦ some (some u) ]

abbrev pub assess_normal :
    List TestedRecord
    → Identity
    → Text
    → Option Text
    → Option Text
    → Option Text
    → Option Assessment
assess_normal records identity op none fx proto = none
assess_normal records identity op (some artifact) fx proto =
    some (assess_artifact records identity op artifact fx proto)

abbrev pub assess_digest :
    List TestedRecord
    → Identity
    → Text
    → Option Text
    → Option Text
    → Option Text
    → Option Assessment
assess_digest records identity op none fx proto = some (without unknown no_artifact op none)
assess_digest records identity op (some a) fx proto =
    assess_normal records identity op (normalize_sha256_digest a) fx proto

abbrev pub assess_identity :
    List TestedRecord → Option Identity → Text → Option Text → Option Text → Option Assessment
assess_identity records none op fx proto = some (without unknown no_identity op none)
assess_identity records (some i) op fx proto = assess_digest records i op i.artifact_sha256 fx proto

-- The three arguments, normalized.
abbrev pub assess_arguments :
    List TestedRecord
    → Option Identity
    → Option Text
    → Option (Option Text)
    → Option (Option Text)
    → Option Assessment
assess_arguments records identity none fx proto = none
assess_arguments records identity (some op) none proto = none
assess_arguments records identity (some op) (some fx) none = none
assess_arguments records identity (some op) (some fx) (some proto) =
    assess_identity records identity op fx proto

unfoldable pub assess :
    List TestedRecord → Option Identity → Text → Option Text → Option Text → Option Assessment
assess records identity operation fixture_digest protocol =
    assess_arguments records identity (normalize_operation operation)
      (optional normalize_sha256_digest fixture_digest) (optional normalize_protocol_id protocol)
