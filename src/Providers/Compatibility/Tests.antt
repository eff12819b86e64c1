-- ===== src/Providers/Compatibility/Tests.antt =====
-- A registry of src/sot_graph/providers/compatibility.py, and what is proved about it.
use sotgraph.Prelude.{◌≡◌, refl, ◌||◌, Option, none, some, [], ◌∷◌, any}
use sotgraph.Prelude.Text.{Text, codes, strip}
use sotgraph.Providers.Compatibility.{
  TestedRecord, Identity, Verdict, compatible, incompatible, Assessment, normalize_operation,
  normalize_sha256_digest, normalize_protocol_id, binding_version, register, optional,
  assess_artifact, assess,
}
use sotgraph.Providers.Compatibility.Judged.{
  is_compatible, covers, assess-compatible_iff, register-compatible,
}

abbrev zeros : Text
zeros = codes "0000000000000000000000000000000000000000000000000000000000000000"

abbrev fives : Text
fives = codes "5555555555555555555555555555555555555555555555555555555555555555"

abbrev tested : TestedRecord
tested = record {
  provider_name = codes "cbm";
  operation = codes "trace";
  artifact_sha256 = zeros;
  fixture_digest = fives;
  protocol_compatibility_id = codes "v2";
  version = some (codes "1.4");
  engine_commit = none;
  tested_by = none;
  tested_at = none;
}

abbrev installed : Text → Identity
installed artifact = record {
  name = codes " cbm";
  version = some (codes "1.4");
  engine_commit = none;
  artifact_sha256 = some artifact;
}

verdict_of : Option Assessment → Option Verdict
verdict_of none = none
verdict_of (some a) = some a.verdict

exact-verdict :
    verdict_of (
      assess
        (tested ∷ [])
        (some (installed zeros))
        (codes "trace ")
        (some fives)
        (some (codes "V2")))
    ≡ some compatible
unfolding assess assess_artifact verdict_of normalize_operation normalize_sha256_digest
    normalize_protocol_id binding_version
exact-verdict = refl

-- The version of a tested record on another binary.
masquerade-verdict :
    verdict_of (
      assess
        (tested ∷ [])
        (some (installed fives))
        (codes "trace")
        (some fives)
        (some (codes "v2")))
    ≡ some incompatible
unfolding assess assess_artifact verdict_of normalize_operation normalize_sha256_digest
    normalize_protocol_id binding_version
masquerade-verdict = refl

normal_operation : normalize_operation (codes "trace ") ≡ some (codes "trace")
unfolding normalize_operation
normal_operation = refl

normal_digest : normalize_sha256_digest zeros ≡ some zeros
unfolding normalize_sha256_digest
normal_digest = refl

normal_fixture : optional normalize_sha256_digest (some fives) ≡ some (some fives)
unfolding normalize_sha256_digest
normal_fixture = refl

normal_protocol : optional normalize_protocol_id (some (codes "V2")) ≡ some (some (codes "v2"))
unfolding normalize_protocol_id
normal_protocol = refl

assess-compatible_iff_example :
    (r : Assessment) × (assess
        (tested ∷ [])
        (some (installed zeros))
        (codes "trace ")
        (some fives)
        (some (codes "V2"))
      ≡ some r)
    × (is_compatible r.verdict
        ≡ any
            (covers (strip (codes " cbm")) (codes "trace") zeros (some fives) (some (codes "v2")))
            (tested ∷ []))
assess-compatible_iff_example =
    assess-compatible_iff (tested ∷ []) (installed zeros) (codes "trace ") (codes "trace") zeros
      zeros (some fives) (some (codes "V2")) (some fives) (some (codes "v2")) refl normal_operation
      normal_digest normal_fixture normal_protocol

first-registered : register tested [] ≡ some (tested ∷ [])
unfolding register
first-registered = refl

register-compatible_example :
    is_compatible
      (assess_artifact
        (tested ∷ [])
        (installed zeros)
        (codes "trace")
        zeros
        (some fives)
        (some (codes "v2"))).verdict
    ≡ (is_compatible
          (assess_artifact []
            (installed zeros)
            (codes "trace")
            zeros
            (some fives)
            (some (codes "v2"))).verdict
        || covers
            (strip (codes " cbm"))
            (codes "trace")
            zeros
            (some fives)
            (some (codes "v2"))
            tested)
register-compatible_example =
    register-compatible tested [] (tested ∷ []) (installed zeros) (codes "trace") zeros (some fives)
      (some (codes "v2")) first-registered
