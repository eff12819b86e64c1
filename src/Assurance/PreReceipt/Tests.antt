-- ===== src/Assurance/PreReceipt/Tests.antt =====
-- A receipt of this repository, and one that was changed after it was made.
use sotgraph.Prelude.{◌≡◌, ◌↔◌, refl, true, false, none, some, [], String, if◌then◌else◌}
use sotgraph.Assurance.TestReport.{Json, text, object, Fields, end, field, get, is_text}
use sotgraph.Assurance.PreReceipt.{bound, pre_receipt_binding}
use sotgraph.Assurance.PreReceipt.Bound.{HasStatus, IsBinding, result, binding-bound_iff}

abbrev show : Json → String
show (text s) = s
show _ = ""

abbrev realpath : String → String
realpath path = path

abbrev receipt_digest : Fields → String
receipt_digest fs = if is_text "scope" (get "kind" fs) then "d1" else "d2"

abbrev snapshot : Fields
snapshot = field "repo_root" (text "/repo") (field "commit_sha" (text "a1b2") end)

abbrev receipt : String → Fields
receipt digest =
    field "kind" (text "scope")
      (field "snapshot" (object snapshot) (field "digest" (text digest) end))

receipt-bound :
    result show realpath receipt_digest "/repo" (some "a1b2") (receipt "d1") snapshot refl
    ≡ some (record {
      status = bound;
      reasons = [];
      head_moved = some false;
      digest_verified = some true;
    })
unfolding pre_receipt_binding
receipt-bound = refl

binding-bound_iff_example :
    HasStatus (result show realpath receipt_digest "/repo" none (receipt "d1") snapshot refl) bound
    ↔ IsBinding show realpath receipt_digest "/repo" (receipt "d1") snapshot
binding-bound_iff_example =
    binding-bound_iff show realpath receipt_digest "/repo" none (receipt "d1") snapshot refl
