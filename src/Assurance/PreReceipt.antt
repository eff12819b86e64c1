-- ===== src/Assurance/PreReceipt.antt =====
-- src/sot_graph/assurance/resolution.py: `pre_receipt_binding`. The digest that receipts.py computes
-- of a payload without its "digest" is the parameter `receipt_digest`, `os.path.realpath` is
-- `realpath` and `str` is `show`. An AttributeError is `none`.
pub mod Bound
mod Tests
use sotgraph.Prelude.{
  Bool, true, false, not, ◌||◌, ◌&&◌, Option, none, some, is_some, List, [], ◌∷◌, ◌++◌, String,
  str_eq, if◌then◌else◌,
}
use sotgraph.Assurance.TestReport.{Json, null, object, Fields, end, field, get, is_text}
use sotgraph.Assurance.SafeCommit.{truthy}

pub data BindingStatus : Type 0 where
  missing bound unverified incompatible : BindingStatus

pub data BindingReason : Type 0 where
  not_an_object wrong_kind wrong_proof_scope foreign_repository digest_mismatch : BindingReason
  head_has_moved no_markers no_repository_identity : BindingReason

pub record PreBinding : Type 0 where
  pub status : BindingStatus
  pub reasons : List BindingReason
  pub head_moved : Option Bool
  pub digest_verified : Option Bool

abbrev pub binding : BindingStatus → List BindingReason → Option Bool → Option Bool → PreBinding
binding status reasons head_moved digest_verified = record {
  status = status;
  reasons = reasons;
  head_moved = head_moved;
  digest_verified = digest_verified;
}

-- `pre_receipt.get(key)`, where null and a missing key are both None
abbrev pub present : Option Json → Bool
present none = false
present (some null) = false
present (some _) = true

abbrev pub truthy_value : Option Json → Bool
truthy_value none = false
truthy_value (some v) = truthy v

-- All entries but "digest".
abbrev pub without_digest : Fields → Fields
without_digest end = end
without_digest (field k v fs) =
    let rest = without_digest fs in if str_eq k "digest" then rest else field k v rest

-- `pre_receipt.get("snapshot") or {}`; what is true and no dictionary has no `get`.
abbrev pub snapshot_of : Option Json → Option Fields
snapshot_of none = some end
snapshot_of (some (object fs)) = some fs
snapshot_of (some v) = if truthy v then none else some end

abbrev pub reason_if : Bool → BindingReason → List BindingReason
reason_if b r = if b then r ∷ [] else []

abbrev pub is_false : Option Bool → Bool
is_false (some false) = true
is_false _ = false

abbrev pub is_true : Option Bool → Bool
is_true (some true) = true
is_true _ = false

-- The claims of the payload that are wrong: `kind` and `proof_scope`.
unfoldable pub kind_wrong : Fields → Bool
kind_wrong fs = present (get "kind" fs) && not (is_text "scope" (get "kind" fs))

unfoldable pub scope_wrong : Fields → Bool
scope_wrong fs =
    present (get "proof_scope" fs) && not (is_text "pre_change_only" (get "proof_scope" fs))

unfoldable pub structured : Fields → Bool
structured fs = present (get "kind" fs) || present (get "proof_scope" fs)

module _ (show : Json → String) (realpath : String → String)
    (receipt_digest : Fields → String) where
  abbrev pub differs : Option Json → String → Bool
  differs none s = false
  differs (some v) s = not (str_eq (realpath (show v)) (realpath s))

  unfoldable pub foreign_root : String → Fields → Bool
  foreign_root repo_root snapshot =
      not (str_eq repo_root "")
      && truthy_value (get "repo_root" snapshot)
      && differs (get "repo_root" snapshot) repo_root

  unfoldable pub verify_digest : Fields → Option Bool
  verify_digest fs =
      if is_some (get "digest" fs)
      then some (is_text (receipt_digest (without_digest fs)) (get "digest" fs))
      else none

  abbrev pub shown_differs : Option Json → String → Bool
  shown_differs none s = false
  shown_differs (some v) s = not (str_eq (show v) s)

  -- `head_sha` is None, or a text that may be empty.
  unfoldable pub moved : Option String → Fields → Option Bool
  moved none snapshot = none
  moved (some head) snapshot =
      if not (str_eq head "") && truthy_value (get "commit_sha" snapshot)
      then some (shown_differs (get "commit_sha" snapshot) head)
      else none

  unfoldable pub bind_snapshot : String → Option String → Fields → Fields → PreBinding
  unfolding kind_wrong scope_wrong structured foreign_root verify_digest moved
  bind_snapshot repo_root head_sha fs snapshot =
      let foreign = foreign_root repo_root snapshot in
      let digest = verify_digest fs in
      let head = moved head_sha snapshot in
      let bad = kind_wrong fs || scope_wrong fs || foreign || is_false digest in
      let identified = truthy_value (get "repo_root" snapshot) in
      binding
        (if bad
          then incompatible
          else if not (is_true digest) || not (structured fs) || not identified
          then unverified
          else bound)
        (reason_if (kind_wrong fs) wrong_kind
          ++ reason_if (scope_wrong fs) wrong_proof_scope
          ++ reason_if foreign foreign_repository
          ++ reason_if (is_false digest) digest_mismatch
          ++ reason_if (is_true head) head_has_moved
          ++ reason_if (not (structured fs)) no_markers
          ++ reason_if (not identified && not bad) no_repository_identity)
        head digest

  abbrev pub with_snapshot : String → Option String → Fields → Option Fields → Option PreBinding
  with_snapshot repo_root head_sha fs none = none
  with_snapshot repo_root head_sha fs (some snapshot) =
      some (bind_snapshot repo_root head_sha fs snapshot)

  unfoldable pub pre_receipt_binding : Option Json → String → Option String → Option PreBinding
  unfolding bind_snapshot
  pre_receipt_binding none repo_root head_sha = some (binding missing [] none none)
  pre_receipt_binding (some null) repo_root head_sha = some (binding missing [] none none)
  pre_receipt_binding (some (object fs)) repo_root head_sha =
      with_snapshot repo_root head_sha fs (snapshot_of (get "snapshot" fs))
  pre_receipt_binding (some _) repo_root head_sha =
      some (binding incompatible (not_an_object ∷ []) none none)
