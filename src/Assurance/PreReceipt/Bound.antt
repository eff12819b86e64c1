-- ===== src/Assurance/PreReceipt/Bound.antt =====
-- When predictions may be used as evidence (src/sot_graph/assurance/resolution.py).
use sotgraph.Prelude.{
  ◌≡◌, ◌↔◌, ◌⊎◌, ap, str_eq, str_eq_refl, eq_iff, ◌&&◌, Bool-cases, refl, Bool, true, false, not,
  ◌||◌, Option, none, some, is_some, String, arith, if◌then◌else◌, Option-cases, inl, inr,
}
use sotgraph.Assurance.TestReport.{
  Json, null, boolean, number, decimal, text, array, object, Fields, get, is_text,
}
use sotgraph.Assurance.SafeCommit.{truthy}
use sotgraph.Assurance.PreReceipt.{
  present, BindingStatus, bound, unverified, incompatible, PreBinding, truthy_value, snapshot_of,
  without_digest, is_true, is_false, kind_wrong, scope_wrong, structured, foreign_root,
  verify_digest, pre_receipt_binding,
}

-- The audit returned this status.
abbrev pub HasStatus : Option PreBinding → BindingStatus → Type 0
HasStatus none s = false ≡ true
HasStatus (some b) s = b.status ≡ s

is_true-some : (b : Bool) → is_true (some b) ≡ b
is_true-some true = refl
is_true-some false = refl

neither : (o : Option Bool) → is_true o ≡ true → is_false o ≡ false
neither none h = cc
neither (some true) h = refl
neither (some false) h = cc

status-bound_iff :
    (kind scope foreign has_markers identified t : Bool) (digest : Option Bool)
    → is_true digest ≡ t
    → ((if kind || scope || foreign || is_false digest
          then incompatible
          else if not (is_true digest) || not has_markers || not identified
          then unverified
          else bound)
        ≡ bound)
      ↔ ((t ≡ true)
          × (has_markers ≡ true)
          × (kind ≡ false)
          × (scope ≡ false)
          × (identified ≡ true)
          × (foreign ≡ false))
status-bound_iff kind scope foreign has_markers identified t digest e =
    (λ h. ground arith, λ h. ground (arith, neither digest))

-- An entry that is missing or null.
abbrev pub IsAbsent : String → Fields → Type 0
IsAbsent key fs = (get key fs ≡ none) ⊎ (get key fs ≡ some null)

-- An entry that holds no other value than this text.
abbrev pub HoldsOnly : String → String → Fields → Type 0
HoldsOnly key value fs = IsAbsent key fs ⊎ (get key fs ≡ some (text value))

present-absent : (o : Option Json) → present o ≡ false → (o ≡ none) ⊎ (o ≡ some null)
present-absent none h = inl refl
present-absent (some null) h = inr refl
present-absent (some (boolean b)) h = ground arith
present-absent (some (number n)) h = ground arith
present-absent (some (decimal t)) h = ground arith
present-absent (some (text t)) h = ground arith
present-absent (some (array xs)) h = ground arith
present-absent (some (object fs)) h = ground arith

absent-present : (o : Option Json) → (o ≡ none) ⊎ (o ≡ some null) → present o ≡ false
absent-present o (inl e) = rw e refl
absent-present o (inr e) = rw e refl

text-held : (t : String) (o : Option Json) → is_text t o ≡ true → o ≡ some (text t)
text-held t none h = ground arith
text-held t (some null) h = ground arith
text-held t (some (boolean b)) h = ground arith
text-held t (some (number n)) h = ground arith
text-held t (some (decimal u)) h = ground arith
text-held t (some (text u)) h = ap (λ x. some (text x)) ((eq_iff u t).0 h)
text-held t (some (array xs)) h = ground arith
text-held t (some (object fs)) h = ground arith

held-text : (t : String) (o : Option Json) → o ≡ some (text t) → is_text t o ≡ true
held-text t o e = rw e (str_eq_refl t)

from_right :
    (t : String) (o : Option Json)
    → (present o && not (is_text t o)) ≡ false
    → ((o ≡ none) ⊎ (o ≡ some null)) ⊎ (o ≡ some (text t))
from_right t o h = elim (Bool-cases (is_text t o)) [
  | inl e ↦ inr (text-held t o e)
  | inr e ↦ inl (present-absent o (ground arith))
]

to_right :
    (t : String) (o : Option Json)
    → ((o ≡ none) ⊎ (o ≡ some null)) ⊎ (o ≡ some (text t))
    → (present o && not (is_text t o)) ≡ false
to_right t o (inl a) = let e = absent-present o a in ground arith
to_right t o (inr e) = let k = held-text t o e in ground arith

to_marked :
    (o q : Option Json)
    → ¬ (((o ≡ none) ⊎ (o ≡ some null)) × ((q ≡ none) ⊎ (q ≡ some null)))
    → (present o || present q) ≡ true
to_marked o q n = elim (Bool-cases (present o || present q)) [
  | inl e ↦ e
  | inr e ↦ absurd (n (present-absent o (ground arith), present-absent q (ground arith)))
]

from_marked :
    (o q : Option Json)
    → (present o || present q) ≡ true
    → ¬ (((o ≡ none) ⊎ (o ≡ some null)) × ((q ≡ none) ⊎ (q ≡ some null)))
from_marked o q e (a, b) = let f = absent-present o a in let g = absent-present q b in ground arith

named-value :
    (o : Option Json) → truthy_value o ≡ true → (v : Json) × (o ≡ some v) × (truthy v ≡ true)
named-value none h = ground arith
named-value (some v) h = (v, refl, h)

from_here :
    (realpath : String → String) (given root : String)
    → (not (str_eq root "") && not (str_eq (realpath given) (realpath root))) ≡ false
    → (root ≡ "") ⊎ (realpath given ≡ realpath root)
from_here realpath given root h = elim (Bool-cases (str_eq root "")) [
  | inl e ↦ inl ((eq_iff root "").0 e)
  | inr e ↦ inr ((eq_iff (realpath given) (realpath root)).0 (ground arith))
]

to_here :
    (realpath : String → String) (given root : String)
    → (root ≡ "") ⊎ (realpath given ≡ realpath root)
    → (not (str_eq root "") && not (str_eq (realpath given) (realpath root))) ≡ false
to_here realpath given root (inl e) = rw e refl
to_here realpath given root (inr e) =
    let k = (eq_iff (realpath given) (realpath root)).1 e in ground arith

module _ (show : Json → String) (realpath : String → String) (receipt_digest : Fields → String)
    (repo_root : String) (fs snapshot : Fields) where
  pub record IsBinding : Type 0 where
    pub same_digest : get "digest" fs ≡ some (text (receipt_digest (without_digest fs)))
    pub right_kind : HoldsOnly "kind" "scope" fs
    pub right_scope : HoldsOnly "proof_scope" "pre_change_only" fs
    pub is_marked : ¬ (IsAbsent "kind" fs × IsAbsent "proof_scope" fs)
    pub is_named :
        (v : Json) × (get "repo_root" snapshot ≡ some v)
        × (truthy v ≡ true)
        × ((repo_root ≡ "") ⊎ (realpath (show v) ≡ realpath repo_root))

  abbrev Tests : Type 0
  Tests =
      (is_text (receipt_digest (without_digest fs)) (get "digest" fs) ≡ true)
      × (structured fs ≡ true)
      × (kind_wrong fs ≡ false)
      × (scope_wrong fs ≡ false)
      × (truthy_value (get "repo_root" snapshot) ≡ true)
      × (foreign_root show realpath receipt_digest repo_root snapshot ≡ false)

  here_value :
      (v : Json)
      → get "repo_root" snapshot ≡ some v
      → truthy v ≡ true
      → foreign_root show realpath receipt_digest repo_root snapshot ≡ false
      → (not (str_eq repo_root "") && not (str_eq (realpath (show v)) (realpath repo_root))) ≡ false
  unfolding foreign_root
  here_value v e t h = let k = rw (e) at h in ground arith

  value_here :
      (v : Json)
      → get "repo_root" snapshot ≡ some v
      → (not (str_eq repo_root "") && not (str_eq (realpath (show v)) (realpath repo_root))) ≡ false
      → foreign_root show realpath receipt_digest repo_root snapshot ≡ false
  unfolding foreign_root
  value_here v e h = rw e (ground arith)

  from_tests : Tests → IsBinding
  unfolding structured kind_wrong scope_wrong foreign_root
  from_tests (digest, marked, kind, scope, named, here) =
      let (v, e, t) = named-value (get "repo_root" snapshot) named in
      record {
        same_digest = text-held (receipt_digest (without_digest fs)) (get "digest" fs) digest;
        right_kind = from_right "scope" (get "kind" fs) kind;
        right_scope = from_right "pre_change_only" (get "proof_scope" fs) scope;
        is_marked = from_marked (get "kind" fs) (get "proof_scope" fs) marked;
        is_named = (v, e, t, from_here realpath (show v) repo_root (here_value v e t here));
      }

  to_tests : IsBinding → Tests
  unfolding structured kind_wrong scope_wrong foreign_root
  to_tests g =
      let (v, e, t, here) = g.is_named in
      (
        held-text (receipt_digest (without_digest fs)) (get "digest" fs) g.same_digest,
        to_marked (get "kind" fs) (get "proof_scope" fs) g.is_marked,
        to_right "scope" (get "kind" fs) g.right_kind,
        to_right "pre_change_only" (get "proof_scope" fs) g.right_scope,
        rw e t,
        value_here v e (to_here realpath (show v) repo_root here),
      )

module _ (show : Json → String) (realpath : String → String) (receipt_digest : Fields → String)
    (repo_root : String) (head_sha : Option String) (fs snapshot : Fields)
    (known : snapshot_of (get "snapshot" fs) ≡ some snapshot) where
  abbrev pub result : Option PreBinding
  result = pre_receipt_binding show realpath receipt_digest (some (object fs)) repo_root head_sha

  is_true-verify_digest :
      is_true (verify_digest show realpath receipt_digest fs)
      ≡ is_text (receipt_digest (without_digest fs)) (get "digest" fs)
  unfolding verify_digest
  is_true-verify_digest = elim (Option-cases (get "digest" fs)) [
    | inl e ↦ rw e refl
    | inr (v, e) ↦ rw e (is_true-some (is_text (receipt_digest (without_digest fs)) (some v)))
  ]

  tests-bound_iff : HasStatus result bound ↔ (
      (is_text (receipt_digest (without_digest fs)) (get "digest" fs) ≡ true)
      × (structured fs ≡ true)
      × (kind_wrong fs ≡ false)
      × (scope_wrong fs ≡ false)
      × (truthy_value (get "repo_root" snapshot) ≡ true)
      × (foreign_root show realpath receipt_digest repo_root snapshot ≡ false))
  unfolding pre_receipt_binding
  tests-bound_iff = rw known (
      status-bound_iff _ _ _ _ _ _ (verify_digest show realpath receipt_digest fs)
        is_true-verify_digest)

  -- A payload with a readable snapshot is bound exactly when it carries the digest that is computed of
  -- its other entries; its kind and its proof scope, where they are there and not null, are `scope`
  -- and `pre_change_only`, and one of them is there; and its snapshot names a repository, whose real
  -- path is that of this repository unless no path of this one is given.
  pub binding-bound_iff :
      HasStatus result bound ↔ IsBinding show realpath receipt_digest repo_root fs snapshot
  unfolding pre_receipt_binding
  binding-bound_iff = (
    λ h. from_tests show realpath receipt_digest repo_root fs snapshot (tests-bound_iff.0 h),
    λ g. tests-bound_iff.1 (to_tests show realpath receipt_digest repo_root fs snapshot g),
  )

  -- A payload with a readable snapshot whose digest is not the one computed of its other entries is
  -- incompatible, whatever else it holds.
  pub tampered-incompatible :
      is_some (get "digest" fs) ≡ true
      → is_text (receipt_digest (without_digest fs)) (get "digest" fs) ≡ false
      → HasStatus result incompatible
  unfolding pre_receipt_binding verify_digest
  tampered-incompatible d e = rw known (ground arith)
