-- ===== src/Assurance/SafeCommit.antt =====
-- src/sot_graph/assurance/resolution.py: `safe_commit_verdict`. A reason stands for its message.
-- The `inputs` echo keeps what the reducer computed; the four keys that copy the test block into
-- it are read off `tests`.
pub mod Judged
pub mod Claims
mod Tests
use sotgraph.Prelude.{
  ℕ, zero, suc, pos, Bool, true, false, not, ◌||◌, ◌&&◌, Option, none, some, List, [], ◌∷◌, ◌++◌,
  String, ltb, ◌==◌, length, nonempty, keep, any, if◌then◌else◌, is_some, str_eq,
}
use sotgraph.Assurance.TestReport.{
  Json, null, boolean, number, decimal, text, array, object, Items, nil, cons, Fields, get, is_text,
  ReportError, valid, invalid, Block, Evidence, passed, computed, validate_test_results, end, field,
}

pub data Fault : Type 0 where
  key_error : String → Fault
  type_error : Fault

pub data Result (A : Type 0) : Type 0 where
  ok : A → Result A
  fault : Fault → Result A

infixl 5 ◌>>=◌
abbrev pub ◌>>=◌ : {A B : Type 0} → Result A → (A → Result B) → Result B
ok got >>= next = next got
fault why >>= next = fault why

pub data BlockReason : Type 0 where
  dangling : ℕ → BlockReason
  untrusted_status : String → BlockReason
  tests_failed : Json → BlockReason
  breaking_with_callers : ℕ → BlockReason

pub data WarnReason : Type 0 where
  assurance_partial : WarnReason
  report_invalid : List ReportError → WarnReason
  passed_invalid : Json → WarnReason
  untouched_callers untouched_tests debt breaking_no_callers public_removed : ℕ → WarnReason
  binding_incompatible : List String → WarnReason

pub record Reasons : Type 0 where
  pub blocks : List BlockReason
  pub warns : List WarnReason

unfoldable pub block_if : Bool → BlockReason → Reasons → Reasons
block_if b x r = if b then record r { blocks = r.blocks ++ x ∷ [] } else r

unfoldable pub warn_if : Bool → WarnReason → Reasons → Reasons
warn_if b x r = if b then record r { warns = r.warns ++ x ∷ [] } else r

-- What `disposition_matrix` reports of a family, cut down to the list that is read here.
pub record Dispositions : Type 0 where
  pub attached : Bool
  pub callers : List String
  pub tests : List String

pub record SignatureChange : Type 0 where
  pub classification : String
  pub callers_at_risk : List String

pub record SemanticBreaks : Type 0 where
  pub signature_changes : List SignatureChange
  pub public_symbols_removed : List String

pub record Binding : Type 0 where
  pub status : String
  pub reasons : List String

-- _SAFE_COMMIT_BLOCK_STATUSES
abbrev pub block_statuses : List String
block_statuses = "ABSTAINED" ∷ "UNVERIFIABLE" ∷ "CONFLICTED" ∷ "STALE" ∷ []

abbrev pub is_blocking : String → Bool
is_blocking status = any (str_eq status) block_statuses

-- Python's truth value; a float is zero when it is written "0.0" or "-0.0".
abbrev pub truthy : Json → Bool
truthy null = false
truthy (boolean b) = b
truthy (number (pos zero)) = false
truthy (number _) = true
truthy (decimal s) = not (str_eq s "0.0" || str_eq s "-0.0")
truthy (text s) = not (str_eq s "")
truthy (array nil) = false
truthy (array (cons _ _)) = true
truthy (object end) = false
truthy (object (field _ _ _)) = true

abbrev all_text : Items → Bool
all_text nil = true
all_text (cons (text s) vs) = all_text vs
all_text (cons _ vs) = false

-- whether "; ".join takes the value
abbrev pub joinable : Json → Bool
joinable (array vs) = all_text vs
joinable (text s) = true
joinable (object fs) = true
joinable _ = false

unfoldable pub status_step : String → Reasons → Reasons
unfolding block_if warn_if
status_step status r =
    if is_blocking status
    then block_if true (untrusted_status status) r
    else warn_if (str_eq status "PARTIAL") assurance_partial r

abbrev pub passed_errors : Option Json → Reasons → Result Reasons
passed_errors none r = fault (key_error "errors")
passed_errors (some v) r =
    if joinable v then ok (warn_if true (passed_invalid v) r) else fault type_error

abbrev pub passed_failed : Option Json → Reasons → Result Reasons
passed_failed none r = fault (key_error "effective_failed")
passed_failed (some v) r = ok (block_if (truthy v) (tests_failed v) r)

-- `if tests["effective_failed"]:` of a block that the validator built
abbrev pub computed_failed : Option ℕ → Reasons → Reasons
computed_failed none r = r
computed_failed (some n) r = block_if (ltb 0 n) (tests_failed (number (pos n))) r

unfoldable pub evidence_step : Option Evidence → Reasons → Result Reasons
unfolding block_if warn_if
evidence_step none r = ok r
evidence_step (some (passed fs)) r =
    if is_text "invalid" (get "validation" fs)
    then passed_errors (get "errors" fs) r
    else passed_failed (get "effective_failed" fs) r
evidence_step (some (computed b)) r = elim b.validation [
  | invalid ↦ ok (warn_if true (report_invalid b.errors) r)
  | valid ↦ ok (computed_failed b.effective_failed r)
]

-- The two counts are 0 unless a PRE receipt is attached.
abbrev pub untouched : Bool → List String → ℕ
untouched attached paths = if attached then length paths else 0

abbrev pub is_breaking : SignatureChange → Bool
is_breaking ch = str_eq ch.classification "breaking"

abbrev pub with_callers : List SignatureChange → ℕ
with_callers chs = length (keep (λ ch. is_breaking ch && nonempty ch.callers_at_risk) chs)

abbrev pub without_callers : List SignatureChange → ℕ
without_callers chs = length (keep (λ ch. is_breaking ch && not (nonempty ch.callers_at_risk)) chs)

unfoldable pub semantic_step : Option SemanticBreaks → Reasons → Reasons
unfolding block_if warn_if
semantic_step none r = r
semantic_step (some s) r =
    let a = with_callers s.signature_changes in
    let b = without_callers s.signature_changes in
    let c = length s.public_symbols_removed in
    warn_if (ltb 0 c) (public_removed c)
      (warn_if (ltb 0 b) (breaking_no_callers b) (block_if (ltb 0 a) (breaking_with_callers a) r))

-- `str((pre_receipt_binding or {}).get("status") or "missing")`
abbrev pub binding_status : Option Binding → String
binding_status none = "missing"
binding_status (some b) = if str_eq b.status "" then "missing" else b.status

abbrev pub binding_reasons : Option Binding → List String
binding_reasons none = []
binding_reasons (some b) = b.reasons

pub data Verdict : Type 0 where
  pass warn block : Verdict

pub record Inputs : Type 0 where
  pub assurance_status : String
  pub dangling_count : ℕ
  pub debt_introduced : ℕ
  pub dispositions : Dispositions
  pub test_results : Option Json
  pub semantic_breaks : Option SemanticBreaks
  pub binding : Option Binding

pub record Report : Type 0 where
  pub verdict : Verdict
  pub block_reasons : List BlockReason
  pub warn_reasons : List WarnReason
  pub tests : Option Evidence
  pub untouched_callers : ℕ
  pub untouched_tests : ℕ
  pub tests_verified_execution : Bool
  pub test_results_attached : Bool
  pub pre_receipt_binding : String

abbrev pub judge : Reasons → Verdict
judge r = if nonempty r.blocks then block else if nonempty r.warns then warn else pass

module _ (show : Json → String) where
  abbrev pub evidence : Option Json → Option Evidence
  evidence none = none
  evidence (some v) = some (validate_test_results show v)

  unfoldable pub finish_steps : Inputs → Reasons → Report
  finish_steps i r =
      let d = i.dispositions in
      let callers = untouched d.attached d.callers in
      let tests = untouched d.attached d.tests in
      let r1 = warn_if (ltb 0 callers) (untouched_callers callers) r in
      let r2 = warn_if (ltb 0 tests) (untouched_tests tests) r1 in
      let r3 = warn_if (ltb 0 i.debt_introduced) (debt i.debt_introduced) r2 in
      let r4 = semantic_step i.semantic_breaks r3 in
      let r5 =
        warn_if (str_eq (binding_status i.binding) "incompatible")
          (binding_incompatible (binding_reasons i.binding)) r4 in
      record {
        verdict = judge r5;
        block_reasons = r5.blocks;
        warn_reasons = r5.warns;
        tests = evidence i.test_results;
        untouched_callers = callers;
        untouched_tests = tests;
        tests_verified_execution = false;
        test_results_attached = is_some i.test_results;
        pre_receipt_binding = binding_status i.binding;
      }

  unfoldable pub safe_commit_verdict : Inputs → Result Report
  safe_commit_verdict i = do
    let start : Reasons = record { blocks = []; warns = [] }
    r ← evidence_step (evidence i.test_results) (
        status_step i.assurance_status
          (block_if (ltb 0 i.dangling_count) (dangling i.dangling_count) start))
    ok (finish_steps i r)
