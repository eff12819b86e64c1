-- ===== src/Assurance/SafeCommit/Claims.antt =====
-- What a caller's test report can and cannot do to the verdict
-- (src/sot_graph/assurance/resolution.py).
use sotgraph.Prelude.{
  ℕ, suc, pos, ◌≤◌, ◌≡◌, ◌≢◌, refl, sym, subst, Bool, true, false, ◌||◌, Option, none, some, List,
  [], ◌∷◌, String, arith, ltb, if◌then◌else◌,
}
use sotgraph.Assurance.TestReport.{
  Json, number, array, object, cons, Items, Fields, get, is_text, is_block, Block, Validation,
  valid, invalid, ReportError, not_object, invalid_block, Evidence, computed, settle, checked,
  validate_test_results,
}
use sotgraph.Assurance.SafeCommit.{
  ok, Reasons, block_if, dangling, status_step, evidence_step, computed_failed, warn_if,
  report_invalid, truthy, Verdict, pass, warn, block, Inputs, Report, evidence, finish_steps,
  safe_commit_verdict,
}
use sotgraph.Assurance.SafeCommit.Judged.{
  claims_failure, is_refused, verdict-judged, surviving, hard_block, states_partial, is_residual,
}

-- The dictionary states a positive failed count, or lists a failure.
pub data ClaimsFailure (fs : Fields) : Type 0 where
  by_count : (n : ℕ) → get "failed" fs ≡ some (number (pos (suc n))) → ClaimsFailure fs
  by_label :
      (v : Json) (vs : Items) → get "failures" fs ≡ some (array (cons v vs)) → ClaimsFailure fs

-- The evidence counts against the change.
abbrev adverse : Option Evidence → Bool
adverse e = claims_failure e || is_refused e

settle-count :
    (es : List ReportError) (ran : Option ℕ) (n : ℕ) (labels : List String)
    → adverse (some (computed (settle es ran (some (suc n)) labels))) ≡ true
settle-count es ran n labels = ground arith

settle-label :
    (es : List ReportError) (ran failed : Option ℕ) (l : String) (labels : List String)
    → adverse (some (computed (settle es ran failed (l ∷ labels)))) ≡ true
settle-label es ran failed l labels = ground arith

module _ (b : Block) (r : Reasons) where
  computed_total_at :
      (v : Validation)
      → b.validation ≡ v
      → (r' : Reasons) × (evidence_step (some (computed b)) r ≡ ok r')
  unfolding evidence_step
  computed_total_at valid e = (computed_failed b.effective_failed r, rw e)
  computed_total_at invalid e = (warn_if true (report_invalid b.errors) r, rw e)

  computed_total : (r' : Reasons) × (evidence_step (some (computed b)) r ≡ ok r')
  computed_total = computed_total_at b.validation refl

not_pass :
    (a c s p d q : Bool)
    → (c || d) ≡ true
    → (if a || (c || s) then block else if (p || d) || q then warn else pass) ≢ pass
not_pass a c s p d q h e = ground arith

abbrev pub rank : Verdict → ℕ
rank pass = 0
rank warn = 1
rank block = 2

rank-escalate_mono :
    (a c s p d q : Bool)
    → rank (if a || (false || s) then block else if (p || false) || q then warn else pass)
      ≤ rank (if a || (c || s) then block else if (p || d) || q then warn else pass)
rank-escalate_mono a c s p d q = ground arith

module _ (show : Json → String) where
  checked-adverse :
      (fs : Fields) → ClaimsFailure fs → adverse (some (computed (checked show fs))) ≡ true
  unfolding checked
  checked-adverse fs (by_count n e) = rw e (search settle-count)
  checked-adverse fs (by_label v vs e) = rw e (search settle-label)

  -- Reports that are no validated block, and no report at all.
  abbrev pub IsAudited : Option Json → Type 0
  IsAudited none = Unit
  IsAudited (some (object fs)) = is_block fs ≡ false
  IsAudited (some _) = Unit

  evidence_total :
      (o : Option Json)
      → IsAudited o
      → (r : Reasons) → (r' : Reasons) × (evidence_step (evidence show o) r ≡ ok r')
  unfolding evidence_step validate_test_results
  evidence_total none h r = (r, refl)
  evidence_total (some (object fs)) h r = rw h (computed_total (checked show fs) r)
  evidence_total (some _) h r = computed_total (invalid_block (not_object ∷ [])) r

  total :
      (i : Inputs)
      → IsAudited i.test_results
      → (rep : Report) × (safe_commit_verdict show i ≡ ok rep)
  unfolding safe_commit_verdict
  total i h =
      let (r, e) = evidence_total i.test_results h (
        status_step i.assurance_status (
          block_if (ltb 0 i.dangling_count) (dangling i.dangling_count)
            (record { blocks = []; warns = [] }))) in
      (finish_steps show i r, rw e)

  audited-adverse :
      (fs : Fields)
      → is_block fs ≡ false
      → ClaimsFailure fs
      → adverse (evidence show (some (object fs))) ≡ true
  unfolding validate_test_results
  audited-adverse fs h c = rw h (checked-adverse fs c)

  -- A dictionary that is not already a validated block and that claims a failure, by a positive
  -- count or by a label, always gets a verdict, and that verdict is not `pass`.
  pub claimed-failure_stops :
      (i : Inputs) (fs : Fields)
      → i.test_results ≡ some (object fs)
      → is_block fs ≡ false
      → ClaimsFailure fs
      → (rep : Report) × (safe_commit_verdict show i ≡ ok rep) × (rep.verdict ≢ pass)
  claimed-failure_stops i fs e h c =
      let (rep, got) = total i (subst IsAudited (sym e) h) in
      (
        rep,
        got,
        rw (verdict-judged show i rep got) (
            not_pass (hard_block i) (claims_failure (evidence show i.test_results))
              (ltb 0 (surviving i.semantic_breaks)) (states_partial i)
              (is_refused (evidence show i.test_results)) (is_residual i)
              (rw e (audited-adverse fs h c))),
      )

  -- Attaching a test report, whatever it holds, never lowers a verdict that is returned.
  pub report-never_lowers :
      (i : Inputs) (rep bare : Report)
      → safe_commit_verdict show i ≡ ok rep
      → safe_commit_verdict show (record i { test_results = none }) ≡ ok bare
      → rank bare.verdict ≤ rank rep.verdict
  report-never_lowers i rep bare h k =
      rw
        (verdict-judged show i rep h, verdict-judged show (record i { test_results = none }) bare k)
        (rank-escalate_mono (hard_block i) (claims_failure (evidence show i.test_results))
          (ltb 0 (surviving i.semantic_breaks)) (states_partial i)
          (is_refused (evidence show i.test_results)) (is_residual i))

  -- A caller's dictionary that carries the two header entries of a valid block and a falsy
  -- `effective_failed` leaves the verdict as with no report, whatever else it holds.
  pub forged-block_unaudited :
      (i : Inputs) (fs : Fields) (v : Json) (rep bare : Report)
      → i.test_results ≡ some (object fs)
      → is_block fs ≡ true
      → is_text "invalid" (get "validation" fs) ≡ false
      → get "effective_failed" fs ≡ some v
      → truthy v ≡ false
      → safe_commit_verdict show i ≡ ok rep
      → safe_commit_verdict show (record i { test_results = none }) ≡ ok bare
      → rep.verdict ≡ bare.verdict
  unfolding validate_test_results
  forged-block_unaudited i fs v rep bare e b n g t h k = rw (
    verdict-judged show i rep h,
    verdict-judged show (record i { test_results = none }) bare k,
    e,
    b,
    n,
    g,
    t,
  )
