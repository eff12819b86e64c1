-- ===== src/Assurance/SafeCommit/Tests.antt =====
-- The gate at concrete inputs.
use sotgraph.Prelude.{pos, ◌≤◌, ◌≡◌, ◌≢◌, refl, true, false, none, some, [], String}
use sotgraph.Assurance.TestReport.{
  Json, number, text, array, object, nil, cons, Fields, field, end, validate_test_results,
}
use sotgraph.Assurance.SafeCommit.{
  ok, fault, key_error, Inputs, Report, pass, status_step, evidence_step, semantic_step,
  finish_steps, block_if, warn_if, safe_commit_verdict,
}
use sotgraph.Assurance.SafeCommit.Judged.{must_block, must_warn, escalate, verdict-judged}
use sotgraph.Assurance.SafeCommit.Claims.{
  by_label, rank, claimed-failure_stops, report-never_lowers, forged-block_unaudited,
}

abbrev show_text : Json → String
show_text (text s) = s
show_text _ = "?"

abbrev quiet : Inputs
quiet = record {
  assurance_status = "ASSURED_WITHIN_SCOPE";
  dangling_count = 0;
  debt_introduced = 0;
  dispositions = record { attached = false; callers = []; tests = [] };
  test_results = none;
  semantic_breaks = none;
  binding = none;
}

abbrev quiet_report : Report
quiet_report = record {
  verdict = pass;
  block_reasons = [];
  warn_reasons = [];
  tests = none;
  untouched_callers = 0;
  untouched_tests = 0;
  tests_verified_execution = false;
  test_results_attached = false;
  pre_receipt_binding = "missing";
}

quiet-pass : safe_commit_verdict show_text quiet ≡ ok quiet_report
unfolding safe_commit_verdict status_step evidence_step semantic_step finish_steps block_if
quiet-pass = refl

abbrev labelled : Fields
labelled = field "failures" (array (cons (text "t1") nil)) end

abbrev failing : Inputs
failing = record quiet { test_results = some (object labelled) }

claimed-failure_stops_example :
    (rep : Report) × (safe_commit_verdict show_text failing ≡ ok rep) × (rep.verdict ≢ pass)
claimed-failure_stops_example =
    claimed-failure_stops show_text failing labelled refl refl (by_label (text "t1") nil refl)

verdict-judged_example :
    quiet_report.verdict ≡ escalate (must_block show_text quiet) (must_warn show_text quiet)
verdict-judged_example = verdict-judged show_text quiet quiet_report quiet-pass

-- A dictionary that only looks like the validator's block, and lists a failure.
abbrev forged : Fields
forged = field "provenance" (text "caller_reported") (
    field "validation" (text "valid") (
      field "effective_failed" (number (pos 0))
        (field "failures" (array (cons (text "t1") nil)) end)))

abbrev forging : Inputs
forging = record quiet { test_results = some (object forged) }

abbrev forged_report : Report
forged_report = record quiet_report {
  tests = some (validate_test_results show_text (object forged));
  test_results_attached = true;
}

forging-pass : safe_commit_verdict show_text forging ≡ ok forged_report
unfolding safe_commit_verdict status_step evidence_step semantic_step finish_steps block_if warn_if
    validate_test_results
forging-pass = refl

forged-block_unaudited_example : forged_report.verdict ≡ quiet_report.verdict
forged-block_unaudited_example =
    forged-block_unaudited show_text forging forged (number (pos 0)) forged_report quiet_report refl
      refl refl refl refl forging-pass quiet-pass

report-never_lowers_example : rank quiet_report.verdict ≤ rank forged_report.verdict
report-never_lowers_example =
    report-never_lowers show_text forging forged_report quiet_report forging-pass quiet-pass

-- Without `effective_failed` the same dictionary raises KeyError.
headless_faults :
    safe_commit_verdict show_text (record quiet {
      test_results = some (
          object
            (field "provenance" (text "caller_reported") (field "validation" (text "valid") end)));
    })
    ≡ fault (key_error "effective_failed")
unfolding safe_commit_verdict status_step evidence_step block_if validate_test_results
headless_faults = refl
