-- ===== src/Assurance/SafeCommit/Judged.antt =====
-- When `safe_commit_verdict` of src/sot_graph/assurance/resolution.py blocks, warns and passes.
use sotgraph.Prelude.{
  ℕ, ◌≡◌, refl, ap, ◌∙◌, Bool, true, false, not, ◌||◌, ◌&&◌, Option, none, some, List, [], ◌∷◌,
  String, arith, ltb, nonempty, if◌then◌else◌, str_eq, length,
}
use sotgraph.Assurance.TestReport.{
  Json, get, is_text, valid, invalid, Validation, Evidence, passed, computed,
}
use sotgraph.Assurance.SafeCommit.{
  Result, ok, fault, ◌>>=◌, dangling, BlockReason, WarnReason, Reasons, block_if, warn_if,
  SemanticBreaks, is_blocking, truthy, status_step, evidence_step, untouched, with_callers,
  without_callers, semantic_step, binding_status, Verdict, pass, warn, block, Inputs, Report, judge,
  evidence, finish_steps, safe_commit_verdict,
}

or_false : (a : Bool) → (a || false) ≡ a
or_false a = ground arith

or_assoc : (a b c : Bool) → ((a || b) || c) ≡ (a || (b || c))
or_assoc a b c = ground arith

module _ (b : Bool) (r : Reasons) where
  blocks-block_if : (x : BlockReason) → nonempty (block_if b x r).blocks ≡ (nonempty r.blocks || b)
  unfolding block_if
  blocks-block_if x = ground arith

  warns-block_if : (x : BlockReason) → nonempty (block_if b x r).warns ≡ nonempty r.warns
  unfolding block_if
  warns-block_if x = ground arith

  blocks-warn_if : (x : WarnReason) → nonempty (warn_if b x r).blocks ≡ nonempty r.blocks
  unfolding warn_if
  blocks-warn_if x = ground arith

  warns-warn_if : (x : WarnReason) → nonempty (warn_if b x r).warns ≡ (nonempty r.warns || b)
  unfolding warn_if
  warns-warn_if x = ground arith

ruleset counts = (blocks-block_if, warns-block_if, blocks-warn_if, warns-warn_if)

abbrev pub truthy? : Option Json → Bool
truthy? none = false
truthy? (some v) = truthy v

abbrev pub is_valid : Validation → Bool
is_valid valid = true
is_valid invalid = false

abbrev pub positive : Option ℕ → Bool
positive none = false
positive (some n) = ltb 0 n

-- The attached test evidence claims a failure.
abbrev pub claims_failure : Option Evidence → Bool
claims_failure none = false
claims_failure (some (passed fs)) =
    not (is_text "invalid" (get "validation" fs)) && truthy? (get "effective_failed" fs)
claims_failure (some (computed b)) = is_valid b.validation && positive b.effective_failed

-- The attached test report was found invalid.
abbrev pub is_refused : Option Evidence → Bool
is_refused none = false
is_refused (some (passed fs)) = is_text "invalid" (get "validation" fs)
is_refused (some (computed b)) = not (is_valid b.validation)

-- What an evidence step adds: `b` tells of blocking, `w` of warning.
record Adds (b w : Bool) (r r' : Reasons) : Type 0 where
  blocking : nonempty r'.blocks ≡ (nonempty r.blocks || b)
  warning : nonempty r'.warns ≡ (nonempty r.warns || w)

status-Adds :
    (status : String) (r : Reasons)
    → Adds
        (is_blocking status)
        (not (is_blocking status) && str_eq status "PARTIAL")
        r
        (status_step status r)
unfolding status_step
status-Adds status r = ground arith

evidence-Adds :
    (e : Option Evidence) (r r' : Reasons)
    → evidence_step e r ≡ ok r'
    → Adds (claims_failure e) (is_refused e) r r'
unfolding evidence_step
evidence-Adds none r r' h = ground arith
evidence-Adds (some (passed fs)) r r' h = ground arith
evidence-Adds (some (computed b)) r r' h = ground arith

abbrev pub surviving : Option SemanticBreaks → ℕ
surviving none = 0
surviving (some s) = with_callers s.signature_changes

abbrev pub unindexed : Option SemanticBreaks → Bool
unindexed none = false
unindexed (some s) =
    ltb 0 (without_callers s.signature_changes) || nonempty s.public_symbols_removed

semantic-Adds :
    (s : Option SemanticBreaks) (r : Reasons)
    → Adds (ltb 0 (surviving s)) (unindexed s) r (semantic_step s r)
unfolding semantic_step
semantic-Adds none r = ground arith
semantic-Adds (some s) r = ground arith

ltb-length {ℓ} : {A : Type ℓ} (xs : List A) → ltb 0 (length xs) ≡ nonempty xs
ltb-length [] = refl
ltb-length (x ∷ xs) = ground arith

untouched_any :
    (a : Bool) (xs ys : List String)
    → (ltb 0 (untouched a xs) || ltb 0 (untouched a ys)) ≡ (a && (nonempty xs || nonempty ys))
untouched_any a xs ys = ground (arith, ltb-length xs, ltb-length ys)

bind-ok :
    {A B : Type 0} (step : Result A) (next : A → Result B) {made : B}
    → (step >>= next) ≡ ok made
    → (got : A) × (step ≡ ok got) × (next got ≡ ok made)
bind-ok (ok got) next h = (got, refl, h)
bind-ok (fault e) next h = cc

ok_injective : {A : Type 0} {a b : A} → ok a ≡ ok b → a ≡ b
ok_injective e = cc

escalate_lem :
    (r : Reasons) (b w : Bool)
    → nonempty r.blocks ≡ b
    → nonempty r.warns ≡ w
    → judge r ≡ (if b then block else if w then warn else pass)
escalate_lem r b w h k = ground arith

warns_regroup :
    (w c t d u x : Bool)
    → (((((w || c) || t) || d) || u) || x) ≡ (w || (((c || t) || d) || (u || x)))
warns_regroup w c t d u x = ground arith

-- The escalation pass, warn, block.
abbrev pub escalate : Bool → Bool → Verdict
escalate b w = if b then block else if w then warn else pass

abbrev pub hard_block : Inputs → Bool
hard_block i = ltb 0 i.dangling_count || is_blocking i.assurance_status

abbrev pub states_partial : Inputs → Bool
states_partial i = not (is_blocking i.assurance_status) && str_eq i.assurance_status "PARTIAL"

abbrev is_untouched : Inputs → Bool
is_untouched i =
    i.dispositions.attached && (nonempty i.dispositions.callers || nonempty i.dispositions.tests)

-- Untouched predictions, new debt, unindexed breaks, or an incompatible PRE receipt.
abbrev pub is_residual : Inputs → Bool
is_residual i =
    (is_untouched i || ltb 0 i.debt_introduced)
    || (unindexed i.semantic_breaks || str_eq (binding_status i.binding) "incompatible")

module _ (show : Json → String) where
  -- A blocking condition of the contract holds: a dangling reference, an untrusted status, a
  -- claimed test failure, or a breaking signature with surviving callers.
  abbrev pub must_block : Inputs → Bool
  must_block i =
      hard_block i
      || (claims_failure (evidence show i.test_results) || ltb 0 (surviving i.semantic_breaks))

  -- A warning condition of the contract holds.
  abbrev pub must_warn : Inputs → Bool
  must_warn i = (states_partial i || is_refused (evidence show i.test_results)) || is_residual i

  finish-judged :
      (i : Inputs) (r : Reasons) (b w : Bool)
      → nonempty r.blocks ≡ b
      → nonempty r.warns ≡ w
      → (finish_steps show i r).verdict
        ≡ escalate (b || ltb 0 (surviving i.semantic_breaks)) (
            w
            || ((is_untouched i || ltb 0 i.debt_introduced)
                || (unindexed i.semantic_breaks
                    || str_eq (binding_status i.binding) "incompatible")))
  unfolding finish_steps
  finish-judged i r b w hb hw =
      let sem = semantic-Adds i.semantic_breaks in
      escalate_lem _ _ _ (simp (counts, (sem _).blocking, hb)) (
        simp (counts, (sem _).warning, hw)
          (warns_regroup w _ _ _ _ _
            ∙ rw (
                untouched_any i.dispositions.attached i.dispositions.callers i.dispositions.tests)))

  -- Whenever a verdict is returned, it blocks exactly on a blocking condition of the contract, warns
  -- exactly when none of those but a warning condition holds, and passes exactly when none holds.
  pub verdict-judged :
      (i : Inputs) (rep : Report)
      → safe_commit_verdict show i ≡ ok rep
      → rep.verdict ≡ escalate (must_block i) (must_warn i)
  unfolding safe_commit_verdict
  verdict-judged i rep h =
      let r0 : Reasons = record { blocks = []; warns = [] } in
      let r1 = block_if (ltb 0 i.dangling_count) (dangling i.dangling_count) r0 in
      let r2 = status_step i.assurance_status r1 in
      let st = status-Adds i.assurance_status r1 in
      let (r, ran, done) =
        bind-ok (evidence_step (evidence show i.test_results) r2) (λ q. ok (finish_steps show i q))
          h in
      let ev = evidence-Adds (evidence show i.test_results) r2 r ran in
      rw (← ok_injective done) (
        finish-judged i r
          ((ltb 0 i.dangling_count || is_blocking i.assurance_status)
            || claims_failure (evidence show i.test_results))
          ((not (is_blocking i.assurance_status) && str_eq i.assurance_status "PARTIAL")
            || is_refused (evidence show i.test_results))
          (ev.blocking ∙ simp (st.blocking, counts)) (ev.warning ∙ simp (st.warning, counts))
        ∙ ap (λ (b : Bool). escalate b (must_warn i))
            (or_assoc (ltb 0 i.dangling_count || is_blocking i.assurance_status)
              (claims_failure (evidence show i.test_results))
              (ltb 0 (surviving i.semantic_breaks))))
