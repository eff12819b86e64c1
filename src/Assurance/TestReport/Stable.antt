-- ===== src/Assurance/TestReport/Stable.antt =====
-- Validation of an echoed test report (src/sot_graph/assurance/resolution.py).
use sotgraph.Prelude.{
  subst, ℕ, ◌≤◌, ◌<◌, max, ◌≡◌, refl, ap, ap₂, ◌∙◌, false, Option, none, some, List, [], ◌∷◌, ◌++◌,
  map, String, arith, length, nonempty, Bool-cases, inl, inr,
}
use sotgraph.Assurance.TestReport.{
  Json, text, object, Fields, Block, valid, invalid, passed, computed, ReportError,
  failed_exceeds_ran, invalid_block, valid_block, settle, or_zero, items, texts, contradiction,
  is_block, checked, validate_test_results, canonical, get, read_count, read_failures, unknown,
  key_errors,
}

map-texts :
    (show : Json → String)
    → ((s : String) → show (text s) ≡ s)
    → (ss : List String) → map show (items (texts ss)) ≡ ss
map-texts show h [] = refl
map-texts show h (s ∷ ss) = ap₂ ◌∷◌ (h s) (map-texts show h ss)

-- Where no run count came with the report, its failures account for the failed count.
abbrev pub IsExplained : Block → Type 0
IsExplained b = b.ran ≡ none → or_zero b.failed ≤ length b.failures

-- A failed count came alone: no run count, and fewer labels than failures claimed.
abbrev pub IsBare : Block → Type 0
IsBare b = (b.ran ≡ none) × (length b.failures < or_zero b.failed)

invalid_ne_valid : invalid ≡ valid → ⊥
invalid_ne_valid e = cc

passed_ne_computed : {fs : Fields} {b : Block} → passed fs ≡ computed b → ⊥
passed_ne_computed e = cc

computed_injective : {b c : Block} → computed b ≡ computed c → b ≡ c
computed_injective e = cc

record Settled (b : Block) : Type 0 where
  block : b ≡ valid_block b.ran b.failed b.failures
  consistent : contradiction b.ran b.failed (length b.failures) ≡ []

append-eq-nil {ℓ} : {A : Type ℓ} (xs ys : List A) → nonempty (xs ++ ys) ≡ false → ys ≡ []
append-eq-nil [] [] h = refl
append-eq-nil [] (y ∷ ys) h = cc
append-eq-nil (x ∷ xs) ys h = cc

settle-Settled :
    (es : List ReportError) (ran failed : Option ℕ) (labels : List String)
    → (settle (es ++ contradiction ran failed (length labels)) ran failed labels).validation ≡ valid
    → Settled (settle (es ++ contradiction ran failed (length labels)) ran failed labels)
settle-Settled es ran failed labels h =
    elim (Bool-cases (nonempty (es ++ contradiction ran failed (length labels)))) [
      | inl bad ↦ absurd (invalid_ne_valid (rw bad at h))
      | inr good ↦ rw good (record { block = refl; consistent = append-eq-nil es _ good })
    ]

module _ (show : Json → String) (show-text : (s : String) → show (text s) ≡ s) where
  checked-Settled : (fs : Fields) → (checked show fs).validation ≡ valid → Settled (checked show fs)
  unfolding checked
  checked-Settled fs h =
      settle-Settled
        (key_errors (unknown fs)
          ++ (read_count "ran" (get "ran" fs)).1
          ++ (read_count "failed" (get "failed" fs)).1
          ++ (read_failures (get "failures" fs)).1)
        (read_count "ran" (get "ran" fs)).0 (read_count "failed" (get "failed" fs)).0
        (map show (read_failures (get "failures" fs)).0) h

  checked-canonical :
      (b : Block)
      → checked show (canonical b)
        ≡ settle
            (contradiction
              (some (or_zero b.ran))
              (some (or_zero b.effective_failed))
              (length b.failures))
            (some (or_zero b.ran))
            (some (or_zero b.effective_failed))
            b.failures
  unfolding checked canonical
  checked-canonical b = rw (map-texts show show-text b.failures)

recheck_explained :
    (ran failed : Option ℕ) (n : ℕ)
    → contradiction ran failed n ≡ []
    → (ran ≡ none → or_zero failed ≤ n)
    → contradiction (some (or_zero ran)) (some (max (or_zero failed) n)) n ≡ []
recheck_explained ran failed n h e = ground arith

recheck_bare :
    (failed : Option ℕ) (n : ℕ)
    → n < or_zero failed
    → contradiction (some 0) (some (max (or_zero failed) n)) n
      ≡ failed_exceeds_ran (or_zero failed) 0 ∷ []
recheck_bare failed n h = ground arith

module _ (show : Json → String) (show-text : (s : String) → show (text s) ≡ s) where
  echo-explained :
      (b : Block)
      → Settled b
      → IsExplained b
      → checked show (canonical b)
        ≡ valid_block (some (or_zero b.ran)) (some (or_zero b.effective_failed)) b.failures
  echo-explained b s e =
      checked-canonical show show-text b
      ∙ rw (s.block, recheck_explained b.ran b.failed (length b.failures) s.consistent e)

  validated-Settled :
      (fs : Fields) (b : Block)
      → validate_test_results show (object fs) ≡ computed b
      → b.validation ≡ valid
      → Settled b
  unfolding validate_test_results
  validated-Settled fs b v h = elim (Bool-cases (is_block fs)) [
    | inl block ↦ absurd (passed_ne_computed (rw block at v))
    | inr other ↦
        let same = computed_injective (rw other at v) in
        subst Settled same (checked-Settled show show-text fs (rw same h))
  ]

  -- The echo of a valid report, validated again, is valid with the same effective failure count,
  -- provided that a run count came with the report or its labels account for its failures.
  pub echo-stable :
      (fs : Fields) (b : Block)
      → validate_test_results show (object fs) ≡ computed b
      → b.validation ≡ valid
      → IsExplained b
      → (b' : Block) × (validate_test_results show (object (canonical b)) ≡ computed b')
        × (b'.validation ≡ valid)
        × (b'.effective_failed ≡ b.effective_failed)
  unfolding validate_test_results canonical
  echo-stable fs b v h e =
      let s = validated-Settled fs b v h in
      (
        checked show (canonical b),
        refl,
        rw (echo-explained b s e),
        rw (echo-explained b s e, s.block) (ground arith),
      )

  -- The echo of a valid report that claims failures with neither a run count nor labels for them
  -- is refused when it is validated again, and its failures are no longer counted.
  pub echo-bare_refused :
      (fs : Fields) (b : Block)
      → validate_test_results show (object fs) ≡ computed b
      → b.validation ≡ valid
      → IsBare b
      → validate_test_results show (object (canonical b))
        ≡ computed (invalid_block (failed_exceeds_ran (or_zero b.failed) 0 ∷ []))
  unfolding validate_test_results canonical
  echo-bare_refused fs b v h (bare, few) =
      let eff = ap (λ (c : Block). c.effective_failed) (validated-Settled fs b v h).block in
      ap computed (
        checked-canonical show show-text b
        ∙ rw (eff, bare, recheck_bare b.failed (length b.failures) few))
