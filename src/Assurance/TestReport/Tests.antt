-- ===== src/Assurance/TestReport/Tests.antt =====
-- Reports as the command line and the service receive them.
use sotgraph.Prelude.{pos, ◌≡◌, refl, some, none, [], ◌∷◌, String, arith, true}
use sotgraph.Assurance.TestReport.{
  Json, text, number, boolean, array, object, cons, nil, Fields, end, field, Block, valid,
  valid_block, invalid_block, computed, not_int, validate_test_results, canonical,
}
use sotgraph.Assurance.TestReport.Stable.{echo-stable}

abbrev show_text : Json → String
show_text (text s) = s
show_text _ = "?"

abbrev two_failures : Fields
two_failures =
    field "ran" (number (pos 0))
      (field "failures" (array (cons (text "t1") (cons (text "t2") nil))) end)

abbrev count_only : Fields
count_only = field "failed" (number (pos 2)) end

two_failures-valid :
    validate_test_results show_text (object two_failures)
    ≡ computed (valid_block (some 0) none ("t1" ∷ "t2" ∷ []))
unfolding validate_test_results
two_failures-valid = refl

bool_count-invalid :
    validate_test_results show_text (object (field "failed" (boolean true) end))
    ≡ computed (invalid_block (not_int "failed" ∷ []))
unfolding validate_test_results
bool_count-invalid = refl

echo-stable_example :
    (b' : Block) × (validate_test_results show_text
        (object (canonical (valid_block (some 0) none ("t1" ∷ "t2" ∷ []))))
      ≡ computed b')
    × (b'.validation ≡ valid)
    × (b'.effective_failed ≡ some 2)
echo-stable_example =
    echo-stable show_text (λ s. refl) two_failures (valid_block (some 0) none ("t1" ∷ "t2" ∷ []))
      two_failures-valid refl (λ e. omega arith)

count_only-valid :
    validate_test_results show_text (object count_only) ≡ computed (valid_block none (some 2) [])
unfolding validate_test_results
count_only-valid = refl
