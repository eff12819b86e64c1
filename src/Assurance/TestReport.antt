-- ===== src/Assurance/TestReport.antt =====
-- src/sot_graph/assurance/resolution.py: `validate_test_results` and `canonical_test_results`.
-- A report is a JSON value. Python's `str` of a value is the parameter `show`. An error stands for
-- its message, which lists unknown keys in sorted order.
pub mod Stable
mod Tests
use sotgraph.Prelude.{
  ℕ, zero, max, ℤ, pos, negsuc, Bool, true, false, not, ◌||◌, ◌&&◌, Option, none, some, List, [],
  ◌∷◌, ◌++◌, map, String, ltb, ◌==◌, length, nonempty, keep, any, if◌then◌else◌, str_eq,
}

mutual
  pub data Json : Type 0 where
    null : Json
    boolean : Bool → Json
    number : ℤ → Json
    decimal : String → Json
    text : String → Json
    array : Items → Json
    object : Fields → Json

  pub data Items : Type 0 where
    nil : Items
    cons : Json → Items → Items

  pub data Fields : Type 0 where
    end : Fields
    field : String → Json → Fields → Fields

abbrev pub get : String → Fields → Option Json
get k end = none
get k (field j v fs) = if str_eq k j then some v else get k fs

abbrev pub keys : Fields → List String
keys end = []
keys (field k v fs) = k ∷ keys fs

abbrev pub items : Items → List Json
items nil = []
items (cons v vs) = v ∷ items vs

abbrev pub is_text : String → Option Json → Bool
is_text s (some (text t)) = str_eq t s
is_text s _ = false

pub data ReportError : Type 0 where
  not_object : ReportError
  unknown_keys : List String → ReportError
  not_int negative : String → ReportError
  failures_not_list : ReportError
  failed_exceeds_ran : ℕ → ℕ → ReportError

pub data Validation : Type 0 where
  valid invalid : Validation

-- The dictionary that the validator builds; its provenance is always "caller_reported".
pub record Block : Type 0 where
  pub validation : Validation
  pub ran : Option ℕ
  pub failed : Option ℕ
  pub failures : List String
  pub effective_failed : Option ℕ
  pub healed_failed : Bool
  pub errors : List ReportError

-- A dictionary that came in and passes through, or one that was built.
pub data Evidence : Type 0 where
  passed : Fields → Evidence
  computed : Block → Evidence

-- the test at the head of the validator
abbrev pub is_block : Fields → Bool
is_block fs =
    is_text "caller_reported" (get "provenance" fs)
    && (is_text "valid" (get "validation" fs) || is_text "invalid" (get "validation" fs))

abbrev pub invalid_block : List ReportError → Block
invalid_block errors = record {
  validation = invalid;
  ran = none;
  failed = none;
  failures = [];
  effective_failed = none;
  healed_failed = false;
  errors = errors;
}

abbrev pub allowed_keys : List String
allowed_keys = "ran" ∷ "failed" ∷ "failures" ∷ []

abbrev pub unknown : Fields → List String
unknown fs = keep (λ k. not (any (str_eq k) allowed_keys)) (keys fs)

abbrev pub key_errors : List String → List ReportError
key_errors [] = []
key_errors (k ∷ ks) = unknown_keys (k ∷ ks) ∷ []

-- The loop over "ran" and "failed": the count kept, and the errors appended.
abbrev pub read_count : String → Option Json → Option ℕ × List ReportError
read_count key none = (none, [])
read_count key (some (number (pos n))) = (some n, [])
read_count key (some (number (negsuc n))) = (none, negative key ∷ [])
read_count key (some _) = (none, not_int key ∷ [])

abbrev pub read_failures : Option Json → List Json × List ReportError
read_failures none = ([], [])
read_failures (some null) = ([], [])
read_failures (some (array vs)) = (items vs, [])
read_failures (some _) = ([], failures_not_list ∷ [])

abbrev pub contradiction : Option ℕ → Option ℕ → ℕ → List ReportError
contradiction (some r) (some f) labels =
    if ltb r f && not (f == labels) then failed_exceeds_ran f r ∷ [] else []
contradiction _ _ labels = []

-- `x or 0`
abbrev pub or_zero : Option ℕ → ℕ
or_zero none = 0
or_zero (some n) = n

abbrev pub valid_block : Option ℕ → Option ℕ → List String → Block
valid_block ran failed labels = record {
  validation = valid;
  ran = ran;
  failed = failed;
  failures = labels;
  effective_failed = some (max (or_zero failed) (length labels));
  healed_failed = ltb (or_zero failed) (max (or_zero failed) (length labels));
  errors = [];
}

-- The two exits of the validator.
abbrev pub settle : List ReportError → Option ℕ → Option ℕ → List String → Block
settle errors ran failed labels =
    if nonempty errors then invalid_block errors else valid_block ran failed labels

module _ (show : Json → String) where
  -- The body for a dictionary that is no block.
  unfoldable pub checked : Fields → Block
  checked fs =
      let (ran, ran_errors) = read_count "ran" (get "ran" fs) in
      let (failed, failed_errors) = read_count "failed" (get "failed" fs) in
      let (failures, failures_errors) = read_failures (get "failures" fs) in
      let labels = map show failures in
      let before = key_errors (unknown fs) ++ ran_errors ++ failed_errors ++ failures_errors in
      settle (before ++ contradiction ran failed (length labels)) ran failed labels

  unfoldable pub validate_test_results : Json → Evidence
  unfolding checked
  validate_test_results (object fs) = if is_block fs then passed fs else computed (checked fs)
  validate_test_results _ = computed (invalid_block (not_object ∷ []))

abbrev pub texts : List String → Items
texts [] = nil
texts (s ∷ ss) = cons (text s) (texts ss)

-- The echo of a report that was found valid.
unfoldable pub canonical : Block → Fields
canonical b = field "ran" (number (pos (or_zero b.ran))) (
    field "failed" (number (pos (or_zero b.effective_failed)))
      (field "failures" (array (texts b.failures)) end))
