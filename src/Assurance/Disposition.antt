-- ===== src/Assurance/Disposition.antt =====
-- src/sot_graph/assurance/resolution.py: `disposition_matrix`, on the paths of the predicted items as
-- code points. The other keys of an entry are left out.
pub mod Addressed
mod Tests
use sotgraph.Prelude.{
  ℕ, ◌-◌, Bool, true, false, not, ◌||◌, Option, none, some, List, [], ◌∷◌, map, ◌==◌, length,
  nonempty, keep, any, if◌then◌else◌,
}
use sotgraph.Prelude.Text.{Text, drop_while, same, ends}

-- `.replace("\\", "/")`
abbrev pub forward : ℕ → ℕ
forward c = if c == b'\\' then b'/' else c

-- `.lstrip("./")`
abbrev pub is_lead : ℕ → Bool
is_lead c = c == b'.' || c == b'/'

unfoldable pub norm_path : Text → Text
norm_path path = drop_while is_lead (map forward path)

unfoldable pub touched : Text → List Text → Bool
unfolding norm_path
touched path changed_norm =
    let p = norm_path path in
    if not (nonempty p)
    then false
    else if any (same p) changed_norm
    then true
    else any (λ c. same p c || ends p (b'/' ∷ c)) changed_norm

-- What a receipt predicts.
pub record Predictions : Type 0 where
  pub direct_callers : List Text
  pub candidate_tests : List Text

pub record Family : Type 0 where
  pub total : ℕ
  pub addressed : ℕ
  pub untouched : List Text

pub record Matrix : Type 0 where
  pub pre_receipt_attached : Bool
  pub direct_callers : Family
  pub candidate_tests : Family

unfoldable pub classify_items : List Text → List Text → Family
unfolding touched
classify_items items changed_norm =
    let untouched = keep (λ path. not (touched path changed_norm)) items in
    record {
      total = length items;
      addressed = length items - length untouched;
      untouched = untouched;
    }

abbrev pub changed_norm : List Text → List Text
changed_norm changed_files = map norm_path (keep nonempty changed_files)

unfoldable pub disposition_matrix : Option Predictions → List Text → Matrix
unfolding classify_items norm_path
disposition_matrix none changed_files = record {
  pre_receipt_attached = false;
  direct_callers = classify_items [] (changed_norm changed_files);
  candidate_tests = classify_items [] (changed_norm changed_files);
}
disposition_matrix (some p) changed_files = record {
  pre_receipt_attached = true;
  direct_callers = classify_items p.direct_callers (changed_norm changed_files);
  candidate_tests = classify_items p.candidate_tests (changed_norm changed_files);
}
