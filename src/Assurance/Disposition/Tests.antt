-- ===== src/Assurance/Disposition/Tests.antt =====
-- A receipt that predicts two callers, of which the diff reaches one.
use sotgraph.Prelude.{◌≡◌, refl, some, List, [], ◌∷◌}
use sotgraph.Prelude.Text.{Text, codes}
use sotgraph.Assurance.Disposition.{Predictions, disposition_matrix}

abbrev predictions : Predictions
predictions = record {
  direct_callers = codes "/repo/src/app.py" ∷ codes "src/view.py" ∷ [];
  candidate_tests = [];
}

abbrev diff : List Text
diff = codes "./src/app.py" ∷ []

one_untouched :
    (disposition_matrix (some predictions) diff).direct_callers.untouched ≡ codes "src/view.py" ∷ []
unfolding disposition_matrix
one_untouched = refl
