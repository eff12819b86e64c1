-- ===== src/Assurance/Disposition/Addressed.antt =====
-- What counts as addressed by a diff (src/sot_graph/assurance/resolution.py).
use sotgraph.Prelude.{
  ◌≤◌, ◌≡◌, refl, sym, subst, ap, true, not, ◌||◌, some, List, [], ◌∷◌, ◌++◌, length, keep,
  any-append, arith,
}
use sotgraph.Prelude.Text.{Text, same, ends}
use sotgraph.Assurance.Disposition.{
  norm_path, touched, Predictions, changed_norm, disposition_matrix,
}

changed_norm-append :
    (fs gs : List Text) → changed_norm (fs ++ gs) ≡ changed_norm fs ++ changed_norm gs
changed_norm-append [] gs = refl
changed_norm-append ([] ∷ fs) gs = changed_norm-append fs gs
changed_norm-append ((c ∷ cs) ∷ fs) gs = ap (◌∷◌ (norm_path (c ∷ cs))) (changed_norm-append fs gs)

touched-append :
    (path : Text) (cs ds : List Text) → touched path cs ≡ true → touched path (cs ++ ds) ≡ true
unfolding touched
touched-append path cs ds h = ground (
  arith,
  any-append (same (norm_path path)) cs ds,
  any-append (λ c. same (norm_path path) c || ends (norm_path path) (b'/' ∷ c)) cs ds,
)

untouched-append :
    (items cs ds : List Text)
    → length (keep (λ path. not (touched path (cs ++ ds))) items)
      ≤ length (keep (λ path. not (touched path cs)) items)
untouched-append [] cs ds = omega arith
untouched-append (i ∷ is) cs ds = ground (arith, touched-append i cs ds, untouched-append is cs ds)

-- A diff of more files leaves no more of the predicted callers untouched.
pub untouched_mono :
    (p : Predictions) (fs gs : List Text)
    → length (disposition_matrix (some p) (fs ++ gs)).direct_callers.untouched
      ≤ length (disposition_matrix (some p) fs).direct_callers.untouched
unfolding disposition_matrix
untouched_mono p fs gs =
    subst
      (λ cs.
        length (keep (λ path. not (touched path cs)) p.direct_callers)
        ≤ length (keep (λ path. not (touched path (changed_norm fs))) p.direct_callers))
      (sym (changed_norm-append fs gs))
      (untouched-append p.direct_callers (changed_norm fs) (changed_norm gs))

-- A leading dot of a predicted path is ignored: a hidden file is addressed exactly when the file of
-- the same name without the dot would be.
pub touched-leading_dot :
    (path : Text) (changed : List Text) → touched (b'.' ∷ path) changed ≡ touched path changed
unfolding touched norm_path
touched-leading_dot path changed = refl
