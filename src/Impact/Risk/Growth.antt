-- ===== src/Impact/Risk/Growth.antt =====
-- How the risk of a commit grows with it (src/sot_graph/diff_impact.py).
use sotgraph.Prelude.{
  ℕ, ◌+◌, ◌≤◌, ◌≡◌, Bool, true, Option, none, some, List, [], ◌∷◌, ◌++◌, arith, length,
  length-append, nonempty, keep, take, if◌then◌else◌,
}
use sotgraph.Prelude.Text.{Text}
use sotgraph.Impact.Summary.{rank}
use sotgraph.Impact.Risk.{
  RiskReason, is_critical, is_config, Tally, add, file_step, churn_step, critical_step, config_step,
  degree_loop, degree_step, conclude, calculate_commit_risk,
}

abbrev AtMost : Tally → Tally → Type 0
AtMost t u = t.0 ≤ u.0

nonempty-keep_append :
    (p : Text → Bool) (fs gs : List Text)
    → nonempty (keep p fs) ≡ true
    → nonempty (keep p (fs ++ gs)) ≡ true
nonempty-keep_append p [] gs h = cc
nonempty-keep_append p (f ∷ fs) gs h = ground (arith, nonempty-keep_append p fs gs)

-- A test that adds a score, with a larger commit for which the test holds as well.
when_mono :
    (b c : Bool) (t u : Tally) (n : ℕ) (r s : RiskReason)
    → (b ≡ true → c ≡ true)
    → AtMost t u
    → AtMost (if b then add t n r else t) (if c then add u n s else u)
when_mono b c t u n r s i h = ground arith

module _ (t u : Tally) (h : AtMost t u) where
  file_step_mono : (fs gs : List Text) → AtMost (file_step fs t) (file_step (fs ++ gs) u)
  unfolding file_step
  file_step_mono fs gs =
      let l : length (fs ++ gs) ≡ length fs + length gs = length-append fs gs in ground arith

  churn_step_mono : (n m : ℕ) → n ≤ m → AtMost (churn_step n t) (churn_step m u)
  unfolding churn_step
  churn_step_mono n m i = ground arith

  critical_step_mono :
      (fs gs : List Text) → AtMost (critical_step fs t) (critical_step (fs ++ gs) u)
  unfolding critical_step
  critical_step_mono fs gs = when_mono _ _ t u 4 _ _ (nonempty-keep_append is_critical fs gs) h

  config_step_mono : (fs gs : List Text) → AtMost (config_step fs t) (config_step (fs ++ gs) u)
  unfolding config_step
  config_step_mono fs gs = when_mono _ _ t u 2 _ _ (nonempty-keep_append is_config fs gs) h

  degree_loop_mono :
      (count : Text → Option ℕ) (syms : List Text)
      → AtMost (degree_loop count syms t) (degree_loop count syms u)
  unfolding degree_loop
  degree_loop_mono count [] = h
  degree_loop_mono count (s ∷ ss) = ground (arith, degree_loop_mono count ss)

  degree_step_mono :
      (conn : Option (Text → Option ℕ)) (syms : List Text)
      → AtMost (degree_step conn syms t) (degree_step conn syms u)
  unfolding degree_step
  degree_step_mono none syms = h
  degree_step_mono (some count) syms = degree_loop_mono count (take 3 syms)

  conclude_mono : rank (conclude t).0 ≤ rank (conclude u).0
  unfolding conclude
  conclude_mono = ground arith

-- More files and more changed lines never lower the risk level of a commit, the symbols being the
-- same.
pub risk_mono :
    (conn : Option (Text → Option ℕ)) (fs gs : List Text) (ins dels ins' dels' : ℕ)
    (syms : List Text)
    → ins ≤ ins'
    → dels ≤ dels'
    → rank (calculate_commit_risk conn fs ins dels syms).0
      ≤ rank (calculate_commit_risk conn (fs ++ gs) ins' dels' syms).0
unfolding calculate_commit_risk
risk_mono conn fs gs ins dels ins' dels' syms i d = conclude_mono _ _ (
    degree_step_mono _ _
      (config_step_mono _ _
        (critical_step_mono _ _
          (churn_step_mono _ _ (file_step_mono (0, []) (0, []) (omega arith) fs gs) (ins + dels)
            (ins' + dels') (omega arith))
          fs gs)
        fs gs)
      conn syms)
