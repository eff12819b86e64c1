-- ===== src/Impact/Risk/Levels.antt =====
-- Risk levels of commits (src/sot_graph/diff_impact.py).
use sotgraph.Prelude.{
  ℕ, suc, ◌+◌, ◌*◌, ap, ◌≤◌, ◌≡◌, ◌≢◌, ◌↔◌, refl, Bool, true, false, Option, none, some, List, [],
  ◌∷◌, ◌++◌, arith, leb, length, All, take, if◌then◌else◌,
}
use sotgraph.Prelude.Text.{Text}
use sotgraph.Impact.Summary.{low}
use sotgraph.Impact.Risk.{
  RiskReason, core_symbol, small_change, Tally, add, file_step, churn_step, critical_step,
  config_step, degree_loop, degree_step, conclude, calculate_commit_risk,
}

-- Every reason comes with a score of two to four, and none says that the change is small.
abbrev Backed : Tally → Type 0
Backed (score, reasons) =
    (2 * length reasons ≤ score)
    × (score ≤ 4 * length reasons)
    × All (λ r. r ≢ small_change) reasons

All-snoc :
    (P : RiskReason → Type 0) (rs : List RiskReason) (r : RiskReason)
    → All P rs
    → P r
    → All P (rs ++ (r ∷ []))
All-snoc P [] r h k = (k, tt)
All-snoc P (x ∷ xs) r (h, i) k = (h, All-snoc P xs r i k)

length-snoc : (rs : List RiskReason) (r : RiskReason) → length (rs ++ (r ∷ [])) ≡ suc (length rs)
length-snoc [] r = refl
length-snoc (x ∷ xs) r = ap suc (length-snoc xs r)

Backed-add :
    (t : Tally) (n : ℕ) (r : RiskReason)
    → 2 ≤ n
    → n ≤ 4
    → r ≢ small_change
    → Backed t
    → Backed (add t n r)
Backed-add (s, rs) n r lo hi e (a, b, c) =
    let l : length (rs ++ (r ∷ [])) ≡ suc (length rs) = length-snoc rs r in
    (omega arith, omega arith, All-snoc (λ x. x ≢ small_change) rs r c e)

Backed-when :
    (b : Bool) (t u : Tally) (n : ℕ) (r : RiskReason)
    → 2 ≤ n
    → n ≤ 4
    → r ≢ small_change
    → Backed t
    → Backed u
    → Backed (if b then add t n r else u)
Backed-when true t u n r lo hi e h k = Backed-add t n r lo hi e h
Backed-when false t u n r lo hi e h k = k

Backed-file_step : (files : List Text) (t : Tally) → Backed t → Backed (file_step files t)
unfolding file_step
Backed-file_step files t h =
    Backed-when _ t _ 4 _ (omega arith) (omega arith) (λ p. cc) h
      (Backed-when _ t t 2 _ (omega arith) (omega arith) (λ p. cc) h h)

Backed-churn_step : (n : ℕ) (t : Tally) → Backed t → Backed (churn_step n t)
unfolding churn_step
Backed-churn_step n t h =
    Backed-when _ t _ 4 _ (omega arith) (omega arith) (λ p. cc) h
      (Backed-when _ t t 2 _ (omega arith) (omega arith) (λ p. cc) h h)

Backed-critical_step : (files : List Text) (t : Tally) → Backed t → Backed (critical_step files t)
unfolding critical_step
Backed-critical_step files t h = Backed-when _ t t 4 _ (omega arith) (omega arith) (λ p. cc) h h

Backed-config_step : (files : List Text) (t : Tally) → Backed t → Backed (config_step files t)
unfolding config_step
Backed-config_step files t h = Backed-when _ t t 2 _ (omega arith) (omega arith) (λ p. cc) h h

Backed-degree_loop :
    (count : Text → Option ℕ) (syms : List Text) (t : Tally)
    → Backed t
    → Backed (degree_loop count syms t)
unfolding degree_loop
Backed-degree_loop count [] t h = h
Backed-degree_loop count (sym ∷ syms) t h =
    elim (count sym)
      as (λ o. Backed (elim o [
        | none ↦ t
        | some n ↦ if leb 5 n then add t 3 (core_symbol sym n) else degree_loop count syms t
      ])) [
        | none ↦ h
        | some n ↦
            Backed-when (leb 5 n) t _ 3 _ (omega arith) (omega arith) (λ p. cc) h
              (Backed-degree_loop count syms t h)
      ]

Backed-degree_step :
    (conn : Option (Text → Option ℕ)) (syms : List Text) (t : Tally)
    → Backed t
    → Backed (degree_step conn syms t)
unfolding degree_step
Backed-degree_step none syms t h = h
Backed-degree_step (some count) syms t h = Backed-degree_loop count (take 3 syms) t h

conclude-low_iff :
    (t : Tally) → Backed t → ((conclude t).0 ≡ low) ↔ ((conclude t).1 ≡ small_change ∷ [])
unfolding conclude
conclude-low_iff (s, []) (a, b, c) = (λ e. ground arith, λ e. ground arith)
conclude-low_iff (s, r ∷ rs) (a, b, (c, d)) = (λ e. ground arith, λ e. ground arith)

module _ (conn : Option (Text → Option ℕ)) (files : List Text) (insertions deletions : ℕ)
    (syms : List Text) where
  abbrev pub tally : Tally
  tally = degree_step conn syms (
      config_step files
        (critical_step files (churn_step (insertions + deletions) (file_step files (0, [])))))

  Backed-tally : Backed tally
  Backed-tally = Backed-degree_step conn syms _ (
      Backed-config_step files _ (
        Backed-critical_step files _ (
          Backed-churn_step (insertions + deletions) _
            (Backed-file_step files (0, []) (omega arith, omega arith, tt)))))

  -- A commit is low risk exactly when its one reason is that the change is small.
  pub risk-low_iff :
      ((calculate_commit_risk conn files insertions deletions syms).0 ≡ low)
      ↔ ((calculate_commit_risk conn files insertions deletions syms).1 ≡ small_change ∷ [])
  unfolding calculate_commit_risk
  risk-low_iff = conclude-low_iff tally Backed-tally
