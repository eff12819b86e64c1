-- ===== src/Impact/Engine/Reached.antt =====
-- From the lines of a diff to everything that depends on them (src/sot_graph/diff_impact.py).
use sotgraph.Prelude.{
  ℕ, ◌+◌, ◌<◌, ◌≤◌, ◌≡◌, refl, sym, ◌∙◌, subst, true, Option, some, is_some, List, [], ◌∷◌, String,
  eq_iff, arith, length, member,
}
use sotgraph.Prelude.Text.{Text}
use sotgraph.Impact.Mapper.{DirectNodeChange, NodeRow, map_intervals_to_nodes}
use sotgraph.Impact.Mapper.Hits.{count, is_touched, count-map_intervals}
use sotgraph.Impact.Callers.{CallerImpact, EdgeRow, ids}
use sotgraph.Impact.Callers.Loop.{Reach, here, edge}
use sotgraph.Impact.Callers.Expand.{known}
use sotgraph.Impact.Callers.Enough.{Within, traverse-enough}
use sotgraph.Impact.Callers.Nearest.{traverse_complete}
use sotgraph.Impact.Engine.{analyze_diff_impact}

member_of_count :
    (depth : ℕ) (rows_into : String → Option (List EdgeRow)) (x : String)
    (nodes : List DirectNodeChange)
    → count x nodes ≡ 1
    → member x (ids depth rows_into nodes) ≡ true
member_of_count depth rows_into x [] h = cc
member_of_count depth rows_into x (d ∷ ds) h = ground (arith, member_of_count depth rows_into x ds)

-- What reaches one changed node reaches the changed nodes.
Reach-member :
    (rows_into : String → Option (List EdgeRow)) (direct : List String) (x : String)
    → member x direct ≡ true
    → (n : ℕ) (y : String) → Reach rows_into (x ∷ []) n y
    → Reach rows_into direct n y
Reach-member rows_into direct x m _ _ (here y e) =
    here y (subst (λ z. member z direct ≡ true) (sym ((eq_iff y x).0 (ground arith))) m)
Reach-member rows_into direct x m _ _ (edge n y z rows r q e) =
    edge n y z rows (Reach-member rows_into direct x m n y r) q e

module _ (rows_of : Text → List NodeRow) (rows_into : String → Option (List EdgeRow))
    (nodes : List String) (within : Within rows_into nodes)
    (answers : (x : String) → is_some (rows_into x) ≡ true) (depth : ℕ)
    (file_intervals : List (Text × List (ℕ × ℕ))) where
  abbrev pub changed : List DirectNodeChange
  changed = map_intervals_to_nodes (λ p. some (rows_of p)) file_intervals

  -- Where the queries answer within the nodes of the graph and the fuel exceeds the changed nodes
  -- and the nodes of the graph together, the analysis returns, and each node from which at most
  -- `depth` edges lead to a node that a hunk of the diff meets is a changed node or is reported, at
  -- a depth no larger than the number of these edges.
  pub analyze_complete :
      (fuel : ℕ)
      → length changed + length nodes < fuel
      → (callers : List CallerImpact) × (analyze_diff_impact
            (λ p. some (rows_of p))
            rows_into
            depth
            fuel
            file_intervals
          ≡ some (changed, callers))
        × ((x y : String) (n : ℕ)
            → is_touched rows_of x file_intervals ≡ true
            → Reach rows_into (x ∷ []) n y
            → n ≤ depth
            → known (ids depth rows_into changed) callers n y ≡ true)
  unfolding analyze_diff_impact
  analyze_complete fuel enough =
      let (callers, e) = traverse-enough depth rows_into nodes within fuel changed enough in
      (
        callers,
        rw e refl,
        λ x y n t r le.
            let once : count x changed ≡ 1 =
              count-map_intervals rows_of x file_intervals ∙ (rw t refl) in
            let m : member x (ids depth rows_into changed) ≡ true =
              member_of_count depth rows_into x changed once in
            traverse_complete depth rows_into changed answers fuel callers e n y
              (Reach-member rows_into (ids depth rows_into changed) x m n y r) le,
      )
