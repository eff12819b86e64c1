-- ===== src/Impact/Callers/Enough.antt =====
-- Fuel that the traversal of src/sot_graph/diff_impact.py never exhausts.
use sotgraph.Prelude.{
  ℕ, zero, suc, ◌+◌, ◌<◌, ◌≤◌, ◌≡◌, refl, ap, true, not, ◌||◌, Option, some, Option-cases,
  Bool-cases, inl, inr, List, [], ◌∷◌, ◌++◌, map, String, arith, ltb, leb, length, length-append,
  All, nonempty, sort_by, member, unseen, unseen-visit, unseen_bound,
}
use sotgraph.Impact.Mapper.{DirectNodeChange}
use sotgraph.Impact.Callers.{
  EdgeRow, CallerImpact, Pending, Walk, visit_row, visit_rows, walk, traverse, first, ids, nearer,
  next_of,
}

abbrev measure : List String → Walk → ℕ
measure nodes w = length w.queue + unseen w.visited_nodes nodes

module _ (max_depth : ℕ) (nodes : List String) where
  measure-visit_row :
      (curr : Pending) (row : EdgeRow) (w : Walk)
      → member row.id nodes ≡ true
      → measure nodes (visit_row max_depth curr row w) ≤ measure nodes w
  unfolding visit_row
  measure-visit_row curr row w h =
      let l : length (w.queue ++ (next_of curr row ∷ [])) ≡ length w.queue + 1 =
        length-append w.queue (next_of curr row ∷ []) in
      ground (arith, unseen-visit row.id w.visited_nodes nodes)

  measure-visit_rows :
      (curr : Pending) (rows : List EdgeRow) (w : Walk)
      → All (λ row. member row.id nodes ≡ true) rows
      → measure nodes (visit_rows max_depth curr rows w) ≤ measure nodes w
  unfolding visit_rows
  measure-visit_rows curr [] w h = omega arith
  measure-visit_rows curr (row ∷ rows) w (h, k) = omega (
    arith,
    measure-visit_rows curr rows (visit_row max_depth curr row w) k,
    measure-visit_row curr row w h,
  )

-- The query answers within the given nodes.
abbrev pub Within : (String → Option (List EdgeRow)) → List String → Type 0
Within rows_into nodes =
    (x : String) (rows : List EdgeRow)
    → rows_into x ≡ some rows
    → All (λ row. member row.id nodes ≡ true) rows

module _ (max_depth : ℕ) (rows_into : String → Option (List EdgeRow)) (nodes : List String)
    (within : Within rows_into nodes) where
  walk-enough :
      (n : ℕ) (visited : List String) (queue : List Pending) (callers : List CallerImpact)
      → length queue + unseen visited nodes < n
      → (cs : List CallerImpact) × (walk max_depth rows_into n visited queue callers ≡ some cs)
  unfolding walk
  walk-enough zero visited queue callers h = elim h [ ]
  walk-enough (suc n) visited [] callers h = (callers, refl)
  walk-enough (suc n) visited (curr ∷ queue) callers h =
      elim (Bool-cases (ltb max_depth curr.depth)) [
        | inl e ↦ rw e (walk-enough n visited queue callers (omega arith))
        | inr e ↦ rw e (elim (Option-cases (rows_into curr.id)) [
          | inl none_eq ↦ rw none_eq (callers, refl)
          | inr (rows, some_eq) ↦
              let start : Walk = record {
                visited_nodes = visited;
                queue = queue;
                callers = callers;
              } in
              let fewer : measure nodes (visit_rows max_depth curr rows start)
                  ≤ measure nodes start =
                measure-visit_rows max_depth nodes curr rows start (within curr.id rows some_eq) in
              rw some_eq (walk-enough n _ _ _ (omega arith))
        ])
      ]

  length-map-first :
      (ds : List DirectNodeChange) → length (map (first max_depth rows_into) ds) ≡ length ds
  length-map-first [] = refl
  length-map-first (d ∷ ds) = ap suc (length-map-first ds)

  -- With more turns than direct nodes and nodes of the graph together, the rows of each query being
  -- nodes of the graph, the traversal returns.
  pub traverse-enough :
      (fuel : ℕ) (direct_nodes : List DirectNodeChange)
      → length direct_nodes + length nodes < fuel
      → (cs : List CallerImpact) × (traverse max_depth rows_into fuel direct_nodes ≡ some cs)
  unfolding traverse
  traverse-enough fuel direct_nodes h =
      elim (Bool-cases (not (nonempty direct_nodes) || leb max_depth 0)) [
        | inl e ↦ rw e ([], refl)
        | inr e ↦
            let l : length (map (first max_depth rows_into) direct_nodes) ≡ length direct_nodes =
              length-map-first direct_nodes in
            let u : unseen (ids max_depth rows_into direct_nodes) nodes ≤ length nodes =
              unseen_bound _ nodes in
            let (cs, eq) =
              walk-enough fuel (ids max_depth rows_into direct_nodes)
                (map (first max_depth rows_into) direct_nodes) [] (omega arith) in
            rw (e, eq) (sort_by nearer cs, refl)
      ]
