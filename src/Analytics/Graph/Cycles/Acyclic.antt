-- ===== src/Analytics/Graph/Cycles/Acyclic.antt =====
-- What `detect_cycles` says of a graph that was loaded (src/sot_graph/analytics/graph.py).
use sotgraph.Prelude.{
  ℕ, ◌*◌, ◌<◌, ◌≡◌, refl, ap, ◌∙◌, subst, true, ◌||◌, Option, some, List, [], ◌∷◌, String, str_eq,
  eq_iff, length, member, All, All-of_members, Option-cases, Bool-cases, inl, inr, arith,
}
use sotgraph.Analytics.Graph.{Table}
use sotgraph.Analytics.Graph.Load.{GraphNodeRow, GraphEdgeRow, from_connection}
use sotgraph.Analytics.Graph.Ends.{ids}
use sotgraph.Analytics.Graph.Cycles.{search_roots, unsearched, successors, detect_cycles}
use sotgraph.Analytics.Graph.Cycles.Found.{Chain, last_edge, edge_before, IsCycle}
use sotgraph.Analytics.Graph.Cycles.Searching.{IsSorted, nodes_on}
use sotgraph.Analytics.Graph.Cycles.Sorted.{Rested, search_roots-Rested}
use sotgraph.Analytics.Graph.Cycles.Returns.{search_roots-returns}
use sotgraph.Analytics.Graph.Cycles.Edges.{successors-Ended}

module _ (adj : String → List String) where
  sorted-step :
      (bs : List String) (x y : String)
      → IsSorted adj bs
      → member x bs ≡ true
      → member y (adj x) ≡ true
      → member y bs ≡ true
  sorted-step [] x y h m e = absurd (ground arith)
  sorted-step (b ∷ bs) x y (succ, h) m e = elim (Bool-cases (str_eq x b)) [
    | inl q ↦
        (let n = succ y (subst (λ w. member y (adj w) ≡ true) ((eq_iff x b).0 q) e) in ground arith)
    | inr q ↦ (let n = sorted-step bs x y h (ground arith) e in ground arith)
  ]

  sorted-Chain :
      (bs : List String) (z x : String) (l : List String)
      → IsSorted adj bs
      → member x bs ≡ true
      → Chain adj z x l
      → member z bs ≡ true
  sorted-Chain bs z x _ h m (last_edge _ e) = sorted-step bs x z h m e
  sorted-Chain bs z x _ h m (edge_before _ y l e c) =
      sorted-Chain bs z y l h (sorted-step bs x y h m e) c

  -- A chain that starts at the first of a sorted list ends in the rest.
  sorted-later :
      (b : String) (bs : List String) (z : String) (l : List String)
      → IsSorted adj (b ∷ bs)
      → Chain adj z b l
      → member z bs ≡ true
  sorted-later b bs z _ (succ, h) (last_edge _ e) = succ z e
  sorted-later b bs z _ (succ, h) (edge_before _ y l e c) = sorted-Chain bs z y l h (succ y e) c

  sorted-acyclic :
      (bs : List String) (x : String) (l : List String)
      → IsSorted adj bs
      → member x bs ≡ true
      → ¬ Chain adj x x l
  sorted-acyclic [] x l h m c = absurd (ground arith)
  sorted-acyclic (b ∷ bs) x l (succ, h) m c = elim (Bool-cases (str_eq x b)) [
    | inr q ↦ sorted-acyclic bs x l h (ground arith) c
    | inl q ↦
        (let same : x ≡ b = (eq_iff x b).0 q in
          let later = sorted-later b bs x l (succ, h) (subst (λ w. Chain adj x w l) same c) in
          sorted-acyclic bs x l h later c)
  ]

  Chain-head :
      (x z : String) (l : List String) → Chain adj z x l → (y : String) × (member y (adj x) ≡ true)
  Chain-head x z _ (last_edge _ e) = (z, e)
  Chain-head x z _ (edge_before _ y l e c) = (y, e)

  unsearched-Rested :
      (max_cycles : ℕ) (some_cycles : 0 < max_cycles) → Rested adj max_cycles some_cycles unsearched
  unsearched-Rested max_cycles some_cycles =
      ((tt, refl, tt, tt, (λ x h. absurd (ground arith)), (λ z. (tt, tt))), refl)

module _ (node_rows : List GraphNodeRow) (edge_rows : List GraphEdgeRow) (degrees : Option Table)
    (max_cycles : ℕ) (some_cycles : 0 < max_cycles) (fuel : ℕ) where
  -- With a positive limit and more fuel than twice the nodes, the search of a graph that was loaded
  -- returns, and each list that it reports is a cycle: a chain of edges that ends where it starts.
  pub detect_cycles-IsCycle :
      2 * length (ids (from_connection node_rows edge_rows degrees).nodes) < fuel
      → (cs : List (List String)) × (detect_cycles max_cycles fuel
            (from_connection node_rows edge_rows degrees)
          ≡ some cs)
        × All (IsCycle (successors (from_connection node_rows edge_rows degrees))) cs
  unfolding detect_cycles
  detect_cycles-IsCycle enough =
      let g = from_connection node_rows edge_rows degrees in
      let start = unsearched-Rested (successors g) max_cycles some_cycles in
      let (t, e) =
        search_roots-returns (successors g) (ids g.nodes)
          (λ x y h. (successors-Ended node_rows edge_rows degrees x y h).1) max_cycles some_cycles
          fuel (ids g.nodes) unsearched enough
          (All-of_members (λ x. member x (ids g.nodes) ≡ true) (ids g.nodes) (λ x k. k)) start in
      let ((searched, _), _) =
        search_roots-Rested (successors g) max_cycles some_cycles fuel (ids g.nodes) unsearched t
          start e in
      (t.cycles, rw e refl, searched.0)

  -- A graph that was loaded, and in which a search with a positive limit reports no cycle, has none.
  pub detect_cycles-acyclic :
      (x : String) (l : List String)
      → detect_cycles max_cycles fuel (from_connection node_rows edge_rows degrees) ≡ some []
      → ¬ Chain (successors (from_connection node_rows edge_rows degrees)) x x l
  unfolding detect_cycles
  detect_cycles-acyclic x l none_found c =
      let g = from_connection node_rows edge_rows degrees in
      let start = unsearched-Rested (successors g) max_cycles some_cycles in
      elim (Option-cases (search_roots (successors g) max_cycles fuel (ids g.nodes) unsearched)) [
        | inl stuck ↦ (let e = rw stuck at none_found in absurd (ground arith))
        | inr (t, e) ↦
            (let nil : t.cycles ≡ [] = (let k = rw e at none_found in ground arith) in
              let ((searched, ended), seen) =
                search_roots-Rested (successors g) max_cycles some_cycles fuel (ids g.nodes)
                  unsearched t start e in
              let (y, step) = Chain-head (successors g) x x l c in
              let node = (successors-Ended node_rows edge_rows degrees x y step).0 in
              let gray = seen nil x node in
              let (all, path_is, linked, fits, on, sorted) = searched in
              let bare : t.path ≡ [] = path_is ∙ ap (nodes_on (successors g)) ended in
              let black : member x t.black ≡ true =
                (let m = subst (λ p. (member x t.black || member x p) ≡ true) bare (on x gray) in
                  ground arith) in
              sorted-acyclic (successors g) t.black x l (sorted nil).0 black c)
      ]
