-- ===== src/Analytics/Graph/Components/Enough.antt =====
-- The connected components of a graph that was loaded (src/sot_graph/analytics/graph.py).
use sotgraph.Prelude.{
  ℕ, zero, suc, ◌<◌, ◌≡◌, ◌↔◌, refl, sym, ◌∙◌, true, Option, some, List, [], ◌∷◌, ◌++◌, String,
  str_eq, any, length, keep, length-keep-sort_by, member, All-of_members, unseen-visit,
  unseen_bound, sort_by, All, All-sort_by, All-map_to, Bool-cases, inl, inr, arith,
}
use sotgraph.Analytics.Graph.{Edge, Table, Graph, set_add, neighbors}
use sotgraph.Analytics.Graph.Load.{GraphNodeRow, GraphEdgeRow, from_connection}
use sotgraph.Analytics.Graph.Ends.{
  joins, ids, Ended, from_connection-Ended, from_connection-IsNeighborly,
}
use sotgraph.Analytics.Graph.Components.{grow, sweep_nodes, larger, connected_components}
use sotgraph.Analytics.Graph.Components.Push.{measure, measure-push, member-same}
use sotgraph.Analytics.Graph.Components.Growing.{Connected}
use sotgraph.Analytics.Graph.Components.Classes.{
  IsClass, sweep_nodes-Swept, class-Connected, start-Swept,
}

module _ (adj : String → List String) (nodes : List String)
    (within : (x y : String) → member y (adj x) ≡ true → member y nodes ≡ true) where
  grow-returns :
      (n : ℕ) (v q c : List String)
      → measure nodes (record { visited = v; queue = q }) < n
      → (p : List String × List String) × (grow adj n (record { visited = v; queue = q }) c
          ≡ some p)
  unfolding grow
  grow-returns zero v q c h = elim h [ ]
  grow-returns (suc n) v [] c h = ((v, c), refl)
  grow-returns (suc n) v (current ∷ q) c h =
      let less =
        measure-push nodes (adj current) (record { visited = v; queue = q }) (within current) in
      grow-returns n _ _ (set_add current c) (omega arith)

  sweep_nodes-returns :
      (fuel : ℕ) (todo v : List String) (cs : List (List String))
      → length nodes < fuel
      → All (λ x. member x nodes ≡ true) todo
      → (found : List (List String)) × (sweep_nodes adj fuel todo v cs ≡ some found)
  unfolding sweep_nodes
  sweep_nodes-returns fuel [] v cs h k = (cs, refl)
  sweep_nodes-returns fuel (node ∷ todo) v cs h (here, k) = elim (Bool-cases (member node v)) [
    | inl e ↦ rw e (sweep_nodes-returns fuel todo v cs h k)
    | inr e ↦
        (let fewer = unseen-visit node v nodes here e in
          let bound = unseen_bound v nodes in
          let (p, grown) = grow-returns fuel (node ∷ v) (node ∷ []) [] (omega arith) in
          rw (e, grown) (sweep_nodes-returns fuel todo p.0 (cs ++ (p.1 ∷ [])) h k))
  ]

joins-sym : (x y : String) (es : List Edge) → any (joins y x) es ≡ any (joins x y) es
joins-sym x y [] = refl
joins-sym x y (e ∷ es) = ground (arith, joins-sym x y es)

joined-Ended :
    (x y : String) (g : Graph) (es : List Edge)
    → All (Ended g.nodes) es
    → any (joins y x) es ≡ true
    → member y (ids g.nodes) ≡ true
joined-Ended x y g [] h k = absurd (ground arith)
joined-Ended x y g (e ∷ es) ((a, b), h) k = elim (Bool-cases (str_eq y e.src)) [
  | inl s ↦ member-same y e.src true (ids g.nodes) s a
  | inr s ↦ elim (Bool-cases (str_eq y e.dst)) [
    | inl t ↦ member-same y e.dst true (ids g.nodes) t b
    | inr t ↦ joined-Ended x y g es h (ground arith)
  ]
]

-- The lists are the classes of connected nodes of the graph, each once.
abbrev pub AreComponents : Graph → List (List String) → Type 0
AreComponents g cs =
    All (λ n. length (keep (member n) cs) ≡ 1) (ids g.nodes)
    × All (λ c. All (λ a. (b : String) → (member b c ≡ true) ↔ Connected (neighbors g) a b) c) cs

module _ (node_rows : List GraphNodeRow) (edge_rows : List GraphEdgeRow)
    (degrees : Option Table) where
  -- With more fuel than the graph has nodes, the connected components of a graph that was loaded are
  -- found: every node is in exactly one of them, and two nodes are in the same one exactly when a
  -- chain of edges, read in either direction, joins them.
  pub connected_components-classes :
      (fuel : ℕ)
      → length (ids (from_connection node_rows edge_rows degrees).nodes) < fuel
      → (cs : List (List String)) × (connected_components fuel
            (from_connection node_rows edge_rows degrees)
          ≡ some cs)
        × AreComponents (from_connection node_rows edge_rows degrees) cs
  unfolding connected_components
  connected_components-classes fuel h =
      let g = from_connection node_rows edge_rows degrees in
      let exact = from_connection-IsNeighborly node_rows edge_rows degrees in
      let ended = from_connection-Ended node_rows edge_rows degrees in
      let symmetric : (x y : String) → member y (neighbors g x) ≡ member x (neighbors g y) =
        λ x y. exact y x ∙ joins-sym x y g.edges ∙ sym (exact x y) in
      let within : (x y : String)
          → member y (neighbors g x) ≡ true
          → member y (ids g.nodes) ≡ true =
        λ x y k. joined-Ended x y g g.edges ended (sym (exact y x) ∙ k) in
      let (found, e) =
        sweep_nodes-returns (neighbors g) (ids g.nodes) within fuel (ids g.nodes) [] [] h
          (All-of_members (λ x. member x (ids g.nodes) ≡ true) (ids g.nodes) (λ x k. k)) in
      let (w, (closed, once, classes), seen) =
        sweep_nodes-Swept (neighbors g) symmetric fuel (ids g.nodes) [] [] found
          (start-Swept (neighbors g) symmetric) e in
      let each : (n : String)
          → member n (ids g.nodes) ≡ true
          → length (keep (member n) (sort_by larger found)) ≡ 1 =
        λ n k.
          (let m = seen n k in length-keep-sort_by larger (member n) found ∙ once n ∙ rw m refl) in
      let class : (c : List String)
          → IsClass (neighbors g) symmetric c
          → All (λ a. (b : String) → (member b c ≡ true) ↔ Connected (neighbors g) a b) c =
        λ c k. All-of_members _ c (λ a m b. class-Connected (neighbors g) symmetric c k a b m) in
      (
        sort_by larger found,
        rw e refl,
        (
          All-of_members _ (ids g.nodes) each,
          All-map_to _ _ class (sort_by larger found) (All-sort_by larger _ found classes),
        ),
      )
