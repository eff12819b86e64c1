-- ===== src/Analytics/Graph/Cycles/Edges.antt =====
-- The successors of a node in a graph that was loaded (src/sot_graph/analytics/graph.py).
use sotgraph.Prelude.{
  ◌≡◌, refl, sym, ◌∙◌, Bool, true, ◌&&◌, ◌||◌, List, [], ◌∷◌, ◌++◌, map, String, str_eq, any,
  any-append, member, All, Option, Bool-cases, inl, inr, arith,
}
use sotgraph.Analytics.Graph.{Edge, Table, Graph, empty_graph, add_node, add_edge}
use sotgraph.Analytics.Graph.Load.{GraphNodeRow, GraphEdgeRow, Loading, load_nodes, from_connection}
use sotgraph.Analytics.Graph.Components.Push.{member-same}
use sotgraph.Analytics.Graph.Ends.{
  ids, Ended, load_nodes-keeps, load_edges-keeps, from_connection-Ended,
}
use sotgraph.Analytics.Graph.Cycles.{successors}

abbrev leads : String → String → Edge → Bool
leads x y e = str_eq x e.src && str_eq y e.dst

abbrev IsDirected : Graph → Type 0
IsDirected g = (x y : String) → member y (successors g x) ≡ any (leads x y) g.edges

member-firsts :
    (y a b : String) (l : List (String × String))
    → member y (map (λ p. p.0) (l ++ ((a, b) ∷ []))) ≡ (member y (map (λ p. p.0) l) || str_eq y a)
member-firsts y a b [] = ground arith
member-firsts y a b (p ∷ l) = ground (arith, member-firsts y a b l)

add_edge-IsDirected : (e : Edge) (g : Graph) → IsDirected g → IsDirected (add_edge e g)
unfolding add_edge
add_edge-IsDirected e g h x y =
    let appended = any-append (leads x y) g.edges (e ∷ []) in
    let before = h x y in
    elim (Bool-cases (str_eq x e.src)) [
      | inl s ↦ rw s (let firsts = member-firsts y e.dst e.relation (g.adj_out x) in ground arith)
      | inr s ↦ rw s (ground arith)
    ]

from_connection-IsDirected :
    (node_rows : List GraphNodeRow) (edge_rows : List GraphEdgeRow) (degrees : Option Table)
    → IsDirected (from_connection node_rows edge_rows degrees)
unfolding from_connection add_node
from_connection-IsDirected node_rows edge_rows degrees =
    let start : Loading = record { graph = empty_graph; valid_node_ids = [] } in
    load_edges-keeps IsDirected (λ n g h. h) add_edge-IsDirected edge_rows
      (load_nodes node_rows start)
      (load_nodes-keeps IsDirected (λ n g h. h) add_edge-IsDirected node_rows start (λ x y. refl))

led-Ended :
    (x y : String) (g : Graph) (es : List Edge)
    → All (Ended g.nodes) es
    → any (leads x y) es ≡ true
    → (member x (ids g.nodes) ≡ true) × (member y (ids g.nodes) ≡ true)
led-Ended x y g [] h k = absurd (ground arith)
led-Ended x y g (e ∷ es) ((a, b), h) k = elim (Bool-cases (leads x y e)) [
  | inl s ↦ (
    member-same x e.src true (ids g.nodes) (ground arith) a,
    member-same y e.dst true (ids g.nodes) (ground arith) b,
  )
  | inr s ↦ led-Ended x y g es h (ground arith)
]

-- Both ends of a step between nodes are nodes of the graph.
pub successors-Ended :
    (node_rows : List GraphNodeRow) (edge_rows : List GraphEdgeRow) (degrees : Option Table)
    (x y : String)
    → member y (successors (from_connection node_rows edge_rows degrees) x) ≡ true
    → (member x (ids (from_connection node_rows edge_rows degrees).nodes) ≡ true)
      × (member y (ids (from_connection node_rows edge_rows degrees).nodes) ≡ true)
successors-Ended node_rows edge_rows degrees x y h =
    let g = from_connection node_rows edge_rows degrees in
    led-Ended x y g g.edges (from_connection-Ended node_rows edge_rows degrees)
      (sym (from_connection-IsDirected node_rows edge_rows degrees x y) ∙ h)
