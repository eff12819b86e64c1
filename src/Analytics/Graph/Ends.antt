-- ===== src/Analytics/Graph/Ends.antt =====
-- The ends of the edges of `AnalyticsGraph` (src/sot_graph/analytics/graph.py).
use sotgraph.Prelude.{
  ◌≡◌, refl, sym, subst, Bool, true, ◌&&◌, ◌||◌, Option, List, [], ◌∷◌, map, String, str_eq, eq_iff,
  any, any-append, member, member_self, All, All-snoc, All-map_to, Bool-cases, inl, inr, arith,
}
use sotgraph.Analytics.Graph.{
  Node, Edge, Table, Graph, empty_graph, put_node, with_label, set_add, at, add_node, add_edge,
  neighbors,
}
use sotgraph.Analytics.Graph.Load.{
  GraphNodeRow, GraphEdgeRow, Loading, node_of, inferred, edge_of, load_nodes, endpoint, load_edge,
  load_edges, from_connection,
}

-- The edge joins the two nodes, in one direction or the other.
abbrev pub joins : String → String → Edge → Bool
joins m n e = (str_eq n e.src && str_eq m e.dst) || (str_eq n e.dst && str_eq m e.src)

abbrev pub IsNeighborly : Graph → Type 0
IsNeighborly g = (m n : String) → member m (neighbors g n) ≡ any (joins m n) g.edges

pub member-set_add :
    (m x : String) (xs : List String) → member m (set_add x xs) ≡ (str_eq m x || member m xs)
member-set_add m x xs = elim (Bool-cases (member x xs)) [
  | inr e ↦ rw e (ground (arith, any-append (str_eq m) xs (x ∷ [])))
  | inl e ↦ rw e (elim (Bool-cases (str_eq m x)) [
    | inr d ↦ (ground arith)
    | inl s ↦
        (let same : m ≡ x = (eq_iff m x).0 s in
          let here : member m xs ≡ true = subst (λ y. member y xs ≡ true) (sym same) e in
          ground arith)
  ])
]

member-at :
    (m n end x : String) (adj : String → List String)
    → member m (at end (set_add x) adj n) ≡ ((str_eq n end && str_eq m x) || member m (adj n))
member-at m n end x adj = elim (Bool-cases (str_eq n end)) [
  | inl e ↦ rw e (member-set_add m x (adj n))
  | inr e ↦ rw e refl
]

pub add_edge-IsNeighborly : (e : Edge) (g : Graph) → IsNeighborly g → IsNeighborly (add_edge e g)
unfolding add_edge
add_edge-IsNeighborly e g h m n =
    let outer = member-at m n e.dst e.src (at e.src (set_add e.dst) g.undirected_adj) in
    let inner = member-at m n e.src e.dst g.undirected_adj in
    let appended = any-append (joins m n) g.edges (e ∷ []) in let before = h m n in ground arith

-- A property of graphs that both operations keep.
module _ (P : Graph → Type 0) (with_node : (n : Node) (g : Graph) → P g → P (add_node n g))
    (with_edge : (e : Edge) (g : Graph) → P g → P (add_edge e g)) where
  pub load_nodes-keeps :
      (rs : List GraphNodeRow) (l : Loading) → P l.graph → P (load_nodes rs l).graph
  load_nodes-keeps [] l h = h
  load_nodes-keeps (r ∷ rs) l h = load_nodes-keeps rs _ (with_node (node_of r) l.graph h)

  endpoint-keeps : (n : String) (l : Loading) → P l.graph → P (endpoint n l).graph
  endpoint-keeps n l h = elim (Bool-cases (member n l.valid_node_ids)) [
    | inl e ↦ rw e h
    | inr e ↦ rw e (with_node (inferred n) l.graph h)
  ]

  pub load_edges-keeps :
      (rs : List GraphEdgeRow) (l : Loading) → P l.graph → P (load_edges rs l).graph
  unfolding load_edge
  load_edges-keeps [] l h = h
  load_edges-keeps (r ∷ rs) l h =
      let start = endpoint r.src l in
      load_edges-keeps rs (load_edge r l) (
        with_edge (edge_of r) (endpoint r.dst start).graph
          (endpoint-keeps r.dst start (endpoint-keeps r.src l h)))

-- In a graph that was loaded, the neighbors of a node are exactly the other ends of its edges, in
-- either direction.
pub from_connection-IsNeighborly :
    (node_rows : List GraphNodeRow) (edge_rows : List GraphEdgeRow) (degrees : Option Table)
    (m n : String)
    → member m (neighbors (from_connection node_rows edge_rows degrees) n)
      ≡ any (joins m n) (from_connection node_rows edge_rows degrees).edges
unfolding from_connection add_node
from_connection-IsNeighborly node_rows edge_rows degrees =
    let start : Loading = record { graph = empty_graph; valid_node_ids = [] } in
    load_edges-keeps IsNeighborly (λ n g h. h) add_edge-IsNeighborly edge_rows
      (load_nodes node_rows start)
      (load_nodes-keeps IsNeighborly (λ n g h. h) add_edge-IsNeighborly node_rows start
        (λ m n. refl))

abbrev pub ids : List Node → List String
ids = map (λ n. n.id)

member-put_node :
    (x : String) (n : Node) (ns : List Node)
    → member x (ids (put_node n ns)) ≡ (str_eq x n.id || member x (ids ns))
member-put_node x n [] = refl
member-put_node x n (k ∷ ks) = elim (Bool-cases (str_eq n.id k.id)) [
  | inr e ↦ rw e (ground (arith, member-put_node x n ks))
  | inl e ↦
      (let same : n.id ≡ k.id = (eq_iff n.id k.id).0 e in
        rw e (
          subst
            (λ y.
              (str_eq x n.id || member x (ids ks))
              ≡ (str_eq x n.id || (str_eq x y || member x (ids ks))))
            same (ground arith)))
]

abbrev pub Ended : List Node → Edge → Type 0
Ended ns e = (member e.src (ids ns) ≡ true) × (member e.dst (ids ns) ≡ true)

-- The ids that the loader takes for valid are nodes, and the ends of the edges are.
abbrev Loaded : Loading → Type 0
Loaded l =
    ((x : String) → member x l.valid_node_ids ≡ true → member x (ids l.graph.nodes) ≡ true)
    × All (Ended l.graph.nodes) l.graph.edges

add_node-Loaded :
    (n : Node) (l : Loading)
    → Loaded l
    → Loaded (record { graph = add_node n l.graph; valid_node_ids = n.id ∷ l.valid_node_ids })
unfolding add_node
add_node-Loaded n l (valid, ended) =
    let more : (x : String)
        → member x (ids l.graph.nodes) ≡ true
        → member x (ids (put_node (with_label n) l.graph.nodes)) ≡ true =
      λ x h. ground (arith, member-put_node x (with_label n) l.graph.nodes) in
    (
      (λ x h. let v = valid x in ground (arith, member-put_node x (with_label n) l.graph.nodes)),
      All-map_to _ _ (λ e (a, b). (more e.src a, more e.dst b)) l.graph.edges ended,
    )

load_nodes-Loaded : (rs : List GraphNodeRow) (l : Loading) → Loaded l → Loaded (load_nodes rs l)
load_nodes-Loaded [] l h = h
load_nodes-Loaded (r ∷ rs) l h = load_nodes-Loaded rs _ (add_node-Loaded (node_of r) l h)

endpoint-Loaded :
    (n : String) (l : Loading)
    → Loaded l
    → Loaded (endpoint n l) × (member n (endpoint n l).valid_node_ids ≡ true)
endpoint-Loaded n l h = elim (Bool-cases (member n l.valid_node_ids)) [
  | inl e ↦ rw e (h, e)
  | inr e ↦ rw e (add_node-Loaded (inferred n) l h, member_self n l.valid_node_ids)
]

endpoint-valid :
    (x n : String) (l : Loading)
    → member x l.valid_node_ids ≡ true
    → member x (endpoint n l).valid_node_ids ≡ true
endpoint-valid x n l h = elim (Bool-cases (member n l.valid_node_ids)) [
  | inl e ↦ rw e h
  | inr e ↦ rw e (ground arith)
]

load_edges-Loaded : (rs : List GraphEdgeRow) (l : Loading) → Loaded l → Loaded (load_edges rs l)
unfolding load_edge add_edge
load_edges-Loaded [] l h = h
load_edges-Loaded (r ∷ rs) l h =
    let start = endpoint r.src l in
    let (h1, v1) = endpoint-Loaded r.src l h in
    let (h2, v2) = endpoint-Loaded r.dst start h1 in
    let ends = endpoint r.dst start in
    load_edges-Loaded rs (load_edge r l) (
      h2.0,
      All-snoc (Ended ends.graph.nodes) ends.graph.edges (edge_of r) h2.1
          (h2.0 r.src (endpoint-valid r.src r.dst start v1), h2.0 r.dst v2),
    )

-- Both ends of every edge of a graph that was loaded are nodes of it, also where the rows of the
-- nodes lack them.
pub from_connection-Ended :
    (node_rows : List GraphNodeRow) (edge_rows : List GraphEdgeRow) (degrees : Option Table)
    → All
        (Ended (from_connection node_rows edge_rows degrees).nodes)
        (from_connection node_rows edge_rows degrees).edges
unfolding from_connection
from_connection-Ended node_rows edge_rows degrees =
    let start : Loading = record { graph = empty_graph; valid_node_ids = [] } in
    (load_edges-Loaded edge_rows (load_nodes node_rows start)
      (load_nodes-Loaded node_rows start ((λ x h. h), tt))).1
