-- ===== src/Analytics/Graph/Refine.antt =====
-- `AnalyticsGraph` of src/sot_graph/analytics/graph.py against a list of edges.
use sotgraph.Prelude.{
  ◌+◌, ◌≡◌, refl, sym, ap, subst, Option, List, [], ◌∷◌, ◌++◌, map, String, member, Bool-cases, inl,
  inr,
}
use mathlib.Core.List.{append-nil, append_assoc}
use sotgraph.Analytics.Graph.{
  Node, Edge, Table, Graph, empty_graph, add_node, add_edge, in_degree, out_degree, degree,
}
use sotgraph.Analytics.Graph.Load.{
  GraphNodeRow, GraphEdgeRow, Loading, edge_of, load_nodes, endpoint, load_edge, load_edges,
  from_connection,
}
use sotgraph.Analytics.Graph.Counts.{
  incoming, outgoing, AreExact, Counted, add_edge-Counted, add_node-Counted, degrees-Counted,
}

-- A call of `add_node` or `add_edge`.
pub data Call : Type 0 where
  node : Node → Call
  edge : Edge → Call

abbrev pub apply : Call → Graph → Graph
apply (node n) g = add_node n g
apply (edge e) g = add_edge e g

abbrev pub run : List Call → Graph → Graph
run [] g = g
run (c ∷ cs) g = run cs (apply c g)

-- The abstract view of a graph is its edges.
abbrev pub abstract_run : List Call → List Edge → List Edge
abstract_run [] es = es
abstract_run (node n ∷ cs) es = abstract_run cs es
abstract_run (edge e ∷ cs) es = abstract_run cs (es ++ (e ∷ []))

abbrev Shows : Graph → List Edge → Type 0
Shows g es = (g.edges ≡ es) × Counted g

add_node-Shows : (n : Node) (g : Graph) (es : List Edge) → Shows g es → Shows (add_node n g) es
unfolding add_node
add_node-Shows n g es (e, h) = (e, add_node-Counted n g h)

add_edge-Shows :
    (e : Edge) (g : Graph) (es : List Edge) → Shows g es → Shows (add_edge e g) (es ++ (e ∷ []))
unfolding add_edge
add_edge-Shows e g es (s, h) = (ap (λ l. l ++ (e ∷ [])) s, add_edge-Counted g e h)

run-Shows :
    (cs : List Call) (g : Graph) (es : List Edge)
    → Shows g es
    → Shows (run cs g) (abstract_run cs es)
run-Shows [] g es h = h
run-Shows (node n ∷ cs) g es h = run-Shows cs (add_node n g) es (add_node-Shows n g es h)
run-Shows (edge e ∷ cs) g es h =
    run-Shows cs (add_edge e g) (es ++ (e ∷ [])) (add_edge-Shows e g es h)

load_nodes-Shows :
    (rs : List GraphNodeRow) (l : Loading) (es : List Edge)
    → Shows l.graph es
    → Shows (load_nodes rs l).graph es
load_nodes-Shows [] l es h = h
load_nodes-Shows (r ∷ rs) l es h = load_nodes-Shows rs _ es (add_node-Shows _ l.graph es h)

endpoint-Shows :
    (n : String) (l : Loading) (es : List Edge) → Shows l.graph es → Shows (endpoint n l).graph es
endpoint-Shows n l es h = elim (Bool-cases (member n l.valid_node_ids)) [
  | inl e ↦ rw e h
  | inr e ↦ rw e (add_node-Shows _ l.graph es h)
]

load_edges-Shows :
    (rs : List GraphEdgeRow) (l : Loading) (es : List Edge)
    → Shows l.graph es
    → Shows (load_edges rs l).graph (es ++ map edge_of rs)
unfolding load_edge
load_edges-Shows [] l es h = subst (Shows l.graph) (sym (append-nil es)) h
load_edges-Shows (r ∷ rs) l es h =
    let start = endpoint r.src l in
    let ends = endpoint-Shows r.dst start es (endpoint-Shows r.src l es h) in
    let rest =
      load_edges-Shows rs (load_edge r l) (es ++ (edge_of r ∷ []))
        (add_edge-Shows (edge_of r) (endpoint r.dst start).graph es ends) in
    subst (Shows (load_edges (r ∷ rs) l).graph) (append_assoc es (edge_of r ∷ []) (map edge_of rs))
      rest

empty-Shows : Shows empty_graph []
empty-Shows = (refl, ((λ n. (refl, refl)), tt))

from_connection-Shows :
    (node_rows : List GraphNodeRow) (edge_rows : List GraphEdgeRow) (degrees : Option Table)
    → AreExact (map edge_of edge_rows) degrees
    → Shows (from_connection node_rows edge_rows degrees) (map edge_of edge_rows)
unfolding from_connection
from_connection-Shows node_rows edge_rows degrees exact =
    let start : Loading = record { graph = empty_graph; valid_node_ids = [] } in
    let (e, h) =
      load_edges-Shows edge_rows (load_nodes node_rows start) []
        (load_nodes-Shows node_rows start [] empty-Shows) in
    (e, (h.0, subst (λ es. AreExact es degrees) (sym e) exact))

-- However the graph grows after it was loaded, the degrees of every node are the numbers of the edges
-- that end and start there, those of the rows and those added, a self-loop being both. This holds
-- with no table of degrees, and with one that was right for the rows.
pub run-degrees :
    (node_rows : List GraphNodeRow) (edge_rows : List GraphEdgeRow) (degrees : Option Table)
    (cs : List Call) (n : String)
    → AreExact (map edge_of edge_rows) degrees
    → (in_degree (run cs (from_connection node_rows edge_rows degrees)) n
        ≡ incoming (abstract_run cs (map edge_of edge_rows)) n)
      × (out_degree (run cs (from_connection node_rows edge_rows degrees)) n
          ≡ outgoing (abstract_run cs (map edge_of edge_rows)) n)
      × (degree (run cs (from_connection node_rows edge_rows degrees)) n
          ≡ incoming (abstract_run cs (map edge_of edge_rows)) n
            + outgoing (abstract_run cs (map edge_of edge_rows)) n)
run-degrees node_rows edge_rows degrees cs n exact =
    let g = run cs (from_connection node_rows edge_rows degrees) in
    let (e, h) = run-Shows cs _ _ (from_connection-Shows node_rows edge_rows degrees exact) in
    subst
      (λ es.
        (in_degree g n ≡ incoming es n)
        × (out_degree g n ≡ outgoing es n)
        × (degree g n ≡ incoming es n + outgoing es n))
      e (degrees-Counted g n h)
