-- ===== src/Analytics/Graph/Tests.antt =====
-- A small graph of src/sot_graph/analytics/graph.py, and what is proved about it.
use sotgraph.Prelude.{
  ◌+◌, ◌<◌, ◌≡◌, refl, none, some, List, [], ◌∷◌, map, String, length, str_eq, eq_iff, sym, subst,
  Bool-cases, inl, inr, if◌then◌else◌, arith,
}
use sotgraph.Analytics.Graph.{Edge, Table, Graph, in_degree, out_degree, degree, add_node, add_edge}
use sotgraph.Analytics.Graph.Load.{GraphNodeRow, GraphEdgeRow, edge_of, load_edge, from_connection}
use sotgraph.Analytics.Graph.Counts.{incoming, outgoing, IsExact, AreExact}
use sotgraph.Analytics.Graph.Refine.{Call, edge, abstract_run, run, run-degrees}
use sotgraph.Analytics.Graph.Ends.{ids}
use sotgraph.Analytics.Graph.Components.{push, grow, sweep_nodes, connected_components}
use sotgraph.Analytics.Graph.Components.Enough.{AreComponents, connected_components-classes}

abbrev row : String → GraphNodeRow
row id = record {
  id = id;
  symbol = some id;
  fqn = none;
  label = some "";
  kind = none;
  path = some "m.py";
  line_start = some 1;
  body = none;
  keywords = none;
}

abbrev link : String → String → GraphEdgeRow
link a b = record { src = a; dst = b; relation = some "calls"; path = some "m.py"; line = none }

-- `main` calls `run`, which calls itself and a node that is not indexed; `old` stands alone.
abbrev node_rows : List GraphNodeRow
node_rows = row "main" ∷ row "run" ∷ row "old" ∷ []

abbrev edge_rows : List GraphEdgeRow
edge_rows = link "main" "run" ∷ link "run" "run" ∷ link "run" "print" ∷ []

abbrev small : Graph
small = from_connection node_rows edge_rows none

small-components :
    connected_components 9 small ≡ some (("main" ∷ "run" ∷ "print" ∷ []) ∷ ("old" ∷ []) ∷ [])
unfolding connected_components sweep_nodes grow push from_connection load_edge add_edge add_node
small-components = refl

small-degree : (in_degree small "run" ≡ 2) × (out_degree small "run" ≡ 2) × (degree small "run" ≡ 4)
unfolding in_degree out_degree degree from_connection load_edge add_edge add_node
small-degree = (refl, refl, refl)

-- The table that SQLite computes has no entry for the node that is not indexed.
abbrev small_table : Table
small_table n =
    if str_eq n "main" then some (record { in_cnt = 0; out_cnt = 1; total = 1 }) else none

small-size : length (ids small.nodes) < 9
unfolding from_connection load_edge add_edge add_node
small-size = omega arith

connected_components-classes_example :
    (cs : List (List String)) × (connected_components 9 small ≡ some cs) × AreComponents small cs
connected_components-classes_example =
    connected_components-classes node_rows edge_rows none 9 small-size

abbrev main_again : Edge
main_again = record { src = "main"; dst = "old"; relation = "calls"; path = "m.py"; line = none }

abbrev grown : List Call
grown = edge main_again ∷ []

small_table-exact : AreExact (map edge_of edge_rows) (some small_table)
small_table-exact n = elim (Bool-cases (str_eq n "main")) [
  | inl e ↦
      (let same : "main" ≡ n = sym ((eq_iff n "main").0 e) in
        subst (λ m. IsExact (map edge_of edge_rows) (small_table m) m) same (refl, refl, refl))
  | inr e ↦ rw e tt
]

run-degrees_example :
    (in_degree (run grown (from_connection node_rows edge_rows (some small_table))) "main"
      ≡ incoming (abstract_run grown (map edge_of edge_rows)) "main")
    × (out_degree (run grown (from_connection node_rows edge_rows (some small_table))) "main"
        ≡ outgoing (abstract_run grown (map edge_of edge_rows)) "main")
    × (degree (run grown (from_connection node_rows edge_rows (some small_table))) "main"
        ≡ incoming (abstract_run grown (map edge_of edge_rows)) "main"
          + outgoing (abstract_run grown (map edge_of edge_rows)) "main")
run-degrees_example =
    run-degrees node_rows edge_rows (some small_table) grown "main" small_table-exact
