-- ===== src/Analytics/Graph/Load.antt =====
-- src/sot_graph/analytics/graph.py: `from_connection`. The rows of the two queries and the result of
-- `compute_degrees_sql`, `none` where it raises, are what SQLite returned.
use sotgraph.Prelude.{ℕ, Option, none, some, List, [], ◌∷◌, String, str_eq, member, if◌then◌else◌}
use sotgraph.Analytics.Graph.{Node, Edge, Table, Graph, empty_graph, add_node, add_edge}

pub record GraphNodeRow : Type 0 where
  pub id : String
  pub symbol : Option String
  pub fqn : Option String
  pub label : Option String
  pub kind : Option String
  pub path : Option String
  pub line_start : Option ℕ
  pub body : Option String
  pub keywords : Option String

pub record GraphEdgeRow : Type 0 where
  pub src : String
  pub dst : String
  pub relation : Option String
  pub path : Option String
  pub line : Option ℕ

-- `x or default`
abbrev pub or_else : Option String → String → String
or_else none d = d
or_else (some s) d = if str_eq s "" then d else s

abbrev pub node_of : GraphNodeRow → Node
node_of r = record {
  id = r.id;
  label = or_else r.label "";
  kind = or_else r.kind "symbol";
  path = or_else r.path "";
  line_start = r.line_start;
  body = or_else r.body "";
  keywords = or_else r.keywords "";
  symbol = some (or_else r.symbol "");
  fqn = some (or_else r.fqn "");
}

abbrev pub inferred : String → Node
inferred id = record {
  id = id;
  label = id;
  kind = "inferred";
  path = "";
  line_start = none;
  body = "";
  keywords = "";
  symbol = none;
  fqn = none;
}

abbrev pub edge_of : GraphEdgeRow → Edge
edge_of r = record {
  src = r.src;
  dst = r.dst;
  relation = or_else r.relation "relates";
  path = or_else r.path "";
  line = r.line;
}

-- The local variables of the loops.
pub record Loading : Type 0 where
  pub graph : Graph
  pub valid_node_ids : List String

abbrev pub load_nodes : List GraphNodeRow → Loading → Loading
load_nodes [] l = l
load_nodes (r ∷ rs) l =
    load_nodes rs
      (record { graph = add_node (node_of r) l.graph; valid_node_ids = r.id ∷ l.valid_node_ids })

abbrev pub endpoint : String → Loading → Loading
endpoint n l =
    if member n l.valid_node_ids
    then l
    else record { graph = add_node (inferred n) l.graph; valid_node_ids = n ∷ l.valid_node_ids }

unfoldable pub load_edge : GraphEdgeRow → Loading → Loading
load_edge r l =
    let ends = endpoint r.dst (endpoint r.src l) in
    record ends { graph = add_edge (edge_of r) ends.graph }

abbrev pub load_edges : List GraphEdgeRow → Loading → Loading
load_edges [] l = l
load_edges (r ∷ rs) l = load_edges rs (load_edge r l)

unfoldable pub from_connection : List GraphNodeRow → List GraphEdgeRow → Option Table → Graph
from_connection node_rows edge_rows degrees =
    let loaded =
      load_edges edge_rows
        (load_nodes node_rows (record { graph = empty_graph; valid_node_ids = [] })) in
    record loaded.graph { precomputed_degrees = degrees }
