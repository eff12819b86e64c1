-- ===== src/Analytics/Graph.antt =====
-- src/sot_graph/analytics/graph.py: `AnalyticsGraph`, its degrees and its connected components. A
-- dictionary from ids is a function with the default where there is no entry, but for the nodes,
-- which are listed in the order of insertion. A set is a list without repetition, and its iteration
-- takes the order of the list. The computations run without a `cancel_check`.
pub mod Load
pub mod Counts
pub mod Refine
pub mod Ends
pub mod Components
pub mod Cycles
mod Tests
use sotgraph.Prelude.{
  ℕ, zero, suc, ◌+◌, Bool, true, false, not, ◌&&◌, ◌||◌, Option, none, some, is_some, List, [], ◌∷◌,
  ◌++◌, map, String, str_eq, length, member, if◌then◌else◌, ltb, sort_by, nonempty,
}

-- The entry of `nodes` for an id; the row's `symbol` and `fqn` are extra entries.
pub record Node : Type 0 where
  pub id : String
  pub label : String
  pub kind : String
  pub path : String
  pub line_start : Option ℕ
  pub body : String
  pub keywords : String
  pub symbol : Option String
  pub fqn : Option String

pub record Edge : Type 0 where
  pub src : String
  pub dst : String
  pub relation : String
  pub path : String
  pub line : Option ℕ

pub record Degrees : Type 0 where
  pub in_cnt : ℕ
  pub out_cnt : ℕ
  pub total : ℕ

abbrev pub Table : Type 0
Table = String → Option Degrees

abbrev pub Adjacency : Type 0
Adjacency = String → List (String × String)

pub record Graph : Type 0 where
  pub nodes : List Node
  pub edges : List Edge
  pub adj_out : Adjacency
  pub adj_in : Adjacency
  pub undirected_adj : String → List String
  pub precomputed_degrees : Option Table

abbrev pub empty_graph : Graph
empty_graph = record {
  nodes = [];
  edges = [];
  adj_out = λ n. [];
  adj_in = λ n. [];
  undirected_adj = λ n. [];
  precomputed_degrees = none;
}

-- `nodes[id] = …`
abbrev pub put_node : Node → List Node → List Node
put_node n [] = n ∷ []
put_node n (k ∷ ks) = let rest = put_node n ks in if str_eq n.id k.id then n ∷ ks else k ∷ rest

-- The degrees that the adjacency lists show.
abbrev pub counted_degrees : Graph → String → Degrees
counted_degrees g n = record {
  in_cnt = length (g.adj_in n);
  out_cnt = length (g.adj_out n);
  total = length (g.adj_in n) + length (g.adj_out n);
}

-- The degrees of an id are entered where they are missing.
abbrev pub ensure : Graph → String → Table → Table
ensure g n t =
    if is_some (t n) then t else (λ k. if str_eq k n then some (counted_degrees g n) else t k)

abbrev pub with_out : Option Degrees → Option Degrees
with_out none = none
with_out (some d) = some (record d { out_cnt = suc d.out_cnt; total = suc d.total })

abbrev pub with_in : Option Degrees → Option Degrees
with_in none = none
with_in (some d) = some (record d { in_cnt = suc d.in_cnt; total = suc d.total })

abbrev pub at {ℓ} : {A : Type ℓ} → String → (A → A) → (String → A) → String → A
at n f t k = if str_eq k n then f (t k) else t k

abbrev pub node_degrees : Graph → String → Option Table → Option Table
node_degrees g n none = none
node_degrees g n (some t) = some (ensure g n t)

-- `label or node_id`
abbrev pub with_label : Node → Node
with_label n = record n { label = if str_eq n.label "" then n.id else n.label }

unfoldable pub add_node : Node → Graph → Graph
add_node n g = record g {
  nodes = put_node (with_label n) g.nodes;
  precomputed_degrees = node_degrees g n.id g.precomputed_degrees;
}

abbrev pub edge_degrees : Graph → Edge → Option Table → Option Table
edge_degrees g e none = none
edge_degrees g e (some t) =
    some (at e.dst with_in (at e.src with_out (ensure g e.dst (ensure g e.src t))))

-- `set.add`
abbrev pub set_add : String → List String → List String
set_add x xs = if member x xs then xs else xs ++ (x ∷ [])

unfoldable pub add_edge : Edge → Graph → Graph
add_edge e g = record g {
  edges = g.edges ++ (e ∷ []);
  precomputed_degrees = edge_degrees g e g.precomputed_degrees;
  adj_out = at e.src (λ l. l ++ ((e.dst, e.relation) ∷ [])) g.adj_out;
  adj_in = at e.dst (λ l. l ++ ((e.src, e.relation) ∷ [])) g.adj_in;
  undirected_adj = at e.dst (set_add e.src) (at e.src (set_add e.dst) g.undirected_adj);
}

abbrev pub table_entry : Option Table → String → Option Degrees
table_entry none n = none
table_entry (some t) n = t n

unfoldable pub in_degree : Graph → String → ℕ
in_degree g n = elim (table_entry g.precomputed_degrees n) [
  | none ↦ length (g.adj_in n)
  | some d ↦ d.in_cnt
]

unfoldable pub out_degree : Graph → String → ℕ
out_degree g n = elim (table_entry g.precomputed_degrees n) [
  | none ↦ length (g.adj_out n)
  | some d ↦ d.out_cnt
]

unfoldable pub degree : Graph → String → ℕ
degree g n = elim (table_entry g.precomputed_degrees n) [
  | none ↦ in_degree g n + out_degree g n
  | some d ↦ d.total
]

abbrev pub neighbors : Graph → String → List String
neighbors g n = g.undirected_adj n
