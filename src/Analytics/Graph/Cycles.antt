-- ===== src/Analytics/Graph/Cycles.antt =====
-- src/sot_graph/analytics/graph.py: `detect_cycles`, without a `cancel_check`. The path is held with
-- its last node first, as the stack is; no id is on it twice. An id has the colour BLACK, GRAY or
-- none as it is in `black`, in `gray` only, or in neither. Each turn of the loop over the stack takes
-- one unit of fuel.
pub mod Found
pub mod Searching
pub mod Sorted
pub mod Returns
pub mod Edges
pub mod Acyclic
mod Tests
use sotgraph.Prelude.{
  ℕ, zero, suc, Bool, true, false, Option, none, some, List, [], ◌∷◌, ◌++◌, map, String, str_eq,
  length, member, if◌then◌else◌, leb,
}
use sotgraph.Analytics.Graph.{Graph}

pub record CycleSearch : Type 0 where
  pub gray : List String
  pub black : List String
  pub path : List String
  pub stack : List (String × List String)
  pub cycles : List (List String)

-- `path[path.index(dst):]` before what is given
abbrev pub back_to : String → List String → List String → List String
back_to dst [] found = found
back_to dst (a ∷ path) found =
    let further = back_to dst path (a ∷ found) in if str_eq dst a then a ∷ found else further

-- How the loop over the neighbors ends: at a new node, with the neighbors that are left, or not.
pub data Scan : Type 0 where
  advanced : String → List String → List (List String) → Scan
  finished : List (List String) → Scan

unfoldable pub scan : ℕ → CycleSearch → List String → List (List String) → Scan
scan max_cycles s [] cycles = finished cycles
scan max_cycles s (dst ∷ neighbours) cycles =
    let passed = scan max_cycles s neighbours cycles in
    let closed = scan max_cycles s neighbours (cycles ++ (back_to dst s.path (dst ∷ []) ∷ [])) in
    if leb max_cycles (length cycles)
    then finished cycles
    else if member dst s.black
    then passed
    else if member dst s.gray
    then closed
    else advanced dst neighbours cycles

abbrev pub pop_path : List String → List String
pop_path [] = []
pop_path (a ∷ path) = path

abbrev pub descend :
    (String → List String)
    → String
    → String
    → List String
    → List (String × List String)
    → List (List String)
    → CycleSearch
    → CycleSearch
descend adj dst node rest stack cycles s = record {
  gray = dst ∷ s.gray;
  black = s.black;
  path = dst ∷ s.path;
  stack = (dst, adj dst) ∷ (node, rest) ∷ stack;
  cycles = cycles;
}

abbrev pub retire :
    String → List (String × List String) → List (List String) → CycleSearch → CycleSearch
retire node stack cycles s = record {
  gray = s.gray;
  black = node ∷ s.black;
  path = pop_path s.path;
  stack = stack;
  cycles = cycles;
}

abbrev pub turn :
    (String → List String) → String → List (String × List String) → CycleSearch → Scan → CycleSearch
turn adj node stack s (advanced dst rest cycles) = descend adj dst node rest stack cycles s
turn adj node stack s (finished cycles) = retire node stack cycles s

-- `while stack`
unfoldable pub explore : (String → List String) → ℕ → ℕ → CycleSearch → Option CycleSearch
explore adj max_cycles zero s = none
explore adj max_cycles (suc n) s = elim s.stack [
  | [] ↦ some s
  | (node, neighbours) ∷ stack ↦
      explore adj max_cycles n (turn adj node stack s (scan max_cycles s neighbours s.cycles))
]

abbrev pub begin_at : (String → List String) → String → CycleSearch → CycleSearch
begin_at adj root s = record {
  gray = root ∷ s.gray;
  black = s.black;
  path = root ∷ s.path;
  stack = (root, adj root) ∷ [];
  cycles = s.cycles;
}

-- The loop over the roots.
unfoldable pub search_roots :
    (String → List String) → ℕ → ℕ → List String → CycleSearch → Option CycleSearch
search_roots adj max_cycles fuel [] s = some s
search_roots adj max_cycles fuel (root ∷ roots) s =
    let skipped = search_roots adj max_cycles fuel roots s in
    let go_on : CycleSearch → Option CycleSearch = λ t. search_roots adj max_cycles fuel roots t in
    if leb max_cycles (length s.cycles)
    then some s
    else if member root s.gray
    then skipped
    else elim (explore adj max_cycles fuel (begin_at adj root s)) [ none ↦ none | some t ↦ go_on t ]

abbrev pub unsearched : CycleSearch
unsearched = record { gray = []; black = []; path = []; stack = []; cycles = [] }

abbrev pub cycles_of : Option CycleSearch → Option (List (List String))
cycles_of none = none
cycles_of (some s) = some s.cycles

abbrev pub successors : Graph → String → List String
successors g n = map (λ p. p.0) (g.adj_out n)

unfoldable pub detect_cycles : ℕ → ℕ → Graph → Option (List (List String))
detect_cycles max_cycles fuel g =
    cycles_of (search_roots (successors g) max_cycles fuel (map (λ n. n.id) g.nodes) unsearched)
