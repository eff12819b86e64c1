-- ===== src/Analytics/Graph/Components.antt =====
-- src/sot_graph/analytics/graph.py: `connected_components`. Each turn of the inner `while` loop takes
-- one unit of fuel.
pub mod Push
pub mod Growing
pub mod Classes
pub mod Enough
use sotgraph.Prelude.{
  ℕ, zero, suc, Bool, true, false, Option, none, some, List, [], ◌∷◌, ◌++◌, map, String, str_eq,
  length, member, if◌then◌else◌, ltb, sort_by,
}
use sotgraph.Analytics.Graph.{Node, Graph, set_add, neighbors}

pub record Frontier : Type 0 where
  pub visited : List String
  pub queue : List String

-- The loop over the neighbors.
unfoldable pub push : List String → Frontier → Frontier
push [] f = f
push (y ∷ ys) f =
    let pushed = push ys (record { visited = y ∷ f.visited; queue = f.queue ++ (y ∷ []) }) in
    let passed = push ys f in if member y f.visited then passed else pushed

-- `while queue`: the visited nodes and the component.
unfoldable pub grow :
    (String → List String) → ℕ → Frontier → List String → Option (List String × List String)
grow adj zero f component = none
grow adj (suc n) f component = elim f.queue [
  | [] ↦ some (f.visited, component)
  | current ∷ queue ↦
      grow adj n (push (adj current) (record { visited = f.visited; queue = queue }))
        (set_add current component)
]

abbrev pub seed : String → List String → Frontier
seed node visited = record { visited = node ∷ visited; queue = node ∷ [] }

-- The loop over the nodes.
unfoldable pub sweep_nodes :
    (String → List String)
    → ℕ
    → List String
    → List String
    → List (List String)
    → Option (List (List String))
sweep_nodes adj fuel [] visited components = some components
sweep_nodes adj fuel (node ∷ nodes) visited components =
    let skipped = sweep_nodes adj fuel nodes visited components in
    let more : List String × List String → Option (List (List String)) =
      λ p. sweep_nodes adj fuel nodes p.0 (components ++ (p.1 ∷ [])) in
    if member node visited
    then skipped
    else elim (grow adj fuel (seed node visited) []) [ none ↦ none | some p ↦ more p ]

abbrev pub larger : List String → List String → Bool
larger a b = ltb (length b) (length a)

abbrev pub sort_components : Option (List (List String)) → Option (List (List String))
sort_components none = none
sort_components (some cs) = some (sort_by larger cs)

unfoldable pub connected_components : ℕ → Graph → Option (List (List String))
connected_components fuel g =
    sort_components (sweep_nodes (neighbors g) fuel (map (λ n. n.id) g.nodes) [] [])
