-- ===== src/Analytics/Graph/Cycles/Tests.antt =====
-- Searches for cycles of src/sot_graph/analytics/graph.py, and instances of what is proved about them.
use sotgraph.Prelude.{◌*◌, ◌<◌, ◌≡◌, refl, none, some, List, [], ◌∷◌, String, length, All, arith}
use sotgraph.Analytics.Graph.{add_node, add_edge}
use sotgraph.Analytics.Graph.Load.{GraphEdgeRow, load_edge, from_connection}
use sotgraph.Analytics.Graph.Ends.{ids}
use sotgraph.Analytics.Graph.Cycles.{scan, explore, search_roots, detect_cycles, successors}
use sotgraph.Analytics.Graph.Cycles.Found.{Chain, IsCycle}
use sotgraph.Analytics.Graph.Cycles.Acyclic.{detect_cycles-IsCycle, detect_cycles-acyclic}

abbrev calls : String → String → GraphEdgeRow
calls a b = record { src = a; dst = b; relation = some "calls"; path = some "m.py"; line = none }

-- A loop of three nodes, with a self-loop on one of them.
abbrev looped : List GraphEdgeRow
looped = calls "a" "b" ∷ calls "b" "c" ∷ calls "c" "c" ∷ calls "c" "a" ∷ []

looped-cycles :
    detect_cycles 100 9 (from_connection [] looped none)
    ≡ some (("c" ∷ "c" ∷ []) ∷ ("a" ∷ "b" ∷ "c" ∷ "a" ∷ []) ∷ [])
unfolding detect_cycles search_roots explore scan from_connection load_edge add_edge add_node
looped-cycles = refl

looped-limit : detect_cycles 1 9 (from_connection [] looped none) ≡ some (("c" ∷ "c" ∷ []) ∷ [])
unfolding detect_cycles search_roots explore scan from_connection load_edge add_edge add_node
looped-limit = refl

looped-size : 2 * length (ids (from_connection [] looped none).nodes) < 9
unfolding from_connection load_edge add_edge add_node
looped-size = omega arith

detect_cycles-IsCycle_example :
    (cs : List (List String)) × (detect_cycles 100 9 (from_connection [] looped none) ≡ some cs)
    × All (IsCycle (successors (from_connection [] looped none))) cs
detect_cycles-IsCycle_example = detect_cycles-IsCycle [] looped none 100 (omega arith) 9 looped-size

-- Two ways from one node to another.
abbrev diamond : List GraphEdgeRow
diamond = calls "a" "b" ∷ calls "a" "c" ∷ calls "b" "d" ∷ calls "c" "d" ∷ []

diamond-cycles : detect_cycles 100 20 (from_connection [] diamond none) ≡ some []
unfolding detect_cycles search_roots explore scan from_connection load_edge add_edge add_node
diamond-cycles = refl

detect_cycles-acyclic_example :
    ¬ Chain (successors (from_connection [] diamond none)) "a" "a" ("a" ∷ "b" ∷ "d" ∷ "a" ∷ [])
detect_cycles-acyclic_example =
    detect_cycles-acyclic [] diamond none 100 (omega arith) 20 "a" ("a" ∷ "b" ∷ "d" ∷ "a" ∷ [])
      diamond-cycles
