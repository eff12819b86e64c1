-- ===== src/Impact/Engine.antt =====
-- src/sot_graph/diff_impact.py: the second and third step of `DiffImpactEngine.analyze_diff_impact`,
-- from the intervals of a diff to the nodes it changes and on to their callers.
pub mod Reached
use sotgraph.Prelude.{ℕ, Option, none, some, List, String}
use sotgraph.Prelude.Text.{Text}
use sotgraph.Impact.Mapper.{DirectNodeChange, NodeRow, map_intervals_to_nodes}
use sotgraph.Impact.Callers.{CallerImpact, EdgeRow, traverse}

abbrev pub with_callers :
    List DirectNodeChange
    → Option (List CallerImpact)
    → Option (List DirectNodeChange × List CallerImpact)
with_callers direct_nodes none = none
with_callers direct_nodes (some callers) = some (direct_nodes, callers)

-- `none` is a want of fuel of the traversal.
unfoldable pub analyze_diff_impact :
    (Text → Option (List NodeRow))
    → (String → Option (List EdgeRow))
    → ℕ
    → ℕ
    → List (Text × List (ℕ × ℕ))
    → Option (List DirectNodeChange × List CallerImpact)
analyze_diff_impact query rows_into depth fuel file_intervals =
    let direct_nodes = map_intervals_to_nodes query file_intervals in
    with_callers direct_nodes (traverse depth rows_into fuel direct_nodes)
