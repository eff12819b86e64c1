-- ===== src/Impact/Callers.antt =====
-- src/sot_graph/diff_impact.py: `DiffImpactEngine._traverse_reverse_call_graph`. The query for the
-- edges into a node is the parameter `rows_into`, `none` where it raises; a row's `id` is `e.src`,
-- which the join makes the same as `n.id`. Each turn of the loop takes one unit of fuel.
pub mod Loop
pub mod Enough
pub mod Found
pub mod Expand
pub mod Between
pub mod Nearest
use sotgraph.Prelude.{
  ℕ, zero, suc, ◌+◌, Bool, true, false, not, ◌||◌, Option, none, some, List, [], ◌∷◌, ◌++◌, map,
  String, str_eq, ltb, leb, ◌==◌, ◌&&◌, any, sort_by, nonempty, if◌then◌else◌, member,
}
use sotgraph.Prelude.Text.{text_before}
use sotgraph.Impact.Mapper.{DirectNodeChange, or_empty, or_one}

-- A row of the query.
pub record EdgeRow : Type 0 where
  pub id : String
  pub relation : String
  pub path : String
  pub kind : String
  pub symbol : Option String
  pub fqn : Option String
  pub label : Option String
  pub line_start : Option ℕ

pub record CallerImpact : Type 0 where
  pub id : String
  pub path : String
  pub kind : String
  pub symbol : String
  pub fqn : String
  pub label : String
  pub line_start : ℕ
  pub depth : ℕ
  pub via_relation : String
  pub callee_id : String
  pub callee_symbol : String

-- An entry of the queue.
pub record Pending : Type 0 where
  pub id : String
  pub symbol : String
  pub depth : ℕ

-- The local variables of the loop.
pub record Walk : Type 0 where
  pub visited_nodes : List String
  pub queue : List Pending
  pub callers : List CallerImpact

abbrev pub caller_of : Pending → EdgeRow → CallerImpact
caller_of curr row = record {
  id = row.id;
  path = row.path;
  kind = row.kind;
  symbol = or_empty row.symbol;
  fqn = or_empty row.fqn;
  label = or_empty row.label;
  line_start = or_one row.line_start;
  depth = curr.depth;
  via_relation = row.relation;
  callee_id = curr.id;
  callee_symbol = curr.symbol;
}

abbrev pub next_of : Pending → EdgeRow → Pending
next_of curr row = record { id = row.id; symbol = or_empty row.symbol; depth = suc curr.depth }

-- The sort key `(depth, path, line_start)`.
abbrev pub nearer : CallerImpact → CallerImpact → Bool
nearer a b =
    ltb a.depth b.depth
    || (a.depth == b.depth
        && (text_before a.path b.path || (str_eq a.path b.path && ltb a.line_start b.line_start)))

abbrev pub sorted_callers : Option (List CallerImpact) → Option (List CallerImpact)
sorted_callers none = none
sorted_callers (some cs) = some (sort_by nearer cs)

module _ (max_depth : ℕ) where
  -- The body of the loop over the rows.
  unfoldable pub visit_row : Pending → EdgeRow → Walk → Walk
  visit_row curr row w = if member row.id w.visited_nodes then w else record {
    visited_nodes = row.id ∷ w.visited_nodes;
    queue = if ltb curr.depth max_depth then w.queue ++ (next_of curr row ∷ []) else w.queue;
    callers = w.callers ++ (caller_of curr row ∷ []);
  }

  unfoldable pub visit_rows : Pending → List EdgeRow → Walk → Walk
  unfolding visit_row
  visit_rows curr [] w = w
  visit_rows curr (row ∷ rows) w = visit_rows curr rows (visit_row curr row w)

  module _ (rows_into : String → Option (List EdgeRow)) where
    -- `while queue`; `none` is a want of fuel.
    unfoldable pub walk :
        ℕ → List String → List Pending → List CallerImpact → Option (List CallerImpact)
    unfolding visit_rows
    walk zero visited queue callers = none
    walk (suc n) visited [] callers = some callers
    walk (suc n) visited (curr ∷ queue) callers =
        let start : Walk = record { visited_nodes = visited; queue = queue; callers = callers } in
        let skipped = walk n visited queue callers in
        let visit : List EdgeRow → Walk = λ rows. visit_rows curr rows start in
        let go_on : List EdgeRow → Option (List CallerImpact) =
          λ rows. walk n (visit rows).visited_nodes (visit rows).queue (visit rows).callers in
        if ltb max_depth curr.depth
        then skipped
        else elim (rows_into curr.id) [ none ↦ some callers | some rows ↦ go_on rows ]

    abbrev pub first : DirectNodeChange → Pending
    first d = record { id = d.id; symbol = d.symbol; depth = 1 }

    abbrev pub ids : List DirectNodeChange → List String
    ids = map (λ d. d.id)

    unfoldable pub traverse : ℕ → List DirectNodeChange → Option (List CallerImpact)
    unfolding walk
    traverse fuel direct_nodes =
        if not (nonempty direct_nodes) || leb max_depth 0
        then some []
        else sorted_callers (walk fuel (ids direct_nodes) (map first direct_nodes) [])
