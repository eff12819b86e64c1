-- ===== src/Impact/Mapper.antt =====
-- src/sot_graph/diff_impact.py: the interval of a hunk (`GitDeltaExtractor.parse_unified_diff`) and
-- `ASTCoordinateMapper.map_intervals_to_nodes` where the path separator is `/`. The query for the
-- nodes of a path is the parameter `query`, `none` where it raises.
pub mod Hits
use sotgraph.Prelude.{
  ℕ, zero, suc, ◌+◌, ◌-◌, max, Bool, true, false, ◌||◌, ◌&&◌, Option, none, some, List, [], ◌∷◌,
  ◌++◌, String, str_eq, ltb, leb, any, keep, nonempty, sort_by, if◌then◌else◌, member,
}
use sotgraph.Prelude.Text.{Text, codes, starts, text_before}

-- The numbers of a hunk header.
pub record DiffHunk : Type 0 where
  pub old_start : ℕ
  pub old_count : ℕ
  pub new_start : ℕ
  pub new_count : ℕ

unfoldable pub hunk_interval : DiffHunk → ℕ × ℕ
hunk_interval h =
    if ltb 0 h.new_count
    then (h.new_start, h.new_start + h.new_count - 1)
    else (h.old_start, max h.old_start (h.old_start + h.old_count - 1))

pub record DirectNodeChange : Type 0 where
  pub id : String
  pub path : String
  pub kind : String
  pub symbol : String
  pub fqn : String
  pub label : String
  pub line_start : ℕ
  pub line_end : ℕ
  pub change_type : String
  pub intersected_lines : List (ℕ × ℕ)

-- A row of the query.
pub record NodeRow : Type 0 where
  pub id : String
  pub path : String
  pub kind : String
  pub symbol : Option String
  pub fqn : Option String
  pub label : Option String
  pub line_start : Option ℕ
  pub line_end : Option ℕ

-- `row[3] or ""`
abbrev pub or_empty : Option String → String
or_empty none = ""
or_empty (some s) = s

abbrev pub or_one : Option ℕ → ℕ
or_one none = 1
or_one (some n) = n

abbrev pub drop_two : Text → Text
drop_two [] = []
drop_two (c ∷ []) = []
drop_two (c ∷ d ∷ cs) = cs

unfoldable pub normalize_path : Text → Text
normalize_path path = if starts path (codes "./") then drop_two path else path

unfoldable pub overlaps : ℕ → ℕ → ℕ × ℕ → Bool
overlaps line_start line_end (start, end) = leb line_start end && leb start line_end

abbrev pub intersected : NodeRow → List (ℕ × ℕ) → List (ℕ × ℕ)
intersected row = keep (overlaps (or_one row.line_start) (or_one row.line_end))

-- The local variables of the loops.
pub record Mapped : Type 0 where
  pub seen_node_ids : List String
  pub direct_nodes : List DirectNodeChange

abbrev pub change_of : NodeRow → List (ℕ × ℕ) → DirectNodeChange
change_of row hit = record {
  id = row.id;
  path = row.path;
  kind = row.kind;
  symbol = or_empty row.symbol;
  fqn = or_empty row.fqn;
  label = or_empty row.label;
  line_start = or_one row.line_start;
  line_end = or_one row.line_end;
  change_type = "modified";
  intersected_lines = hit;
}

unfoldable pub map_row : List (ℕ × ℕ) → NodeRow → Mapped → Mapped
unfolding overlaps
map_row intervals row m =
    if member row.id m.seen_node_ids
    then m
    else if nonempty (intersected row intervals)
    then record {
      seen_node_ids = row.id ∷ m.seen_node_ids;
      direct_nodes = m.direct_nodes ++ (change_of row (intersected row intervals) ∷ []);
    }
    else m

unfoldable pub map_rows : List (ℕ × ℕ) → List NodeRow → Mapped → Mapped
unfolding map_row
map_rows intervals [] m = m
map_rows intervals (row ∷ rows) m = map_rows intervals rows (map_row intervals row m)

-- The sort key `(path, line_start)`.
abbrev pub earlier : DirectNodeChange → DirectNodeChange → Bool
earlier a b = text_before a.path b.path || (str_eq a.path b.path && ltb a.line_start b.line_start)

module _ (query : Text → Option (List NodeRow)) where
  -- `none` where a query raises.
  unfoldable pub map_files : List (Text × List (ℕ × ℕ)) → Mapped → Option Mapped
  unfolding map_rows normalize_path
  map_files [] m = some m
  map_files ((path, intervals) ∷ files) m =
      let skipped = map_files files m in
      let go_on : List NodeRow → Option Mapped =
        λ rows. map_files files (map_rows intervals rows m) in
      if nonempty intervals
      then elim (query (normalize_path path)) [ none ↦ none | some rows ↦ go_on rows ]
      else skipped

  unfoldable pub map_intervals_to_nodes : List (Text × List (ℕ × ℕ)) → List DirectNodeChange
  unfolding map_files
  map_intervals_to_nodes file_intervals =
      elim (map_files file_intervals (record { seen_node_ids = []; direct_nodes = [] })) [
        | none ↦ []
        | some m ↦ sort_by earlier m.direct_nodes
      ]
