-- ===== src/Impact/Tests.antt =====
-- A call graph of four functions and a commit, with what the analysis reports of them.
use sotgraph.Prelude.{
  ℕ, ◌≤◌, ◌≡◌, refl, true, Option, none, some, is_some, List, [], ◌∷◌, String, map, str_eq, All,
  if◌then◌else◌, arith,
}
use sotgraph.Prelude.Text.{Text, codes, same}
use sotgraph.Impact.Summary.{Counts, low, high, risk_score, risk_level}
use sotgraph.Impact.Summary.Bounds.{risk_score_bound}
use sotgraph.Impact.Risk.{
  critical_paths, build_manifest, is_critical, is_config, calculate_commit_risk,
}
use sotgraph.Impact.Mapper.{DirectNodeChange, DiffHunk, NodeRow, map_intervals_to_nodes}
use sotgraph.Impact.Mapper.Hits.{count, one_if, is_touched, count-map_intervals}
use sotgraph.Impact.Callers.{EdgeRow, CallerImpact, traverse, ids}
use sotgraph.Impact.Callers.Loop.{Reach, here, edge}
use sotgraph.Impact.Callers.Enough.{Within, traverse-enough}
use sotgraph.Impact.Callers.Found.{GoodCaller, traverse_sound}
use sotgraph.Impact.Callers.Expand.{known}
use sotgraph.Impact.Engine.{analyze_diff_impact}
use sotgraph.Impact.Engine.Reached.{analyze_complete}
use sotgraph.Impact.Callers.Nearest.{direct_ids, traverse_complete}

abbrev small : Counts
small = record { files = 1; nodes = 2; callers = 0; apis = 0 }

abbrev large : Counts
large = record { files = 6; nodes = 4; callers = 9; apis = 2 }

small-low : risk_level small ≡ low
unfolding risk_level
small-low = refl

large-score : risk_score large ≡ 100
unfolding risk_score
large-score = refl

risk_score_bound_example : risk_score large ≤ 100
risk_score_bound_example = risk_score_bound large

abbrev counted : Text → Option ℕ
counted sym = if same sym (codes "load") then some 7 else some 1

abbrev paths : List Text
paths = codes "src/Auth/login.py" ∷ codes "pyproject.toml" ∷ []

login-high :
    calculate_commit_risk none paths 3 1 []
    ≡ (high, critical_paths 1 ∷ build_manifest (codes "pyproject.toml" ∷ []) ∷ [])
unfolding calculate_commit_risk is_critical is_config
login-high = refl

view-low :
    (calculate_commit_risk (some counted) (codes "view.py" ∷ []) 3 1 (codes "show" ∷ [])).0 ≡ low
unfolding calculate_commit_risk is_critical is_config
view-low = refl

abbrev calls : String → EdgeRow
calls id = record {
  id = id;
  relation = "calls";
  path = "app.py";
  kind = "function";
  symbol = some id;
  fqn = none;
  label = none;
  line_start = some 3;
}

-- `b` and `c` call `a`, `c` and `d` call `b`, and `a` calls `d`.
abbrev rows_into : String → Option (List EdgeRow)
rows_into x =
    if str_eq x "a"
    then some (calls "b" ∷ calls "c" ∷ [])
    else if str_eq x "b"
    then some (calls "c" ∷ calls "d" ∷ [])
    else if str_eq x "d"
    then some (calls "a" ∷ [])
    else some []

abbrev node_row : String → ℕ → ℕ → NodeRow
node_row id start end = record {
  id = id;
  path = "app.py";
  kind = "function";
  symbol = some id;
  fqn = none;
  label = none;
  line_start = some start;
  line_end = some end;
}

abbrev rows_of : Text → List NodeRow
rows_of path = if same path (codes "app.py") then node_row "a" 3 6 ∷ node_row "b" 8 10 ∷ [] else []

abbrev nodes_of : Text → Option (List NodeRow)
nodes_of path = some (rows_of path)

abbrev files : List (Text × List (ℕ × ℕ))
files = (codes "./app.py", (4, 4) ∷ (5, 9) ∷ []) ∷ (codes "app.py", (1, 20) ∷ []) ∷ []

mapped_ids : map (λ n. n.id) (map_intervals_to_nodes nodes_of files) ≡ "a" ∷ "b" ∷ []
unfolding map_intervals_to_nodes
mapped_ids = refl

count-map_intervals_example :
    count "a" (map_intervals_to_nodes (λ p. some (rows_of p)) files)
    ≡ one_if (is_touched rows_of "a" files)
count-map_intervals_example = count-map_intervals rows_of "a" files

-- Lines 3 to 5 are deleted.
abbrev deletion : DiffHunk
deletion = record { old_start = 3; old_count = 3; new_start = 2; new_count = 0 }

abbrev changed : List DirectNodeChange
changed = map_intervals_to_nodes nodes_of ((codes "app.py", (4, 4) ∷ []) ∷ [])

abbrev nodes : List String
nodes = "a" ∷ "b" ∷ "c" ∷ "d" ∷ []

abbrev depths : Option (List CallerImpact) → List (String × ℕ)
depths none = []
depths (some cs) = map (λ c. (c.id, c.depth)) cs

abbrev reported : List CallerImpact
reported = elim (traverse 2 rows_into 6 changed) [ none ↦ [] | some cs ↦ cs ]

callers_of_a : depths (traverse 2 rows_into 6 changed) ≡ ("b", 1) ∷ ("c", 1) ∷ ("d", 2) ∷ []
unfolding traverse map_intervals_to_nodes
callers_of_a = refl

traverse-reported : traverse 2 rows_into 6 changed ≡ some reported
unfolding traverse map_intervals_to_nodes
traverse-reported = refl

rows-Within : Within rows_into nodes
rows-Within x rows e = ground arith

rows-answers : (x : String) → is_some (rows_into x) ≡ true
rows-answers x = ground arith

traverse-enough_example : (cs : List CallerImpact) × (traverse 2 rows_into 6 changed ≡ some cs)
unfolding map_intervals_to_nodes
traverse-enough_example = traverse-enough 2 rows_into nodes rows-Within 6 changed (omega arith)

traverse_sound_example : All (GoodCaller 2 rows_into (ids 2 rows_into changed)) reported
traverse_sound_example = traverse_sound 2 rows_into 6 changed reported traverse-reported

d-Reach : Reach rows_into (ids 2 rows_into changed) 2 "d"
unfolding map_intervals_to_nodes
d-Reach = edge 1 "b" "d" _ (edge 0 "a" "b" _ (here "a" refl) refl refl) refl refl

traverse_complete_example : known (direct_ids 2 rows_into changed) reported 2 "d" ≡ true
traverse_complete_example =
    traverse_complete 2 rows_into changed rows-answers 6 reported traverse-reported 2 "d" d-Reach
      (omega arith)

abbrev edited : List (Text × List (ℕ × ℕ))
edited = (codes "app.py", (4, 4) ∷ []) ∷ []

analyze_complete_example :
    (callers : List CallerImpact) × (analyze_diff_impact
        (λ p. some (rows_of p))
        rows_into
        2
        6
        edited
      ≡ some (changed, callers))
    × ((x y : String) (n : ℕ)
        → is_touched rows_of x edited ≡ true
        → Reach rows_into (x ∷ []) n y
        → n ≤ 2
        → known (ids 2 rows_into changed) callers n y ≡ true)
unfolding map_intervals_to_nodes
analyze_complete_example =
    analyze_complete rows_of rows_into nodes rows-Within rows-answers 2 edited 6 (omega arith)
