-- ===== src/Impact/Diff/Tests.antt =====
-- Diffs as git prints them, read by `parse_unified_diff` of src/sot_graph/diff_impact.py.
use sotgraph.Prelude.{some, ℕ, ◌≡◌, refl, String, take, List, [], ◌∷◌}
use sotgraph.Prelude.Options.{◌>>=◌}
use sotgraph.Prelude.Text.{Text, codes}
use sotgraph.Impact.Mapper.{DiffHunk}
use sotgraph.Impact.Diff.{parse_unified_diff, begins}
use sotgraph.Impact.Diff.Header.{read_header}
use sotgraph.Impact.Diff.Printed.{
  digits, Part, Change, added, deleted, modified, FileDiff, print_diff, hunks_of, parts_lines,
  part_hunk, git_line, old_line, new_line,
}
use sotgraph.Impact.Diff.RoundTrip.{parse-print_diff, added_line-hijacks}
use sotgraph.Impact.Diff.Grouped.{intervals_at, hunk_intervals, intervals-hunks}

abbrev plain : Text → Text
plain t = t

abbrev numbers : ℕ → ℕ → ℕ → ℕ → DiffHunk
numbers a b c d = record { old_start = a; old_count = b; new_start = c; new_count = d }

abbrev first : Part
first = record {
  numbers = numbers 3 1 3 2;
  heading = codes "def f():";
  body = codes "-x = 1" ∷ codes "+x = 2" ∷ codes "+y = 3" ∷ [];
}

abbrev second : Part
second = record { numbers = numbers 120 2 121 0; heading = []; body = codes "-a" ∷ codes "-b" ∷ [] }

abbrev change_of : Change → String → List Part → FileDiff
change_of c path parts = record {
  change = c;
  path = codes path;
  old_mode = codes "100644";
  new_mode = codes "100644";
  old_blob = codes "e69de29";
  new_blob = codes "d95f3ad";
  parts = parts;
}

abbrev changes : List FileDiff
changes =
    change_of modified "src/a.py" (first ∷ second ∷ [])
    ∷ change_of deleted "b.py" (second ∷ [])
    ∷ change_of added "empty.py" []
    ∷ []

parse-print_diff_example : (parse_unified_diff plain (print_diff changes)).1 ≡ hunks_of changes
unfolding begins
parse-print_diff_example =
    parse-print_diff plain changes
      ((refl, ((refl, refl), ((refl, refl), tt))), ((refl, ((refl, refl), tt)), ((refl, tt), tt)))

changes-head :
    take 5 (print_diff changes)
    ≡ codes "diff --git a/src/a.py b/src/a.py"
      ∷ codes "index e69de29..d95f3ad 100644"
      ∷ codes "--- a/src/a.py"
      ∷ codes "+++ b/src/a.py"
      ∷ codes "@@ -3 +3,2 @@ def f():"
      ∷ []
unfolding print_diff digits
changes-head = refl

first_header :
    read_header (codes "@@ -3 +3,2 @@ def f():") ≡ some (numbers 3 1 3 2, codes "def f():")
unfolding read_header ◌>>=◌
first_header = refl

-- An SQL file in which a line `++ x.py` is added.
added_line-hijacks_example :
    (parse_unified_diff plain (
      git_line (codes "a.sql")
      ∷ codes "index e69de29..d95f3ad 100644"
      ∷ old_line modified (codes "a.sql")
      ∷ new_line modified (codes "a.sql")
      ∷ parts_lines (first ∷ []) ((codes "+++ x.py") ∷ parts_lines (second ∷ []) []))).1
    ≡ part_hunk (codes "a.sql") first ∷ part_hunk (codes "x.py") second ∷ []
unfolding begins
added_line-hijacks_example =
    added_line-hijacks plain (codes "a.sql") (codes "x.py")
      (codes "index e69de29..d95f3ad 100644" ∷ []) first second refl refl refl refl refl refl
      (refl, refl) (refl, refl)

intervals-hunks_example :
    intervals_at (codes "b.py") (parse_unified_diff plain (print_diff changes)).0
    ≡ hunk_intervals (codes "b.py") (parse_unified_diff plain (print_diff changes)).1
intervals-hunks_example = intervals-hunks plain (print_diff changes) (codes "b.py")
