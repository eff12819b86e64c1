-- ===== src/Impact/Diff/Printed.antt =====
-- The lines that `git diff` prints for text files that are added, deleted or modified, whose paths it
-- need not quote, and the hunks they stand for.
use sotgraph.Prelude.{
  ℕ, zero, suc, ◌+◌, ◌/◌, ◌%◌, ◌≡◌, refl, Bool, true, false, not, ◌&&◌, List, [], ◌∷◌, ◌++◌, ◌==◌,
  ltb, all, All, map, if◌then◌else◌,
}
use sotgraph.Prelude.Text.{Text, codes, same, strip, starts, is_space}
use sotgraph.Impact.Mapper.{DiffHunk}
use sotgraph.Impact.Diff.{FileHunk, begins}

-- Decimal digits, with fuel.
unfoldable pub digits_from : ℕ → ℕ → Text
digits_from zero n = []
digits_from (suc f) n =
    let high = digits_from f (n / 10) in (if ltb n 10 then [] else high) ++ ((b'0' + n % 10) ∷ [])

unfoldable pub digits : ℕ → Text
unfolding digits_from
digits n = digits_from (suc n) n

-- A count of one is left out.
abbrev pub count_text : ℕ → Text
count_text n = if n == 1 then [] else b',' ∷ digits n

abbrev pub heading_text : Text → Text
heading_text [] = []
heading_text (c ∷ cs) = b' ' ∷ c ∷ cs

-- `@@ -a,b +c,d @@ heading`
abbrev pub header_line : DiffHunk → Text → Text
header_line h heading =
    b'@'
    ∷ b'@'
    ∷ b' '
    ∷ b'-'
    ∷ (digits h.old_start
        ++ (count_text h.old_count
            ++ (b' '
                ∷ b'+'
                ∷ (digits h.new_start
                    ++ (count_text h.new_count ++ (b' ' ∷ b'@' ∷ b'@' ∷ heading_text heading))))))

pub record Part : Type 0 where
  pub numbers : DiffHunk
  pub heading : Text
  pub body : List Text

pub data Change : Type 0 where
  added deleted modified : Change

pub record FileDiff : Type 0 where
  pub change : Change
  pub path : Text
  -- the modes and the blobs before and after
  pub old_mode : Text
  pub new_mode : Text
  pub old_blob : Text
  pub new_blob : Text
  pub parts : List Part

abbrev old_name : Change → Text → Text
old_name added path = codes "/dev/null"
old_name _ path = codes "a/" ++ path

abbrev new_name : Change → Text → Text
new_name deleted path = codes "/dev/null"
new_name _ path = codes "b/" ++ path

abbrev pub part_lines : Part → List Text
part_lines p = header_line p.numbers p.heading ∷ p.body

abbrev pub parts_lines : List Part → List Text → List Text
parts_lines [] rest = rest
parts_lines (p ∷ ps) rest = part_lines p ++ parts_lines ps rest

abbrev pub old_line : Change → Text → Text
old_line c path = codes "--- " ++ old_name c path

abbrev pub new_line : Change → Text → Text
new_line c path = codes "+++ " ++ new_name c path

abbrev pub git_line : Text → Text
git_line path = codes "diff --git " ++ ((codes "a/" ++ path) ++ (codes " b/" ++ path))

abbrev index_text : FileDiff → Text
index_text f = codes "index " ++ (f.old_blob ++ (codes ".." ++ f.new_blob))

-- The lines of a modified file: a change of mode, and the blobs where they differ, with the mode at
-- their end where it stays.
abbrev modified_lines : FileDiff → Bool → Bool → List Text
modified_lines f true true = []
modified_lines f true false = (index_text f ++ (b' ' ∷ f.new_mode)) ∷ []
modified_lines f false true =
    (codes "old mode " ++ f.old_mode) ∷ (codes "new mode " ++ f.new_mode) ∷ []
modified_lines f false false =
    (codes "old mode " ++ f.old_mode) ∷ (codes "new mode " ++ f.new_mode) ∷ index_text f ∷ []

-- The header lines between `diff --git` and the names.
abbrev header_lines : FileDiff → Change → List Text
header_lines f added = (codes "new file mode " ++ f.new_mode) ∷ index_text f ∷ []
header_lines f deleted = (codes "deleted file mode " ++ f.old_mode) ∷ index_text f ∷ []
header_lines f modified = modified_lines f (same f.old_mode f.new_mode) (same f.old_blob f.new_blob)

abbrev pub extended_lines : FileDiff → List Text
extended_lines f = header_lines f f.change

-- The names are printed with the hunks: a change of mode and an empty file have neither.
abbrev pub named_parts : Change → Text → List Part → List Text → List Text
named_parts c path [] rest = rest
named_parts c path (p ∷ ps) rest = old_line c path ∷ new_line c path ∷ parts_lines (p ∷ ps) rest

unfoldable pub print_diff : List FileDiff → List Text
print_diff [] = []
print_diff (f ∷ fs) =
    git_line f.path ∷ (extended_lines f ++ named_parts f.change f.path f.parts (print_diff fs))

abbrev pub part_hunk : Text → Part → FileHunk
part_hunk path p = record { file_path = path; numbers = p.numbers; heading = p.heading }

-- The hunks of a diff, in order.
abbrev pub hunks_of : List FileDiff → List FileHunk
hunks_of [] = []
hunks_of (f ∷ fs) = map (part_hunk f.path) f.parts ++ hunks_of fs

-- A line that the parser does not take for one of its own.
abbrev pub is_inert : Text → Bool
is_inert line =
    not (begins "diff --git " line)
    && not (begins "Binary files " line)
    && not (begins "--- " line)
    && not (begins "+++ " line)
    && not (begins "@@" line)

modified-is_inert : (f : FileDiff) (m i : Bool) → all is_inert (modified_lines f m i) ≡ true
unfolding begins
modified-is_inert f true true = refl
modified-is_inert f true false = refl
modified-is_inert f false true = refl
modified-is_inert f false false = refl

header-is_inert : (f : FileDiff) (c : Change) → all is_inert (header_lines f c) ≡ true
unfolding begins
header-is_inert f added = refl
header-is_inert f deleted = refl
header-is_inert f modified = modified-is_inert f _ _

pub extended-is_inert : (f : FileDiff) → all is_inert (extended_lines f) ≡ true
extended-is_inert f = header-is_inert f f.change

abbrev pub IsPart : Part → Type 0
IsPart p = (strip p.heading ≡ p.heading) × (all is_inert p.body ≡ true)

-- A path without white space, that is not written relative to `.`.
abbrev pub is_path : Text → Bool
is_path [] = false
is_path (c ∷ cs) = all (λ d. not (is_space d)) (c ∷ cs) && not (starts (c ∷ cs) (codes "./"))

abbrev pub IsDiff : List FileDiff → Type 0
IsDiff = All (λ f. (is_path f.path ≡ true) × All IsPart f.parts)
