-- ===== src/Impact/Diff.antt =====
-- src/sot_graph/diff_impact.py: `GitDeltaExtractor.parse_unified_diff` on the lines of a diff, where the
-- path separator is `/`. `unescape` is Python's decoding of the escapes in a quoted path.
pub mod Header
pub mod Printed
pub mod Numbers
pub mod Steps
pub mod RoundTrip
pub mod Grouped
mod Tests
use sotgraph.Prelude.{
  ℕ, zero, suc, ◌≡◌, Bool, true, false, not, ◌&&◌, ◌||◌, Option, none, some, List, [], ◌∷◌, ◌++◌,
  ◌==◌, leb, String, length, if◌then◌else◌,
}
use sotgraph.Prelude.Text.{Text, codes, same, strip, starts, ends, take_while, drop_while}
use sotgraph.Impact.Mapper.{DiffHunk, hunk_interval, drop_two}
use sotgraph.Impact.Diff.Header.{read_header}

pub record FileHunk : Type 0 where
  pub file_path : Text
  pub numbers : DiffHunk
  pub heading : Text

-- The variables of the loop.
pub record State : Type 0 where
  pub current_file_old : Option Text
  pub current_file_new : Option Text
  pub current_is_binary : Bool
  pub hunks : List FileHunk
  pub file_intervals : List (Text × List (ℕ × ℕ))

abbrev pub skip : ℕ → Text → Text
skip zero s = s
skip (suc n) [] = []
skip (suc n) (c ∷ cs) = skip n cs

-- Up to the last character.
abbrev pub but_last : Text → Text
but_last [] = []
but_last (c ∷ []) = []
but_last (c ∷ d ∷ cs) = c ∷ but_last (d ∷ cs)

abbrev quote : Text
quote = b'"' ∷ []

-- The text up to the quote that ends it, and what follows.
unfoldable pub quoted_end : Text → Option (Text × Text)
quoted_end [] = none
quoted_end (c ∷ []) = if c == b'"' then some ([], []) else none
quoted_end (c ∷ d ∷ cs) = elim (c == b'"') [
  | true ↦ some ([], d ∷ cs)
  | false ↦ elim (c == b'\\') [
    | true ↦ elim (quoted_end cs) [ none ↦ none | some (t, rest) ↦ some (c ∷ d ∷ t, rest) ]
    | false ↦ elim (quoted_end (d ∷ cs)) [ none ↦ none | some (t, rest) ↦ some (c ∷ t, rest) ]
  ]
]

-- `re.findall(r'"(?:[^"\\]|\\.)*"', rest)`, with as much fuel as there are characters
unfoldable pub find_quoted : ℕ → Text → List Text
unfolding quoted_end
find_quoted zero s = []
find_quoted (suc f) [] = []
find_quoted (suc f) (c ∷ cs) = elim (c == b'"') [
  | false ↦ find_quoted f cs
  | true ↦ elim (quoted_end cs) [
    | none ↦ find_quoted f cs
    | some (t, rest) ↦ ((quote ++ t) ++ quote) ∷ find_quoted f rest
  ]
]

abbrev is_not_blank : ℕ → Bool
is_not_blank c = not (c == b' ')

-- The first two parts of `rest.split(" ")`.
abbrev pub split_after : Text → Text → Option (Text × Text)
split_after a [] = none
split_after a (c ∷ cs) = some (a, take_while is_not_blank cs)

abbrev pub split_two : Text → Option (Text × Text)
split_two rest = split_after (take_while is_not_blank rest) (drop_while is_not_blank rest)

abbrev pub first_two : List Text → Option (Text × Text)
first_two [] = none
first_two (a ∷ []) = none
first_two (a ∷ b ∷ rest) = some (a, b)

-- `p[2:] if p.startswith(prefix) else p`
abbrev pub without : Text → Text → Text
without prefix path = if starts path prefix then drop_two path else path

-- The name in a `---` or `+++` line.
abbrev pub side : Text → Text → Option Text
side prefix path = if same path (codes "/dev/null") then none else some (without prefix path)

abbrev pub add_interval : Text → ℕ × ℕ → List (Text × List (ℕ × ℕ)) → List (Text × List (ℕ × ℕ))
add_interval path i [] = (path, i ∷ []) ∷ []
add_interval path i ((p, is) ∷ rest) =
    let later = add_interval path i rest in
    if same p path then (p, is ++ (i ∷ [])) ∷ rest else (p, is) ∷ later

-- `new or old`, where an empty name counts as none
abbrev pub active_file : Option Text → Option Text → Text
active_file (some (c ∷ cs)) old = c ∷ cs
active_file _ (some p) = p
active_file _ none = []

abbrev pub norm_file : Text → Text
norm_file path = without (codes "./") path

abbrev pub add_hunk : Text → State → DiffHunk × Text → State
add_hunk [] s h = s
add_hunk (c ∷ cs) s (n, heading) =
    let path = norm_file (c ∷ cs) in
    record s {
      hunks = s.hunks ++ (record { file_path = path; numbers = n; heading = heading } ∷ []);
      file_intervals = add_interval path (hunk_interval n) s.file_intervals;
    }

abbrev pub hunk_step : State → Option (DiffHunk × Text) → State
hunk_step s none = s
hunk_step s (some h) = add_hunk (active_file s.current_file_new s.current_file_old) s h

-- `line.startswith(prefix)`
unfoldable pub begins : String → Text → Bool
begins prefix line = starts line (codes prefix)

module _ (unescape : Text → Text) where
  unfoldable pub unquote_git_path : Text → Text
  unquote_git_path path =
      let s = strip path in
      if leb 2 (length s) && starts s quote && ends s quote
      then unescape (but_last (skip 1 s))
      else s

  abbrev pub names : State → Option (Text × Text) → State
  names s none = s
  names s (some (a, b)) = record s {
    current_file_old = some (without (codes "a/") a);
    current_file_new = some (without (codes "b/") b);
  }

  abbrev pub unquote_both : Option (Text × Text) → Option (Text × Text)
  unquote_both none = none
  unquote_both (some (a, b)) = some (unquote_git_path a, unquote_git_path b)

  abbrev pub git_step : State → Text → State
  git_step s rest =
      if starts rest quote
      then names s (unquote_both (first_two (find_quoted (length rest) rest)))
      else names s (split_two rest)

  -- One turn of the loop.
  unfoldable pub step : State → Text → State
  step s line =
      if begins "diff --git " line
      then git_step (record s { current_is_binary = false }) (strip (skip 11 line))
      else if begins "Binary files " line
      then record s { current_is_binary = true }
      else if begins "--- " line
      then record s { current_file_old = side (codes "a/") (unquote_git_path (skip 4 line)) }
      else if begins "+++ " line
      then record s { current_file_new = side (codes "b/") (unquote_git_path (skip 4 line)) }
      else if s.current_is_binary
      then s
      else if begins "@@" line
      then hunk_step s (read_header line)
      else s

  unfoldable pub read_lines : State → List Text → State
  unfolding step
  read_lines s [] = s
  read_lines s (line ∷ rest) = read_lines (step s line) rest

  abbrev pub initial : State
  initial = record {
    current_file_old = none;
    current_file_new = none;
    current_is_binary = false;
    hunks = [];
    file_intervals = [];
  }

  unfoldable pub parse_unified_diff : List Text → List (Text × List (ℕ × ℕ)) × List FileHunk
  unfolding read_lines
  parse_unified_diff lines = let s = read_lines initial lines in (s.file_intervals, s.hunks)
