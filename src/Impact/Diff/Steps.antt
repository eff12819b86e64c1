-- ===== src/Impact/Diff/Steps.antt =====
-- Single turns of the loop of `parse_unified_diff` (src/sot_graph/diff_impact.py) on printed lines.
use sotgraph.Prelude.{
  ◌≡◌, refl, ap, ◌∙◌, true, false, not, Option, none, some, List, [], ◌∷◌, ◌++◌, all, Bool-cases,
  inl, inr, arith,
}
use sotgraph.Prelude.Strip.{both, strip_none}
use sotgraph.Prelude.Text.{Text, codes, strip, starts, is_space}
use sotgraph.Impact.Mapper.{DiffHunk, hunk_interval}
use sotgraph.Impact.Diff.{
  State, begins, names, git_step, unquote_git_path, step, read_lines, side, active_file, norm_file,
  add_hunk, add_interval, skip,
}
use sotgraph.Impact.Diff.Printed.{
  Change, added, deleted, modified, header_line, is_inert, is_path, git_line, old_line, new_line,
}
use sotgraph.Impact.Diff.Numbers.{read-header_line}

module _ (unescape : Text → Text) where
  pub step-inert : (s : State) (line : Text) → is_inert line ≡ true → step unescape s line ≡ s
  unfolding step
  step-inert s line h = ground arith

  pub read-cons :
      (s : State) (line : Text) (rest : List Text)
      → read_lines unescape s (line ∷ rest) ≡ read_lines unescape (step unescape s line) rest
  unfolding read_lines
  read-cons s line rest = refl

  pub read-body :
      (s : State) (body rest : List Text)
      → all is_inert body ≡ true
      → read_lines unescape s (body ++ rest) ≡ read_lines unescape s rest
  unfolding read_lines
  read-body s [] rest h = refl
  read-body s (l ∷ ls) rest h =
      let (one, more) = both _ _ h in
      ap (λ t. read_lines unescape t (ls ++ rest)) (step-inert s l one) ∙ read-body s ls rest more

  names-kept :
      (s : State) (o : Option (Text × Text))
      → ((names unescape s o).hunks ≡ s.hunks)
        × ((names unescape s o).current_is_binary ≡ s.current_is_binary)
  names-kept s none = (refl, refl)
  names-kept s (some (a, b)) = (refl, refl)

  git_step-kept :
      (s : State) (rest : Text)
      → ((git_step unescape s rest).hunks ≡ s.hunks)
        × ((git_step unescape s rest).current_is_binary ≡ s.current_is_binary)
  git_step-kept s rest = elim (Bool-cases (starts rest (b'"' ∷ []))) [
    | inl e ↦ rw e (names-kept s _)
    | inr e ↦ rw e (names-kept s _)
  ]

  pub unquote-plain :
      (t : Text)
      → all (λ e. not (is_space e)) t ≡ true
      → starts t (b'"' ∷ []) ≡ false
      → unquote_git_path unescape t ≡ t
  unfolding unquote_git_path
  unquote-plain t h q = rw (strip_none t h) (ground arith)

  pub path-plain : (path : Text) → is_path path ≡ true → all (λ e. not (is_space e)) path ≡ true
  path-plain [] h = cc
  path-plain (c ∷ cs) h = (both _ _ h).0

  norm-path : (path : Text) → is_path path ≡ true → norm_file path ≡ path
  norm-path [] h = cc
  norm-path (c ∷ cs) h =
      (let (_, n) =
          both (all (λ d. not (is_space d)) (c ∷ cs)) (not (starts (c ∷ cs) (codes "./"))) h in
        ground arith)

  add-hunk :
      (s : State) (n : DiffHunk) (heading path : Text)
      → is_path path ≡ true
      → add_hunk path s (n, heading) ≡ record s {
        hunks = s.hunks ++ (record { file_path = path; numbers = n; heading = heading } ∷ []);
        file_intervals = add_interval path (hunk_interval n) s.file_intervals;
      }
  add-hunk s n heading [] p = cc
  add-hunk s n heading (c ∷ cs) p = rw (norm-path (c ∷ cs) p) refl

  pub step-header :
      (s : State) (n : DiffHunk) (heading path : Text)
      → s.current_is_binary ≡ false
      → active_file s.current_file_new s.current_file_old ≡ path
      → is_path path ≡ true
      → strip heading ≡ heading
      → step unescape s (header_line n heading) ≡ record s {
        hunks = s.hunks ++ (record { file_path = path; numbers = n; heading = heading } ∷ []);
        file_intervals = add_interval path (hunk_interval n) s.file_intervals;
      }
  unfolding step begins
  step-header s n heading path b a p e =
      rw (b, read-header_line n heading e, a)
        (add-hunk (record s { current_is_binary = false }) n heading path p)

  pub step-old :
      (s : State) (c : Change) (path : Text)
      → step unescape s (old_line c path) ≡ record s {
        current_file_old = side (codes "a/") (unquote_git_path unescape (skip 4 (old_line c path)));
      }
  unfolding step begins
  step-old s c path = refl

  pub step-new :
      (s : State) (c : Change) (path : Text)
      → step unescape s (new_line c path) ≡ record s {
        current_file_new = side (codes "b/") (unquote_git_path unescape (skip 4 (new_line c path)));
      }
  unfolding step begins
  step-new s c path = refl

  pub step-git :
      (s : State) (path : Text)
      → ((step unescape s (git_line path)).hunks ≡ s.hunks)
        × ((step unescape s (git_line path)).current_is_binary ≡ false)
  unfolding step begins
  step-git s path =
      git_step-kept (record s { current_is_binary = false }) (strip (skip 11 (git_line path)))

  side-old :
      (path : Text)
      → is_path path ≡ true
      → side (codes "a/") (unquote_git_path unescape (codes "a/" ++ path)) ≡ some path
  side-old path p = rw (unquote-plain (b'a' ∷ b'/' ∷ path) (path-plain path p) refl) refl

  side-new :
      (path : Text)
      → is_path path ≡ true
      → side (codes "b/") (unquote_git_path unescape (codes "b/" ++ path)) ≡ some path
  side-new path p = rw (unquote-plain (b'b' ∷ b'/' ∷ path) (path-plain path p) refl) refl

  side-null : (prefix : Text) → side prefix (unquote_git_path unescape (codes "/dev/null")) ≡ none
  unfolding unquote_git_path
  side-null prefix = refl

  -- The two lines of names say which file is read.
  pub active-lines :
      (c : Change) (path : Text)
      → is_path path ≡ true
      → active_file
          (side (codes "b/") (unquote_git_path unescape (skip 4 (new_line c path))))
          (side (codes "a/") (unquote_git_path unescape (skip 4 (old_line c path))))
        ≡ path
  active-lines added [] p = cc
  active-lines deleted [] p = cc
  active-lines modified [] p = cc
  active-lines added (d ∷ ds) p = rw (side-new (d ∷ ds) p) refl
  active-lines deleted (d ∷ ds) p = rw (side-null (codes "b/"), side-old (d ∷ ds) p) refl
  active-lines modified (d ∷ ds) p = rw (side-new (d ∷ ds) p) refl
