-- ===== src/Impact/Diff/RoundTrip.antt =====
-- `parse_unified_diff` of src/sot_graph/diff_impact.py reads what git prints.
use mathlib.Core.List.{append_assoc, append-nil}
use sotgraph.Prelude.{
  ◌≡◌, refl, sym, ap, ◌∙◌, all, true, false, Option, some, List, [], ◌∷◌, ◌++◌, All, map,
}
use sotgraph.Prelude.Text.{Text, codes, starts, same}
use sotgraph.Impact.Mapper.{hunk_interval}
use sotgraph.Impact.Diff.{
  State, begins, unquote_git_path, step, read_lines, initial, parse_unified_diff, side, active_file,
  add_interval, skip,
}
use sotgraph.Impact.Diff.Printed.{
  Part, Change, modified, FileDiff, parts_lines, print_diff, part_hunk, hunks_of, header_line,
  IsPart, is_path, IsDiff, is_inert, named_parts, extended_lines, extended-is_inert, git_line,
  old_line, new_line,
}
use sotgraph.Impact.Diff.Steps.{
  read-cons, read-body, unquote-plain, path-plain, step-header, step-old, step-new, step-git,
  active-lines,
}

module _ (unescape : Text → Text) where
  read-parts :
      (s : State) (path : Text) (ps : List Part) (rest : List Text)
      → s.current_is_binary ≡ false
      → active_file s.current_file_new s.current_file_old ≡ path
      → is_path path ≡ true
      → All IsPart ps
      → (t : State) × (read_lines unescape s (parts_lines ps rest) ≡ read_lines unescape t rest)
        × (t.hunks ≡ s.hunks ++ map (part_hunk path) ps)
        × (t.current_is_binary ≡ false)
  read-parts s path [] rest b a p h = (s, refl, sym (append-nil s.hunks), b)
  read-parts s path (q ∷ ps) rest b a p ((heading, body), more) =
      let s' : State = record s {
        hunks = s.hunks ++ (part_hunk path q ∷ []);
        file_intervals = add_interval path (hunk_interval q.numbers) s.file_intervals;
      } in
      let (t, e, k, text) = read-parts s' path ps rest b a p more in
      (
        t,
        read-cons unescape s (header_line q.numbers q.heading) (q.body ++ parts_lines ps rest)
            ∙ ap (λ u. read_lines unescape u (q.body ++ parts_lines ps rest))
                (step-header unescape s q.numbers q.heading path b a p heading)
            ∙ read-body unescape s' q.body (parts_lines ps rest) body
            ∙ e,
        k ∙ append_assoc s.hunks (part_hunk path q ∷ []) (map (part_hunk path) ps),
        text,
      )

  -- The state after the lines that name a file, with `es` the header lines between them.
  read-names :
      (s : State) (c : Change) (path : Text) (es rest : List Text)
      → is_path path ≡ true
      → all is_inert es ≡ true
      → (t : State) × (read_lines unescape s
            (git_line path ∷ (es ++ (old_line c path ∷ new_line c path ∷ rest)))
          ≡ read_lines unescape t rest)
        × (t.hunks ≡ s.hunks)
        × (t.current_is_binary ≡ false)
        × (active_file t.current_file_new t.current_file_old ≡ path)
  unfolding read_lines
  read-names s c path es rest p i =
      let s₁ = step unescape s (git_line path) in
      let s₂ : State = record s₁ {
        current_file_old = side (codes "a/") (unquote_git_path unescape (skip 4 (old_line c path)));
      } in
      let s₃ : State = record s₂ {
        current_file_new = side (codes "b/") (unquote_git_path unescape (skip 4 (new_line c path)));
      } in
      let (same_hunks, text) = step-git unescape s path in
      (
        s₃,
        read-body unescape s₁ es (old_line c path ∷ new_line c path ∷ rest) i
            ∙ ap (λ u. read_lines unescape (step unescape u (new_line c path)) rest)
                (step-old unescape s₁ c path)
            ∙ ap (λ u. read_lines unescape u rest) (step-new unescape s₂ c path),
        same_hunks,
        text,
        active-lines unescape c path p,
      )

  -- The state after all lines of one file.
  read-file :
      (s : State) (c : Change) (path : Text) (es : List Text) (ps : List Part) (rest : List Text)
      → is_path path ≡ true
      → all is_inert es ≡ true
      → All IsPart ps
      → (t : State) × (read_lines unescape s (git_line path ∷ (es ++ named_parts c path ps rest))
          ≡ read_lines unescape t rest)
        × (t.hunks ≡ s.hunks ++ map (part_hunk path) ps)
  read-file s c path es [] rest p i h =
      let s₁ = step unescape s (git_line path) in
      (
        s₁,
        read-cons unescape s (git_line path) (es ++ rest) ∙ read-body unescape s₁ es rest i,
        (step-git unescape s path).0 ∙ sym (append-nil s.hunks),
      )
  read-file s c path es (q ∷ qs) rest p i h =
      let (u, n, same_hunks, text, active) =
        read-names s c path es (parts_lines (q ∷ qs) rest) p i in
      let (t, e, k, _) = read-parts u path (q ∷ qs) rest text active p h in
      (t, n ∙ e, k ∙ ap (λ hs. hs ++ map (part_hunk path) (q ∷ qs)) same_hunks)

  read-diff :
      (s : State) (fs : List FileDiff)
      → IsDiff fs
      → (read_lines unescape s (print_diff fs)).hunks ≡ s.hunks ++ hunks_of fs
  unfolding print_diff
  read-diff s [] h = unfold read_lines in sym (append-nil s.hunks)
  read-diff s (f ∷ fs) ((p, parts), more) =
      let (t, e, k) =
        read-file s f.change f.path (extended_lines f) f.parts (print_diff fs) p
          (extended-is_inert f) parts in
      ap (λ v. v.hunks) e
      ∙ read-diff t fs more
      ∙ ap (λ hs. hs ++ hunks_of fs) k
      ∙ append_assoc s.hunks (map (part_hunk f.path) f.parts) (hunks_of fs)

  -- Whatever text files a diff adds, deletes or modifies, in content or mode: the lines that git
  -- prints, with the header lines on modes and blobs, are read back as its hunks, each with its file,
  -- its numbers and its heading, in their order. The paths have no white space and do not begin
  -- with `./`, headings have no white space at their ends, and no changed line, with its
  -- `+` or `-`, begins like a line of the format.
  pub parse-print_diff :
      (fs : List FileDiff)
      → IsDiff fs
      → (parse_unified_diff unescape (print_diff fs)).1 ≡ hunks_of fs
  unfolding parse_unified_diff
  parse-print_diff fs h = read-diff (initial unescape) fs h

  active-some : (t : Text) (o : Option Text) → is_path t ≡ true → active_file (some t) o ≡ t
  active-some [] o h = cc
  active-some (c ∷ cs) o h = refl

  step-plus :
      (s : State) (t : Text)
      → step unescape s (codes "+++ " ++ t)
        ≡ record s { current_file_new = side (codes "b/") (unquote_git_path unescape t) }
  unfolding step begins
  step-plus s t = refl

  -- A line that git prints for an added line of text, `++ ` and a name: the parser takes it for the
  -- name of a file, and gives the next hunk of the same file to that name, whatever header lines on
  -- modes and blobs stand before the names.
  pub added_line-hijacks :
      (path t : Text) (es : List Text) (p q : Part)
      → all is_inert es ≡ true
      → is_path path ≡ true
      → is_path t ≡ true
      → starts t (b'"' ∷ []) ≡ false
      → starts t (codes "b/") ≡ false
      → same t (codes "/dev/null") ≡ false
      → IsPart p
      → IsPart q
      → (parse_unified_diff unescape (
          git_line path
          ∷ (es
              ++ (old_line modified path
                  ∷ new_line modified path
                  ∷ parts_lines (p ∷ []) ((codes "+++ " ++ t) ∷ parts_lines (q ∷ []) []))))).1
        ≡ part_hunk path p ∷ part_hunk t q ∷ []
  unfolding parse_unified_diff
  added_line-hijacks path t es p q inert on to bare b null hp hq =
      let line = codes "+++ " ++ t in
      let rest = parts_lines (q ∷ []) [] in
      let (s, n, none_yet, text, active) =
        read-names (initial unescape) modified path es (parts_lines (p ∷ []) (line ∷ rest)) on
          inert in
      let (u, e, k, still) = read-parts s path (p ∷ []) (line ∷ rest) text active on (hp, tt) in
      let v : State = record u {
        current_file_new = side (codes "b/") (unquote_git_path unescape t);
      } in
      let named : side (codes "b/") (unquote_git_path unescape t) ≡ some t =
        rw (unquote-plain unescape t (path-plain unescape t to) bare, null, b) refl in
      let (w, l, m, _) =
        read-parts v t (q ∷ []) [] still (rw named (active-some t u.current_file_old to)) to
          (hq, tt) in
      ap (λ x. x.hunks)
        (n
          ∙ e
          ∙ read-cons unescape u line rest
          ∙ ap (λ x. read_lines unescape x rest) (step-plus u t)
          ∙ l)
      ∙ m
      ∙ ap (λ hs. hs ++ (part_hunk t q ∷ []))
          (k ∙ ap (λ hs. hs ++ (part_hunk path p ∷ [])) none_yet)
