-- ===== src/Impact/Diff/Grouped.antt =====
-- The two results of `parse_unified_diff` (src/sot_graph/diff_impact.py) agree.
use sotgraph.Prelude.{
  ℕ, ◌≡◌, refl, sym, ap, ◌∙◌, subst, Bool, true, false, Option, none, some, List, [], ◌∷◌, ◌++◌,
  keep, map, length, if◌then◌else◌, Bool-cases, inl, inr, arith,
}
use sotgraph.Prelude.Text.{Text, starts, strip, same, same-eq, same_refl}
use sotgraph.Impact.Mapper.{DiffHunk, hunk_interval}
use sotgraph.Impact.Diff.{
  FileHunk, State, names, git_step, step, read_lines, initial, parse_unified_diff, active_file,
  norm_file, add_hunk, add_interval, hunk_step, unquote_both, first_two, find_quoted, split_two,
  begins, skip,
}
use sotgraph.Impact.Diff.Header.{read_header}

abbrev Intervals : Type 0
Intervals = List (Text × List (ℕ × ℕ))

-- `file_intervals.get(path, [])`
abbrev pub intervals_at : Text → Intervals → List (ℕ × ℕ)
intervals_at path [] = []
intervals_at path ((p, is) ∷ rest) =
    let later = intervals_at path rest in if same p path then is else later

abbrev pub hunk_intervals : Text → List FileHunk → List (ℕ × ℕ)
hunk_intervals path hs = map (λ h. hunk_interval h.numbers) (keep (λ h. same h.file_path path) hs)

same_sides : (p q r : Text) → same p q ≡ true → same p r ≡ same q r
same_sides p q r h = ap (λ t. same t r) (same-eq p q h)

same_sym : (p q : Text) → same p q ≡ true → same q p ≡ true
same_sym p q h = subst (λ t. same t p ≡ true) (same-eq p q h) (same_refl p)

at-add_interval :
    (path q : Text) (i : ℕ × ℕ) (m : Intervals)
    → intervals_at q (add_interval path i m)
      ≡ (if same path q then intervals_at q m ++ (i ∷ []) else intervals_at q m)
at-add_interval path q i [] = refl
at-add_interval path q i ((p, is) ∷ rest) = elim (Bool-cases (same p path)) [
  | inl e ↦ elim (Bool-cases (same p q)) [
    | inl f ↦ (let g : same path q ≡ true = sym (same_sides p path q e) ∙ f in rw (e, f, g) refl)
    | inr f ↦
        (let g : same path q ≡ false = sym (same_sides p path q e) ∙ f in
          rw (e, f, g) (ground arith))
  ]
  | inr e ↦ elim (Bool-cases (same p q)) [
    | inl f ↦
        (let g : same path q ≡ false = elim (Bool-cases (same path q)) [
          | inl z ↦ (let y : same p path ≡ same p q = ap (same p) (same-eq path q z) in cc)
          | inr z ↦ z
        ] in
          rw (e, f, g) refl)
    | inr f ↦ rw (e, f) (at-add_interval path q i rest)
  ]
]

keep-snoc :
    (path : Text) (hs : List FileHunk) (h : FileHunk)
    → hunk_intervals path (hs ++ (h ∷ [])) ≡ (
        if same h.file_path path
        then hunk_intervals path hs ++ (hunk_interval h.numbers ∷ [])
        else hunk_intervals path hs)
keep-snoc path [] h = ground arith
keep-snoc path (x ∷ xs) h = ground (arith, keep-snoc path xs h)

-- The intervals of each path are those of its hunks, in order.
record Agrees (s : State) : Type 0 where
  agrees : (path : Text) → intervals_at path s.file_intervals ≡ hunk_intervals path s.hunks

add_hunk-Agrees :
    (path : Text) (s : State) (h : DiffHunk × Text) → Agrees s → Agrees (add_hunk path s h)
add_hunk-Agrees [] s h a = a
add_hunk-Agrees (c ∷ cs) s (n, heading) a = record {
  agrees = λ q.
      at-add_interval (norm_file (c ∷ cs)) q (hunk_interval n) s.file_intervals
      ∙ ap (λ l. if same (norm_file (c ∷ cs)) q then l ++ (hunk_interval n ∷ []) else l)
          (a.agrees q)
      ∙ sym (
          keep-snoc q s.hunks
            (record { file_path = norm_file (c ∷ cs); numbers = n; heading = heading }));
}

hunk_step-Agrees : (s : State) (o : Option (DiffHunk × Text)) → Agrees s → Agrees (hunk_step s o)
hunk_step-Agrees s none a = a
hunk_step-Agrees s (some h) a =
    add_hunk-Agrees (active_file s.current_file_new s.current_file_old) s h a

Agrees-if : (b : Bool) (s t : State) → Agrees s → Agrees t → Agrees (if b then s else t)
Agrees-if true s t a c = a
Agrees-if false s t a c = c

module _ (unescape : Text → Text) where
  names-Agrees : (s : State) (o : Option (Text × Text)) → Agrees s → Agrees (names unescape s o)
  names-Agrees s none a = a
  names-Agrees s (some (x, y)) a = record { agrees = a.agrees }

  git_step-Agrees : (s : State) (rest : Text) → Agrees s → Agrees (git_step unescape s rest)
  git_step-Agrees s rest a =
      Agrees-if (starts rest (b'"' ∷ []))
        (names unescape s (unquote_both unescape (first_two (find_quoted (length rest) rest))))
        (names unescape s (split_two rest)) (names-Agrees s _ a) (names-Agrees s _ a)

  -- The interval tables are changed by a hunk alone.
  step-Agrees : (s : State) (line : Text) → Agrees s → Agrees (step unescape s line)
  unfolding step
  step-Agrees s line a =
      let other : (o n : Option Text) (b : Bool)
          → Agrees
              (record s { current_file_old = o; current_file_new = n; current_is_binary = b }) =
        λ o n b. record { agrees = a.agrees } in
      let cleared : State = record s { current_is_binary = false } in
      let text : Agrees cleared = other s.current_file_old s.current_file_new false in
      elim (Bool-cases (begins "diff --git " line)) [
        | inl e ↦ rw e (git_step-Agrees cleared (strip (skip 11 line)) text)
        | inr e ↦ elim (Bool-cases (begins "Binary files " line)) [
          | inl f ↦ rw (e, f) (other _ _ _)
          | inr f ↦ elim (Bool-cases (begins "--- " line)) [
            | inl g ↦ rw (e, f, g) (other _ _ _)
            | inr g ↦ elim (Bool-cases (begins "+++ " line)) [
              | inl h ↦ rw (e, f, g, h) (other _ _ _)
              | inr h ↦
                  rw (e, f, g, h)
                    (Agrees-if s.current_is_binary s
                      (if begins "@@" line then hunk_step s (read_header line) else s) a
                      (Agrees-if (begins "@@" line) (hunk_step s (read_header line)) s
                        (hunk_step-Agrees s (read_header line) a) a))
            ]
          ]
        ]
      ]

  read_lines-Agrees :
      (s : State) (lines : List Text) → Agrees s → Agrees (read_lines unescape s lines)
  unfolding read_lines
  read_lines-Agrees s [] a = a
  read_lines-Agrees s (line ∷ rest) a =
      read_lines-Agrees (step unescape s line) rest (step-Agrees s line a)

  -- Whatever the lines are: the intervals of a path, with which the nodes are looked up, are those of
  -- the hunks of that path, in their order, and a path without a hunk has none.
  pub intervals-hunks :
      (lines : List Text) (path : Text)
      → intervals_at path (parse_unified_diff unescape lines).0
        ≡ hunk_intervals path (parse_unified_diff unescape lines).1
  unfolding parse_unified_diff
  intervals-hunks lines path =
      (read_lines-Agrees (initial unescape) lines (record { agrees = λ q. refl })).agrees path
