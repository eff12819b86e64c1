-- ===== src/Impact/Mapper/Hits.antt =====
-- Which nodes a diff touches (src/sot_graph/diff_impact.py).
use sotgraph.Prelude.{
  ℕ, ◌+◌, ◌<◌, ◌≤◌, ◌≡◌, refl, ◌∙◌, Bool, true, false, ◌||◌, ◌&&◌, some, List, [], ◌∷◌, ◌++◌,
  String, str_eq, eq_iff, arith, ltb, any, keep, length, length-keep_append, length-keep-sort_by,
  nonempty, if◌then◌else◌, Bool-cases, inl, inr, subst, member,
}
use sotgraph.Prelude.Text.{Text}
use sotgraph.Impact.Mapper.{
  DiffHunk, hunk_interval, DirectNodeChange, NodeRow, normalize_path, overlaps, intersected, Mapped,
  change_of, map_row, map_rows, earlier, map_files, map_intervals_to_nodes,
}

-- A line that the hunk adds or changes, or one that it deletes where it adds none.
abbrev pub IsChanged : DiffHunk → ℕ → Type 0
IsChanged h l =
    if ltb 0 h.new_count
    then (h.new_start ≤ l) × (l < h.new_start + h.new_count)
    else (h.old_start ≤ l) × (l < h.old_start + h.old_count)

-- A node whose lines hold a changed line of a hunk meets the interval of the hunk, a hunk that only
-- deletes included.
pub changed-overlaps :
    (h : DiffHunk) (l line_start line_end : ℕ)
    → IsChanged h l
    → line_start ≤ l
    → l ≤ line_end
    → overlaps line_start line_end (hunk_interval h) ≡ true
unfolding overlaps hunk_interval
changed-overlaps h l line_start line_end c a b = elim (Bool-cases (ltb 0 h.new_count)) [
  | inl e ↦ (let k = rw e at c in ground arith)
  | inr e ↦ (let k = rw e at c in ground arith)
]

-- How often a node is reported.
abbrev pub count : String → List DirectNodeChange → ℕ
count x nodes = length (keep (λ n. str_eq x n.id) nodes)

abbrev pub one_if : Bool → ℕ
one_if b = if b then 1 else 0

-- A row of this node that some interval meets.
abbrev pub touched : String → List (ℕ × ℕ) → List NodeRow → Bool
touched x intervals = any (λ row. str_eq x row.id && nonempty (intersected row intervals))

module _ (x : String) where
  abbrev Counted : Mapped → Bool → Type 0
  Counted m b = (member x m.seen_node_ids ≡ b) × (count x m.direct_nodes ≡ one_if b)

  Counted-map_row :
      (intervals : List (ℕ × ℕ)) (row : NodeRow) (m : Mapped) (b : Bool)
      → Counted m b
      → Counted
          (map_row intervals row m)
          (b || (str_eq x row.id && nonempty (intersected row intervals)))
  unfolding map_row
  Counted-map_row intervals row m b (s, c) =
      let l : count x (m.direct_nodes ++ (change_of row (intersected row intervals) ∷ []))
          ≡ count x m.direct_nodes + count x (change_of row (intersected row intervals) ∷ []) =
        length-keep_append _ m.direct_nodes (change_of row (intersected row intervals) ∷ []) in
      elim (Bool-cases (str_eq x row.id)) [
        | inl e ↦
            let same : member row.id m.seen_node_ids ≡ b =
              subst (λ y. member y m.seen_node_ids ≡ b) ((eq_iff x row.id).0 e) s in
            ground arith
        | inr e ↦ ground arith
      ]

  Counted-map_rows :
      (intervals : List (ℕ × ℕ)) (rows : List NodeRow) (m : Mapped) (b : Bool)
      → Counted m b
      → Counted (map_rows intervals rows m) (b || touched x intervals rows)
  unfolding map_rows
  Counted-map_rows intervals [] m b h = ground arith
  Counted-map_rows intervals (row ∷ rows) m b h =
      subst (Counted (map_rows intervals rows (map_row intervals row m))) (ground arith)
        (Counted-map_rows intervals rows _ _ (Counted-map_row intervals row m b h))

module _ (rows_of : Text → List NodeRow) (x : String) where
  -- Some file of the diff has a row of this node that one of the file's intervals meets.
  abbrev pub is_touched : List (Text × List (ℕ × ℕ)) → Bool
  is_touched [] = false
  is_touched ((path, intervals) ∷ files) =
      touched x intervals (rows_of (normalize_path path)) || is_touched files

  touched_nil : (rows : List NodeRow) → touched x [] rows ≡ false
  touched_nil [] = refl
  touched_nil (row ∷ rows) = ground (arith, touched_nil rows)

  Counted-map_files :
      (files : List (Text × List (ℕ × ℕ))) (m : Mapped) (b : Bool)
      → Counted x m b
      → (m' : Mapped) × (map_files (λ p. some (rows_of p)) files m ≡ some m')
        × Counted x m' (b || is_touched files)
  unfolding map_files
  Counted-map_files [] m b h = (m, refl, subst (Counted x m) (ground arith) h)
  Counted-map_files ((path, []) ∷ files) m b h =
      let t : touched x [] (rows_of (normalize_path path)) ≡ false =
        touched_nil (rows_of (normalize_path path)) in
      rw t (Counted-map_files files m b h)
  Counted-map_files ((path, i ∷ is) ∷ files) m b h =
      let (m', e, c) =
        Counted-map_files files _ _
          (Counted-map_rows x (i ∷ is) (rows_of (normalize_path path)) m b h) in
      (m', e, subst (Counted x m') (ground arith) c)

  -- Where the queries answer, a node is reported once if a hunk of a file meets its lines, and not
  -- at all otherwise.
  pub count-map_intervals :
      (file_intervals : List (Text × List (ℕ × ℕ)))
      → count x (map_intervals_to_nodes (λ p. some (rows_of p)) file_intervals)
        ≡ one_if (is_touched file_intervals)
  unfolding map_intervals_to_nodes
  count-map_intervals file_intervals =
      let (m, e, (s, c)) =
        Counted-map_files file_intervals (record { seen_node_ids = []; direct_nodes = [] }) false
          (refl, refl) in
      rw (map_intervals_to_nodes, e)
        (length-keep-sort_by earlier (λ (n : DirectNodeChange). str_eq x n.id) m.direct_nodes ∙ c)
