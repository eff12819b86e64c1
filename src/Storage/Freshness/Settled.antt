-- ===== src/Storage/Freshness/Settled.antt =====
-- When the probe of src/sot_graph/freshness.py finds an index that is not stale.
use sotgraph.Prelude.{
  any-none, none-any, ℕ, ◌≡◌, refl, sym, ap, ap₂, subst, ◌∙◌, ◌↔◌, Bool, true, false, not, ◌&&◌,
  ◌||◌, Option, none, some, List, [], ◌∷◌, ◌++◌, ◌==◌, map, any, nonempty, All, equal_numbers,
  Bool-cases, inl, inr, nonempty-keep, if◌then◌else◌, arith,
}
use sotgraph.Prelude.Strip.{both}
use sotgraph.Prelude.Text.{Text}
use sotgraph.Storage.Freshness.{
  JournalRow, Host, Probe, RowState, current, changed, gone, out_of_reach, listed, full_path,
  real_path, journal_keys, row_state, stat_state, note, read_rows, display, is_unindexed,
  staleness_probe, is_stale, nothing_found,
}

module _ (h : Host) where
  neither : (a b : Bool) → (a || b) ≡ false → (a ≡ false) × (b ≡ false)
  neither a b e = ground arith

  -- The row agrees with the disk: below the scan its file has the size and the time that the
  -- journal holds, elsewhere its file exists or is ignored.
  pub record IsSettled (scan : List Text) (r : JournalRow) : Type 0 where
    pub below :
        listed (real_path h (full_path h r)) (map (real_path h) scan) ≡ true
        → h.stat (full_path h r) ≡ some (r.size, r.mtime_ms)
    pub elsewhere :
        listed (real_path h (full_path h r)) (map (real_path h) scan) ≡ false
        → (h.exists (full_path h r) || h.is_ignored (full_path h r)) ≡ true

  abbrev pub IsJournalled : List JournalRow → Text → Type 0
  IsJournalled rows path = listed (display h path) (journal_keys h rows) ≡ true

  abbrev is_wrong : RowState → Bool
  is_wrong current = false
  is_wrong out_of_reach = false
  is_wrong changed = true
  is_wrong gone = true

  abbrev has_wrong : Probe → Bool
  has_wrong p = nonempty p.modified || nonempty p.deleted

  nonempty-snoc : (xs : List Text) (x : Text) → nonempty (xs ++ (x ∷ [])) ≡ true
  nonempty-snoc [] x = refl
  nonempty-snoc (y ∷ ys) x = refl

  wrong-note :
      (path : Text) (p : Probe) (s : RowState)
      → has_wrong (note h path p s) ≡ (has_wrong p || is_wrong s)
  wrong-note path p current = ground arith
  wrong-note path p out_of_reach = ground arith
  wrong-note path p changed = rw (nonempty-snoc p.modified path) (ground arith)
  wrong-note path p gone = rw (nonempty-snoc p.deleted path) (ground arith)

  wrong-rows :
      (scan : List Text) (rows : List JournalRow) (p : Probe)
      → has_wrong (read_rows h scan p rows)
        ≡ (has_wrong p || any (λ r. is_wrong (row_state h scan r)) rows)
  unfolding read_rows
  wrong-rows scan [] p = ground arith
  wrong-rows scan (r ∷ rs) p =
      let ih = wrong-rows scan rs (note h (display h (full_path h r)) p (row_state h scan r)) in
      let one = wrong-note (display h (full_path h r)) p (row_state h scan r) in
      ih ∙ rw one (ground arith)

  equal_self : (a : ℕ) → (a == a) ≡ true
  equal_self a = ground arith

  stat-current :
      (r : JournalRow) (o : Option (ℕ × ℕ))
      → is_wrong (stat_state h r o) ≡ false
      → o ≡ some (r.size, r.mtime_ms)
  stat-current r none e = ground arith
  stat-current r (some (size, mtime)) e =
      elim (Bool-cases (size == r.size && mtime == r.mtime_ms)) [
        | inr k ↦
            let f = subst (λ b. is_wrong (if b then current else changed) ≡ false) k e in
            ground arith
        | inl k ↦
            let (k₁, k₂) = both _ _ k in
            ap₂ (λ a b. some (a, b)) (equal_numbers size r.size k₁)
              (equal_numbers mtime r.mtime_ms k₂)
      ]

  stat_current : (r : JournalRow) → is_wrong (stat_state h r (some (r.size, r.mtime_ms))) ≡ false
  stat_current r = rw (equal_self r.size, equal_self r.mtime_ms) refl

  to_below :
      (scan : List Text) (r : JournalRow)
      → is_wrong (row_state h (map (real_path h) scan) r) ≡ false
      → listed (real_path h (full_path h r)) (map (real_path h) scan) ≡ true
      → h.stat (full_path h r) ≡ some (r.size, r.mtime_ms)
  unfolding row_state
  to_below scan r k e = stat-current r _ (rw e at k)

  lost-wrong :
      (there ignored : Bool)
      → is_wrong (if not there && not ignored then gone else out_of_reach) ≡ not (there || ignored)
  lost-wrong there ignored = ground arith

  to_elsewhere :
      (scan : List Text) (r : JournalRow)
      → is_wrong (row_state h (map (real_path h) scan) r) ≡ false
      → listed (real_path h (full_path h r)) (map (real_path h) scan) ≡ false
      → (h.exists (full_path h r) || h.is_ignored (full_path h r)) ≡ true
  unfolding row_state
  to_elsewhere scan r k e =
      let t = rw e at k in
      let n = sym (lost-wrong (h.exists (full_path h r)) (h.is_ignored (full_path h r))) ∙ t in
      ground arith

  row-IsSettled_iff :
      (scan : List Text) (r : JournalRow)
      → (is_wrong (row_state h (map (real_path h) scan) r) ≡ false) ↔ IsSettled scan r
  unfolding row_state
  row-IsSettled_iff scan r = (
    λ k. record { below = to_below scan r k; elsewhere = to_elsewhere scan r k },
    λ s. elim (Bool-cases (listed (real_path h (full_path h r)) (map (real_path h) scan))) [
      | inl e ↦ rw (e, s.below e) (stat_current r)
      | inr e ↦ rw e (
          lost-wrong (h.exists (full_path h r)) (h.is_ignored (full_path h r))
          ∙ rw (s.elsewhere e) refl)
    ],
  )

  any-map :
      {D E : Type 0} (p : E → Bool) (f : D → E) (xs : List D)
      → any p (map f xs) ≡ any (λ x. p (f x)) xs
  any-map p f [] = refl
  any-map p f (x ∷ xs) = rw (any-map p f xs) refl

  joined : (a b c x y : Bool) → (a || b) ≡ x → c ≡ y → (a || b || c) ≡ (x || y)
  joined a b c x y e f = ground arith

  from_not : (b : Bool) → not b ≡ false → b ≡ true
  from_not b e = ground arith

  stale-eq :
      (rows : List JournalRow) (scan : List Text)
      → is_stale (staleness_probe h rows scan) ≡ (
          any (λ r. is_wrong (row_state h (map (real_path h) scan) r)) rows
          || any (λ f. not (listed (display h f) (journal_keys h rows))) scan)
  unfolding is_stale staleness_probe
  stale-eq rows scan =
      joined (nonempty (read_rows h (map (real_path h) scan) nothing_found rows).modified)
        (nonempty (read_rows h (map (real_path h) scan) nothing_found rows).deleted) _ _ _
        (wrong-rows (map (real_path h) scan) rows nothing_found)
        (nonempty-keep (is_unindexed h (journal_keys h rows)) (map (display h) scan)
          ∙ any-map (is_unindexed h (journal_keys h rows)) (display h) scan)

  -- Whatever the operating system says of the paths, the probe does not call the index stale exactly
  -- when every row of the journal agrees with the disk and every file of the scan has its name, or
  -- its path, in the journal. A row agrees when its file has the size and the time of the row, where
  -- the scan has that file, and where the scan has it not, when the file exists or is ignored.
  pub staleness_probe-IsSettled_iff :
      (rows : List JournalRow) (scan : List Text)
      → (is_stale (staleness_probe h rows scan) ≡ false)
        ↔ (All (IsSettled scan) rows × All (IsJournalled rows) scan)
  staleness_probe-IsSettled_iff rows scan = (
    λ e.
        let (a, b) = neither _ _ (sym (stale-eq rows scan) ∙ e) in
        (
          any-none _ (IsSettled scan) (λ r. (row-IsSettled_iff scan r).0) rows a,
          any-none _ (IsJournalled rows) (λ f. from_not _) scan b,
        ),
    λ g.
        stale-eq rows scan
        ∙ rw
            (
              none-any _ (IsSettled scan) (λ r. (row-IsSettled_iff scan r).1) rows g.0,
              none-any _ (IsJournalled rows) (λ f k. ap not k) scan g.1,
            )
            refl,
  )
