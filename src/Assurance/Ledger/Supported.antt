-- ===== src/Assurance/Ledger/Supported.antt =====
-- When `union_evidence` (src/sot_graph/assurance/ledger.py) reports evidence as supported.
use sotgraph.Prelude.{
  ℕ, ◌≡◌, refl, sym, ap, ap₂, ◌∙◌, subst, Bool, true, false, not, ◌&&◌, ◌||◌, Option, some, List,
  [], ◌∷◌, ◌++◌, map, any, any-append, any-keep, any-sort_by, keep, take, length, ltb, nonempty,
  if◌then◌else◌, Bool-cases, inl, inr, arith,
}
use sotgraph.Prelude.Text.{Text}
use sotgraph.Assurance.Ledger.{
  Lines, LedgerRow, UnionKey, union_key, same_union_key, same_lines, Group, Entry, is_known,
  is_verified, adjudicated, judge_spans, judge_group, is_supported, group_rows, marker,
  listed_before, union_rows, union_evidence,
}
use sotgraph.Assurance.Ledger.Groups.{
  same_union_key-eq, same_lines-eq, same_lines_refl, spans_at, has_key, AreApart, AreDistinct,
  spans_at-group_rows, group_rows-AreApart, lines_of, any-lines_of, AreOnce, group_rows-AreOnce,
  spans_at_none,
}

-- Another span that is known.
abbrev pub differs : Lines → Lines → Bool
differs s t = is_known t && not (same_lines t s)

keep-AreDistinct : (p : Lines → Bool) (ss : List Lines) → AreDistinct ss → AreDistinct (keep p ss)
keep-AreDistinct p [] h = tt
keep-AreDistinct p (s ∷ ss) (n, h) = elim (Bool-cases (p s)) [
  | inr e ↦ rw e (keep-AreDistinct p ss h)
  | inl e ↦ rw e (any-keep (same_lines s) p ss ∙ weaker ss n, keep-AreDistinct p ss h)
]
  where
    weaker :
        (ts : List Lines)
        → any (same_lines s) ts ≡ false
        → any (λ t. p t && same_lines s t) ts ≡ false
    weaker [] k = refl
    weaker (t ∷ ts) k = ground (arith, weaker ts (ground arith))

-- Of two different spans, each differs from one of them.
none_alone :
    (v : Lines → Bool) (s t : Lines) (ss xs : List Lines)
    → same_lines s t ≡ false
    → any (λ x. v x && not (any (λ y. not (same_lines y x)) (s ∷ t ∷ ss))) xs ≡ false
none_alone v s t ss [] d = refl
none_alone v s t ss (x ∷ xs) d =
    let rest = none_alone v s t ss xs d in
    elim (Bool-cases (same_lines s x && same_lines t x)) [
      | inr e ↦ ground arith
      | inl e ↦
          (let s_x = same_lines-eq s x (ground arith) in
            let t_x = same_lines-eq t x (ground arith) in
            let same_st : same_lines s t ≡ true =
              subst (λ y. same_lines s y ≡ true) (s_x ∙ sym t_x) (same_lines_refl s) in
            absurd (ground arith))
    ]

module _ (verify : Text → Text → ℕ → ℕ → Bool) (verify_spans : Bool) where
  -- One of the spans is known and verified, and no other is known.
  abbrev pub is_alone : UnionKey → List Lines → Bool
  is_alone k ss =
      any (λ s. is_known s && (is_verified verify verify_spans k s && not (any (differs s) ss))) ss

  abbrev pub is_backed : UnionKey → List Lines → Bool
  is_backed k ss = nonempty k.snapshot && (nonempty k.path && (verify_spans && is_alone k ss))

  adjudicated_unsupported :
      (g : Group) (vs : List Lines)
      → is_supported (adjudicated verify verify_spans g vs).status ≡ false
  adjudicated_unsupported g [] = refl
  adjudicated_unsupported g (s ∷ []) = refl
  adjudicated_unsupported g (s ∷ t ∷ vs) = refl

  judge_spans-supported :
      (g : Group) (ds : List Lines)
      → AreDistinct ds
      → is_supported (judge_spans verify verify_spans g ds).status ≡ (
          verify_spans
          && any
              (λ s.
                is_verified verify verify_spans g.key s && not (any (λ t. not (same_lines t s)) ds))
              ds)
  judge_spans-supported g [] h = ground arith
  judge_spans-supported g (s ∷ []) h = let r = same_lines_refl s in ground arith
  judge_spans-supported g (s ∷ t ∷ ss) (n, h) =
      let z =
        none_alone (is_verified verify verify_spans g.key) s t ss (s ∷ t ∷ ss) (ground arith) in
      adjudicated_unsupported g _ ∙ sym (ap (λ b. verify_spans && b) z ∙ (ground arith))

  -- The known spans only, and all of them.
  alone-keep :
      (k : UnionKey) (ss : List Lines)
      → any
          (λ s.
            is_verified verify verify_spans k s
            && not (any (λ t. not (same_lines t s)) (keep is_known ss)))
          (keep is_known ss)
        ≡ is_alone k ss
  alone-keep k ss = any-keep _ is_known ss ∙ (λ i.
      any
        (λ s.
          is_known s
          && (is_verified verify verify_spans k s
              && not (any-keep (λ t. not (same_lines t s)) is_known ss i)))
        ss)

  judge_group-supported :
      (g : Group)
      → AreDistinct g.spans
      → is_supported (judge_group verify verify_spans g).status ≡ is_backed g.key g.spans
  judge_group-supported g h =
      let j =
        judge_spans-supported g (keep is_known g.spans) (keep-AreDistinct is_known g.spans h) in
      let k = alone-keep g.key g.spans in
      elim (Bool-cases (not (nonempty g.key.snapshot) || not (nonempty g.key.path))) [
        | inl e ↦ rw e (ground arith)
        | inr e ↦ rw e (j ∙ ap (λ b. verify_spans && b) k ∙ (ground arith))
      ]

  -- Some entry of the key is supported.
  abbrev pub supports : UnionKey → List Entry → Bool
  supports k es = any (λ e. same_union_key k e.key && is_supported e.status) es

  judge_spans-key :
      (g : Group) (ds : List Lines) → (judge_spans verify verify_spans g ds).key ≡ g.key
  judge_spans-key g [] = refl
  judge_spans-key g (s ∷ []) = refl
  judge_spans-key g (s ∷ t ∷ ss) =
      adjudicated_key (keep (is_verified verify verify_spans g.key) (s ∷ t ∷ ss))
    where
      adjudicated_key : (vs : List Lines) → (adjudicated verify verify_spans g vs).key ≡ g.key
      adjudicated_key [] = refl
      adjudicated_key (v ∷ []) = refl
      adjudicated_key (v ∷ w ∷ vs) = refl

  judge_group-key : (g : Group) → (judge_group verify verify_spans g).key ≡ g.key
  judge_group-key g =
      elim (Bool-cases (not (nonempty g.key.snapshot) || not (nonempty g.key.path))) [
        | inl e ↦ rw e refl
        | inr e ↦ rw e (judge_spans-key g (keep is_known g.spans))
      ]

  supports-groups :
      (k : UnionKey) (gs : List Group)
      → AreApart gs
      → AreOnce gs
      → supports k (map (judge_group verify verify_spans) gs) ≡ is_backed k (spans_at k gs)
  supports-groups k [] h d = ground arith
  supports-groups k (g ∷ gs) (n, h) (d, ds) =
      let rest = supports-groups k gs h ds in
      let keyed : same_union_key k (judge_group verify verify_spans g).key
          ≡ same_union_key k g.key =
        ap (same_union_key k) (judge_group-key g) in
      let judged = judge_group-supported g d in
      elim (Bool-cases (same_union_key k g.key)) [
        | inr e ↦ rw e (let out = keyed ∙ e in ground arith)
        | inl e ↦ rw e (
            let same_k = same_union_key-eq k g.key e in
            let backed : is_backed k g.spans ≡ is_backed g.key g.spans =
              ap (λ j. is_backed j g.spans) same_k in
            let absent : has_key k gs ≡ false = subst (λ j. has_key j gs ≡ false) (sym same_k) n in
            let bare : is_backed k (spans_at k gs) ≡ false =
              ap (is_backed k) (spans_at_none k gs absent) ∙ (ground arith) in
            let here = keyed ∙ e in
            ap₂ (λ a b. a || b) (ap₂ (λ a b. a && b) here (judged ∙ sym backed)) (rest ∙ bare)
            ∙ (ground arith))
      ]

  -- Some row of the key shows a known span that the source confirms, and no row of the key another.
  abbrev pub is_confirmed : UnionKey → List LedgerRow → Bool
  is_confirmed k rows =
      any
        (λ r.
          same_union_key k (union_key r)
          && (is_known r.lines
              && (is_verified verify verify_spans k r.lines
                  && not
                      (any (λ q. same_union_key k (union_key q) && differs r.lines q.lines) rows))))
        rows

  abbrev pub is_bound : UnionKey → Bool
  is_bound k = nonempty k.snapshot && nonempty k.path

  alone-confirmed :
      (k : UnionKey) (rows : List LedgerRow) → is_alone k (lines_of k rows []) ≡ is_confirmed k rows
  alone-confirmed k rows = any-lines_of _ k rows [] ∙ (λ i.
      any
        (λ r.
          same_union_key k (union_key r)
          && (is_known r.lines
              && (is_verified verify verify_spans k r.lines
                  && not (any-lines_of (differs r.lines) k rows [] i))))
        rows)

  -- The marker of a cut supports nothing.
  supports-marked :
      (k : UnionKey) (cut : Bool) (es : List Entry)
      → supports k (if cut then es ++ (marker ∷ []) else es) ≡ supports k es
  supports-marked k false es = refl
  supports-marked k true es =
      ground
        (arith, any-append (λ e. same_union_key k e.key && is_supported e.status) es (marker ∷ []))

  supports-rows :
      (limit : ℕ) (k : UnionKey) (rows : List LedgerRow)
      → supports k (union_rows verify verify_spans limit rows)
        ≡ (is_bound k && (verify_spans && is_confirmed k (take limit rows)))
  supports-rows limit k rows =
      let gs = group_rows (take limit rows) [] in
      let groups =
        supports-groups k gs (group_rows-AreApart (take limit rows) [] tt)
          (group_rows-AreOnce (take limit rows) [] tt) in
      let spans = ap (is_backed k) (spans_at-group_rows k (take limit rows) []) in
      let confirmed = alone-confirmed k (take limit rows) in
      any-sort_by listed_before (λ e. same_union_key k e.key && is_supported e.status) _
      ∙ supports-marked k (ltb limit (length rows)) (map (judge_group verify verify_spans) gs)
      ∙ groups
      ∙ spans
      ∙ (ground arith)

  -- The evidence of a key is reported as supported exactly when the key has a snapshot and a path,
  -- spans are verified, and of the rows within the limit that have the key some row shows a known span
  -- that the source confirms, and none shows another known span.
  pub union_evidence-supported :
      (root : Text) (limit : ℕ) (rows : List LedgerRow) (legacy : Option (List LedgerRow))
      → nonempty root ≡ true
      → (es : List Entry) × (union_evidence verify verify_spans root limit (some rows) legacy
          ≡ some es)
        × ((k : UnionKey)
            → supports k es ≡ (is_bound k && (verify_spans && is_confirmed k (take limit rows))))
  unfolding union_evidence
  union_evidence-supported root limit rows legacy h =
      (union_rows verify verify_spans limit rows, rw h refl, (λ k. supports-rows limit k rows))
