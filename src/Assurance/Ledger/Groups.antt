-- ===== src/Assurance/Ledger/Groups.antt =====
-- How the rows of src/sot_graph/assurance/ledger.py are gathered into groups.
use sotgraph.Prelude.{
  ◌≡◌, refl, sym, ap, ◌∙◌, subst, Bool, true, false, ◌&&◌, ◌||◌, List, [], ◌∷◌, ◌++◌, any,
  any-append, All, if◌then◌else◌, Bool-cases, inl, inr, arith,
}
use sotgraph.Prelude.Text.{same-eq, same_refl}
use sotgraph.Assurance.Identity.Keys.{same_line-eq, same_line_refl}
use sotgraph.Assurance.Ledger.{
  Lines, LedgerRow, UnionKey, union_key, same_union_key, same_lines, Group, add_lines, add_row,
  group_rows,
}

pub same_union_key-eq : (a b : UnionKey) → same_union_key a b ≡ true → a ≡ b
unfolding same_union_key
same_union_key-eq a b h =
    let p = same-eq a.path b.path (ground arith) in
    let l = same-eq a.language b.language (ground arith) in
    let r = same-eq a.relation b.relation (ground arith) in
    let s = same-eq a.src b.src (ground arith) in
    let d = same-eq a.dst b.dst (ground arith) in
    let n = same-eq a.snapshot b.snapshot (ground arith) in
    λ i. record { path = p i; language = l i; relation = r i; src = s i; dst = d i; snapshot = n i }

pub same_lines-eq : (a b : Lines) → same_lines a b ≡ true → a ≡ b
same_lines-eq a b h =
    let s = same_line-eq a.0 b.0 (ground arith) in
    let e = same_line-eq a.1 b.1 (ground arith) in λ i. (s i, e i)

pub same_lines_refl : (a : Lines) → same_lines a a ≡ true
same_lines_refl a = ground (arith, same_line_refl a.0, same_line_refl a.1)

same_union_key_refl : (a : UnionKey) → same_union_key a a ≡ true
unfolding same_union_key
same_union_key_refl a = ground (
  arith,
  same_refl a.path,
  same_refl a.language,
  same_refl a.relation,
  same_refl a.src,
  same_refl a.dst,
  same_refl a.snapshot,
)

-- Keys that are equal are the same in every comparison.
compare-same :
    (k a b : UnionKey) → same_union_key a b ≡ true → same_union_key k a ≡ same_union_key k b
compare-same k a b e = ap (same_union_key k) (same_union_key-eq a b e)

-- A key that equals one of two different keys differs from the other.
other-key :
    (k a b : UnionKey)
    → same_union_key a b ≡ false
    → same_union_key k b ≡ true
    → same_union_key k a ≡ false
other-key k a b d e = elim (Bool-cases (same_union_key k a)) [
  | inr f ↦ f
  | inl f ↦
      (let k_b = same_union_key-eq k b e in
        let k_a = same_union_key-eq k a f in
        let both : same_union_key a b ≡ true =
          subst (λ x. same_union_key a x ≡ true) (sym k_a ∙ k_b) (same_union_key_refl a) in
        absurd (ground arith))
]

-- The spans of the group of a key.
abbrev pub spans_at : UnionKey → List Group → List Lines
spans_at k [] = []
spans_at k (g ∷ gs) = let rest = spans_at k gs in if same_union_key k g.key then g.spans else rest

abbrev pub has_key : UnionKey → List Group → Bool
has_key k = any (λ g. same_union_key k g.key)

-- No key has two groups.
abbrev pub AreApart : List Group → Type 0
AreApart [] = Unit
AreApart (g ∷ gs) = (has_key g.key gs ≡ false) × AreApart gs

has_key-add_row :
    (k : UnionKey) (r : LedgerRow) (gs : List Group)
    → has_key k (add_row r gs) ≡ (same_union_key k (union_key r) || has_key k gs)
has_key-add_row k r [] = refl
has_key-add_row k r (g ∷ gs) = elim (Bool-cases (same_union_key (union_key r) g.key)) [
  | inl e ↦ rw e (let same_row = compare-same k (union_key r) g.key e in ground arith)
  | inr e ↦ rw e (ground (arith, has_key-add_row k r gs))
]

add_row-AreApart : (r : LedgerRow) (gs : List Group) → AreApart gs → AreApart (add_row r gs)
add_row-AreApart r [] h = (refl, tt)
add_row-AreApart r (g ∷ gs) (n, h) = elim (Bool-cases (same_union_key (union_key r) g.key)) [
  | inl e ↦ rw e (n, h)
  | inr e ↦ rw e (
    let d = other-key g.key (union_key r) g.key e (same_union_key_refl g.key) in
        ground (arith, has_key-add_row g.key r gs),
    add_row-AreApart r gs h,
  )
]

spans_at-add_row :
    (k : UnionKey) (r : LedgerRow) (gs : List Group)
    → spans_at k (add_row r gs) ≡ (
        if same_union_key k (union_key r) then add_lines r.lines (spans_at k gs) else spans_at k gs)
spans_at-add_row k r [] = refl
spans_at-add_row k r (g ∷ gs) = elim (Bool-cases (same_union_key (union_key r) g.key)) [
  | inl e ↦ rw e (
      let same_row = compare-same k (union_key r) g.key e in
      elim (Bool-cases (same_union_key k g.key)) [
        | inl f ↦ rw (f, same_row ∙ f) refl
        | inr f ↦ rw (f, same_row ∙ f) refl
      ])
  | inr e ↦ rw e (elim (Bool-cases (same_union_key k g.key)) [
    | inl f ↦ rw (f, other-key k (union_key r) g.key e f) refl
    | inr f ↦ rw f (spans_at-add_row k r gs)
  ])
]

-- The spans of the rows of a key, added to some.
abbrev pub lines_of : UnionKey → List LedgerRow → List Lines → List Lines
lines_of k [] ss = ss
lines_of k (r ∷ rs) ss =
    lines_of k rs (if same_union_key k (union_key r) then add_lines r.lines ss else ss)

pub spans_at-group_rows :
    (k : UnionKey) (rs : List LedgerRow) (gs : List Group)
    → spans_at k (group_rows rs gs) ≡ lines_of k rs (spans_at k gs)
spans_at-group_rows k [] gs = refl
spans_at-group_rows k (r ∷ rs) gs =
    spans_at-group_rows k rs (add_row r gs) ∙ ap (lines_of k rs) (spans_at-add_row k r gs)

pub group_rows-AreApart :
    (rs : List LedgerRow) (gs : List Group) → AreApart gs → AreApart (group_rows rs gs)
group_rows-AreApart [] gs h = h
group_rows-AreApart (r ∷ rs) gs h = group_rows-AreApart rs (add_row r gs) (add_row-AreApart r gs h)

any-add_lines :
    (p : Lines → Bool) (s : Lines) (ss : List Lines) → any p (add_lines s ss) ≡ (any p ss || p s)
any-add_lines p s ss = elim (Bool-cases (any (same_lines s) ss)) [
  | inr e ↦ rw e (ground (arith, any-append p ss (s ∷ [])))
  | inl e ↦ rw e (sym (absorbed ss e))
]
  where
    absorbed : (ts : List Lines) → any (same_lines s) ts ≡ true → (any p ts || p s) ≡ any p ts
    absorbed [] h = cc
    absorbed (t ∷ ts) h = elim (Bool-cases (same_lines s t)) [
      | inl f ↦ (let same_p : p s ≡ p t = ap p (same_lines-eq s t f) in ground arith)
      | inr f ↦ (let i = absorbed ts (ground arith) in ground arith)
    ]

pub any-lines_of :
    (p : Lines → Bool) (k : UnionKey) (rs : List LedgerRow) (ss : List Lines)
    → any p (lines_of k rs ss)
      ≡ (any p ss || any (λ r. same_union_key k (union_key r) && p r.lines) rs)
any-lines_of p k [] ss = ground arith
any-lines_of p k (r ∷ rs) ss = elim (Bool-cases (same_union_key k (union_key r))) [
  | inl e ↦
      rw e (ground (arith, any-lines_of p k rs (add_lines r.lines ss), any-add_lines p r.lines ss))
  | inr e ↦ rw e (ground (arith, any-lines_of p k rs ss))
]

-- Spans without repetition.
abbrev pub AreDistinct : List Lines → Type 0
AreDistinct [] = Unit
AreDistinct (s ∷ ss) = (any (same_lines s) ss ≡ false) × AreDistinct ss

same_lines_flip : (t s : Lines) → same_lines s t ≡ false → same_lines t s ≡ false
same_lines_flip t s e = elim (Bool-cases (same_lines t s)) [
  | inr f ↦ f
  | inl f ↦
      (let same_t : same_lines s t ≡ true =
          subst (λ x. same_lines s x ≡ true) (sym (same_lines-eq t s f)) (same_lines_refl s) in
        absurd (ground arith))
]

add_lines-AreDistinct :
    (s : Lines) (ss : List Lines) → AreDistinct ss → AreDistinct (add_lines s ss)
add_lines-AreDistinct s ss h = elim (Bool-cases (any (same_lines s) ss)) [
  | inl e ↦ rw e h
  | inr e ↦ rw e (snoc_distinct ss h e)
]
  where
    snoc_distinct :
        (ts : List Lines)
        → AreDistinct ts
        → any (same_lines s) ts ≡ false
        → AreDistinct (ts ++ (s ∷ []))
    snoc_distinct [] h e = (refl, tt)
    snoc_distinct (t ∷ ts) (n, h) e = (
      let d = same_lines_flip t s (ground arith) in
          ground (arith, any-append (same_lines t) ts (s ∷ [])),
      snoc_distinct ts h (ground arith),
    )

abbrev pub AreOnce : List Group → Type 0
AreOnce gs = All (λ g. AreDistinct g.spans) gs

add_row-AreOnce : (r : LedgerRow) (gs : List Group) → AreOnce gs → AreOnce (add_row r gs)
add_row-AreOnce r [] h = ((refl, tt), tt)
add_row-AreOnce r (g ∷ gs) (d, h) = elim (Bool-cases (same_union_key (union_key r) g.key)) [
  | inl e ↦ rw e (add_lines-AreDistinct r.lines g.spans d, h)
  | inr e ↦ rw e (d, add_row-AreOnce r gs h)
]

pub group_rows-AreOnce :
    (rs : List LedgerRow) (gs : List Group) → AreOnce gs → AreOnce (group_rows rs gs)
group_rows-AreOnce [] gs h = h
group_rows-AreOnce (r ∷ rs) gs h = group_rows-AreOnce rs (add_row r gs) (add_row-AreOnce r gs h)

pub spans_at_none : (k : UnionKey) (gs : List Group) → has_key k gs ≡ false → spans_at k gs ≡ []
spans_at_none k [] h = refl
spans_at_none k (g ∷ gs) h =
    let e : same_union_key k g.key ≡ false = ground arith in
    rw e (spans_at_none k gs (ground arith))
