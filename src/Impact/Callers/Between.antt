-- ===== src/Impact/Callers/Between.antt =====
-- What holds between two turns of the loop of `_traverse_reverse_call_graph`
-- (src/sot_graph/diff_impact.py), and when it ends.
use sotgraph.Prelude.{
  ℕ, suc, ◌<◌, ◌≤◌, ◌≡◌, sym, subst, true, false, ◌&&◌, Option, some, is_some, Bool-cases, inl, inr,
  List, [], ◌∷◌, String, str_eq, eq_iff, arith, leb, any, All, All-map_to,
}
use sotgraph.Impact.Callers.{EdgeRow, CallerImpact, Pending, Walk, visit_rows}
use sotgraph.Impact.Callers.Loop.{Reach, here, edge, walk_of, Ended}
use sotgraph.Impact.Callers.Expand.{known, known_mono, Closed, Mid, Mid-visit_rows}

All-with {ℓ} :
    {A : Type ℓ} (P Q R : A → Type 0)
    → ((x : A) → P x → Q x → R x)
    → (xs : List A) → All P xs
    → All Q xs
    → All R xs
All-with P Q R f [] h k = tt
All-with P Q R f (x ∷ xs) (h, i) (k, j) = (f x h k, All-with P Q R f xs i j)

known-any :
    (direct : List String) (cs : List CallerImpact) (n : ℕ) (y : String) (rows : List EdgeRow)
    → All (λ row. known direct cs n row.id ≡ true) rows
    → any (λ row. str_eq y row.id) rows ≡ true
    → known direct cs n y ≡ true
known-any direct cs n y [] h k = cc
known-any direct cs n y (row ∷ rows) (h, i) k = elim (Bool-cases (str_eq y row.id)) [
  | inl e ↦ subst (λ z. known direct cs n z ≡ true) (sym ((eq_iff y row.id).0 e)) h
  | inr e ↦ known-any direct cs n y rows i (ground arith)
]

module _ (max_depth : ℕ) (rows_into : String → Option (List EdgeRow)) (direct : List String) where
  abbrev Idle : ℕ → String → Type 0
  Idle n x = false ≡ true

  abbrev pub Between : Walk → Type 0
  Between w = (level : ℕ) × Mid max_depth rows_into direct level Idle w

  abbrev BusyWith : Pending → ℕ → String → Type 0
  BusyWith curr n x = (x ≡ curr.id) × (curr.depth ≤ suc n)

  Mid-start :
      (curr : Pending) (v : List String) (q : List Pending) (cs : List CallerImpact)
      → Between (walk_of max_depth rows_into v (curr ∷ q) cs)
      → Mid max_depth rows_into direct curr.depth
          (BusyWith curr)
          (walk_of max_depth rows_into v q cs)
  Mid-start curr v q cs (level, ((o, o'), (b, b'), k, c)) = (
    o',
    All-with _ _ _ (λ p h i. (h, omega arith, i.2)) q o b',
    λ y h. known_mono direct cs level curr.depth y b.0 (k y h),
    λ n x lt h. elim (c n x lt h) [
      | inl w ↦ elim (Bool-cases (str_eq x curr.id && leb curr.depth (suc n))) [
        | inl e ↦ inr (inr ((eq_iff x curr.id).0 (ground arith), ground arith))
        | inr e ↦ inl (ground arith)
      ]
      | inr (inl a) ↦ inr (inl a)
      | inr (inr a) ↦ cc
    ],
  )

  Between-end :
      (curr : Pending) (rows : List EdgeRow) (w : Walk)
      → rows_into curr.id ≡ some rows
      → Mid max_depth rows_into direct curr.depth (BusyWith curr) w
      → All (λ row. known direct w.callers curr.depth row.id ≡ true) rows
      → Between w
  Between-end curr rows w e (o, b, k, c) ks = (
    curr.depth,
    (
      o,
      b,
      k,
      λ n x lt h. elim (c n x lt h) [
        | inl a ↦ inl a
        | inr (inl a) ↦ inr (inl a)
        | inr (inr (same, le)) ↦ inr (
            inl (λ rows' e'.
              let eq : rows ≡ rows' = cc in
              subst (All _) eq (
                All-map_to _ _ (λ row h. known_mono direct w.callers curr.depth (suc n) row.id le h)
                  rows ks)))
      ],
    ),
  )

  pub Between-skip :
      (curr : Pending) (v : List String) (q : List Pending) (cs : List CallerImpact)
      → max_depth < curr.depth
      → Between (walk_of max_depth rows_into v (curr ∷ q) cs)
      → Between (walk_of max_depth rows_into v q cs)
  Between-skip curr v q cs d (level, (o, (b, b'), k, c)) =
      let no : 1 ≤ 0 = omega arith in elim no [ ]

  pub Between-visit :
      (curr : Pending) (v : List String) (q : List Pending) (cs : List CallerImpact)
      (rows : List EdgeRow)
      → curr.depth ≤ max_depth
      → rows_into curr.id ≡ some rows
      → Between (walk_of max_depth rows_into v (curr ∷ q) cs)
      → Between (visit_rows max_depth curr rows (walk_of max_depth rows_into v q cs))
  Between-visit curr v q cs rows d e h =
      let (m, ks) =
        Mid-visit_rows max_depth rows_into direct curr (BusyWith curr) d rows _
          (Mid-start curr v q cs h) in
      Between-end curr rows _ e m ks

  module _ (answers : (x : String) → is_some (rows_into x) ≡ true) where
    Closed-end :
        (w : Walk)
        → Between w
        → Ended max_depth rows_into w
        → (n : ℕ) (x : String) → n < max_depth
        → known direct w.callers n x ≡ true
        → Closed max_depth rows_into direct w.callers n x
    Closed-end w (level, (o, b, k, c)) (inl e) n x lt h = elim (c n x lt h) [
      | inl a ↦ cc
      | inr (inl a) ↦ a
      | inr (inr a) ↦ cc
    ]
    Closed-end w h (inr (curr, rest, e, e')) n x lt k =
        let a : is_some (rows_into curr.id) ≡ true = answers curr.id in cc

    pub Reach-known :
        (w : Walk)
        → Between w
        → Ended max_depth rows_into w
        → (n : ℕ) (x : String) → Reach rows_into direct n x
        → n ≤ max_depth
        → known direct w.callers n x ≡ true
    Reach-known w h e _ _ (here y m) le = ground arith
    Reach-known w h e _ _ (edge n x y rows r q m) le =
        known-any direct w.callers (suc n) y rows
          (Closed-end w h e n x (omega arith) (Reach-known w h e n x r (omega arith)) rows q) m
