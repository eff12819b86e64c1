-- ===== src/Analytics/Graph/Components/Classes.antt =====
-- The components that are found are the classes of connected nodes (src/sot_graph/analytics/graph.py).
use sotgraph.Prelude.{
  ℕ, ◌≡◌, ◌↔◌, refl, subst, true, false, ◌||◌, some, List, [], ◌∷◌, ◌++◌, String, str_eq, length,
  keep, length-keep_append, member, All, All-snoc, if◌then◌else◌, Bool-cases, Option-cases, inl,
  inr, arith,
}
use sotgraph.Analytics.Graph.Components.{grow, seed, sweep_nodes}
use sotgraph.Analytics.Graph.Components.Growing.{
  Connected, Connected-trans, Connected-sym, seed-Growing, grow-Grown, Grown-all,
}
use sotgraph.Analytics.Graph.Components.Push.{member-same}

module _ (adj : String → List String)
    (symmetric : (x y : String) → member y (adj x) ≡ member x (adj y)) where
  -- The component is the class of some node.
  abbrev pub IsClass : List String → Type 0
  IsClass c =
      (root : String) × ((x : String) → member x c ≡ true → Connected adj root x)
      × ((x : String) → Connected adj root x → member x c ≡ true)

  abbrev pub times : String → List (List String) → ℕ
  times x cs = length (keep (member x) cs)

  -- What holds at each turn of the outer loop.
  abbrev pub Swept : List String → List (List String) → Type 0
  Swept v cs =
      ((x y : String) → member x v ≡ true → member y (adj x) ≡ true → member y v ≡ true)
      × ((x : String) → times x cs ≡ (if member x v then 1 else 0))
      × All IsClass cs

  add-Swept :
      (fuel : ℕ) (root : String) (before v c : List String) (cs : List (List String))
      → Swept before cs
      → member root before ≡ false
      → grow adj fuel (seed root before) [] ≡ some (v, c)
      → Swept v (cs ++ (c ∷ []))
  add-Swept fuel root before v c cs (closed, once, classes) new e =
      let g =
        grow-Grown adj symmetric root before closed new fuel (root ∷ before) (root ∷ []) [] v c
          (seed-Growing adj symmetric root before closed new) e in
      let all = Grown-all adj symmetric root before closed new v c g in
      let (vis, conn, nbr, fresh, here) = g in
      (
        (λ x y h k. elim (Bool-cases (member x c)) [
          | inl m ↦ nbr x y m k
          | inr m ↦
              (let p = vis x in
                let q = vis y in let y_before = closed x y (ground arith) k in ground arith)
        ]),
        (λ x.
            let p = vis x in
            let o = once x in
            let f = fresh x in let l = length-keep_append (member x) cs (c ∷ []) in ground arith),
        All-snoc IsClass cs c classes (root, conn, all),
      )

  grown-keeps :
      (fuel : ℕ) (root : String) (before v c : List String) (cs : List (List String))
      → Swept before cs
      → member root before ≡ false
      → grow adj fuel (seed root before) [] ≡ some (v, c)
      → (x : String) → (member x before || str_eq x root) ≡ true
      → member x v ≡ true
  grown-keeps fuel root before v c cs (closed, once, classes) new e x m =
      let g =
        grow-Grown adj symmetric root before closed new fuel (root ∷ before) (root ∷ []) [] v c
          (seed-Growing adj symmetric root before closed new) e in
      let (vis, conn, nbr, fresh, here) = g in
      let p = vis x in
      elim (Bool-cases (str_eq x root)) [
        | inl s ↦ (let there = member-same x root true c s here in ground arith)
        | inr s ↦ ground arith
      ]

  pub sweep_nodes-Swept :
      (fuel : ℕ) (nodes v : List String) (cs found : List (List String))
      → Swept v cs
      → sweep_nodes adj fuel nodes v cs ≡ some found
      → (w : List String) × Swept w found
        × ((x : String) → (member x v || member x nodes) ≡ true → member x w ≡ true)
  unfolding sweep_nodes
  sweep_nodes-Swept fuel [] v cs found h e =
      (v, subst (Swept v) (ground arith) h, (λ x k. ground arith))
  sweep_nodes-Swept fuel (node ∷ nodes) v cs found h e = elim (Bool-cases (member node v)) [
    | inl seen ↦
        (let (w, s, k) = sweep_nodes-Swept fuel nodes v cs found h (rw seen at e) in
          (
            w,
            s,
            (λ x m. k x (elim (Bool-cases (str_eq x node)) [
              | inl q ↦ (let same = member-same x node true v q seen in ground arith)
              | inr q ↦ ground arith
            ])),
          ))
    | inr new ↦ elim (Option-cases (grow adj fuel (seed node v) [])) [
      | inl stuck ↦ (let e' = rw (new, stuck) at e in cc)
      | inr ((v', c), grown) ↦
          (let (w, s, k) =
              sweep_nodes-Swept fuel nodes v' (cs ++ (c ∷ [])) found
                (add-Swept fuel node v v' c cs h new grown) (rw (new, grown) at e) in
            (
              w,
              s,
              (λ x m. k x (let g = grown-keeps fuel node v v' c cs h new grown x in ground arith)),
            ))
    ]
  ]

  pub class-Connected :
      (c : List String)
      → IsClass c
      → (a b : String) → member a c ≡ true
      → (member b c ≡ true) ↔ Connected adj a b
  class-Connected c (root, conn, all) a b h =
      let from_root = conn a h in
      (
        (λ k.
            Connected-trans adj a root b (Connected-sym adj symmetric root a from_root) (conn b k)),
        (λ k. all b (Connected-trans adj root a b from_root k)),
      )

  pub start-Swept : Swept [] []
  start-Swept = ((λ x y h k. h), (λ x. refl), tt)
