-- ===== src/Analytics/Graph/Cycles/Sorted.antt =====
-- The search of `detect_cycles` (src/sot_graph/analytics/graph.py) sorts a graph in which it finds no
-- cycle.
use sotgraph.Prelude.{
  ℕ, zero, suc, ◌<◌, ◌≡◌, refl, ap, ◌∙◌, subst, true, ◌||◌, some, List, [], ◌∷◌, String, str_eq,
  length, member, leb, Option-cases, Bool-cases, inl, inr, arith,
}
use sotgraph.Analytics.Graph.Components.Push.{member-same}
use sotgraph.Analytics.Graph.Cycles.{CycleSearch, scan, turn, explore, begin_at, search_roots}
use sotgraph.Analytics.Graph.Cycles.Searching.{
  Searching, nodes_on, scan-Searching, turn-Searching, turn-gray,
}

module _ (adj : String → List String) (max_cycles : ℕ) (some_cycles : 0 < max_cycles) where
  -- A search that has come to its end.
  abbrev pub Rested : CycleSearch → Type 0
  Rested s = Searching adj s × (s.stack ≡ [])

  pub explore-Rested :
      (n : ℕ) (s t : CycleSearch) (st : List (String × List String))
      → s.stack ≡ st
      → Searching adj s
      → explore adj max_cycles n s ≡ some t
      → Rested t × ((x : String) → member x s.gray ≡ true → member x t.gray ≡ true)
  unfolding explore
  explore-Rested zero s t st e h k = cc
  explore-Rested (suc n) s t [] e h k =
      let same : s ≡ t = (let k' = rw e at k in ground arith) in
      (subst Rested same (h, e), (λ x m. subst (λ u. member x u.gray ≡ true) same m))
  explore-Rested (suc n) s t ((node, ds) ∷ st) e h k =
      let r = scan max_cycles s ds s.cycles in
      let k' : explore adj max_cycles n (turn adj node st s r) ≡ some t =
        subst
          (λ o.
            (elim o [
              | [] ↦ some s
              | (m, ns) ∷ rest ↦
                  explore adj max_cycles n (turn adj m rest s (scan max_cycles s ns s.cycles))
            ])
            ≡ some t)
          e k in
      let (rested, more) =
        explore-Rested n (turn adj node st s r) t _ refl
          (turn-Searching adj max_cycles some_cycles s node ds st r e h
            (scan-Searching adj max_cycles some_cycles s node ds st e h))
          k' in
      (rested, (λ x m. more x (turn-gray adj x node st s r m)))

  pub begin-Searching :
      (root : String) (s : CycleSearch) → Rested s → Searching adj (begin_at adj root s)
  begin-Searching root s ((c, p, l, f, g, k), e) =
      let bare : s.path ≡ [] = p ∙ ap (nodes_on adj) e in
      (
        c,
        ap (λ q. root ∷ q) bare,
        tt,
        ((λ y h. h), tt),
        (λ x h. elim (Bool-cases (str_eq x root)) [
          | inl q ↦ ground arith
          | inr q ↦ (let n = g x (ground arith) in ground arith)
        ]),
        (λ z. ((k z).0, ((λ y h. ground arith), tt))),
      )

  pub search_roots-Rested :
      (fuel : ℕ) (roots : List String) (s t : CycleSearch)
      → Rested s
      → search_roots adj max_cycles fuel roots s ≡ some t
      → Rested t
        × (t.cycles ≡ []
            → (x : String) → (member x s.gray || member x roots) ≡ true
            → member x t.gray ≡ true)
  unfolding search_roots
  search_roots-Rested fuel [] s t h e =
      let same : s ≡ t = ground arith in
      (subst Rested same h, (λ z x m. subst (λ u. member x u.gray ≡ true) same (ground arith)))
  search_roots-Rested fuel (root ∷ roots) s t h e =
      elim (Bool-cases (leb max_cycles (length s.cycles))) [
        | inl full ↦
            (let e' = rw full at e in
              let same : s ≡ t = ground arith in
              (
                subst Rested same h,
                (λ z x m.
                    let l : length s.cycles ≡ 0 = ap length (ap (λ u. u.cycles) same ∙ z) in
                    absurd (ground arith)),
              ))
        | inr more ↦ elim (Bool-cases (member root s.gray)) [
          | inl seen ↦
              (let (rested, all) = search_roots-Rested fuel roots s t h (rw (more, seen) at e) in
                (
                  rested,
                  (λ z x m. all z x (elim (Bool-cases (str_eq x root)) [
                    | inl q ↦ (let n = member-same x root true s.gray q seen in ground arith)
                    | inr q ↦ ground arith
                  ])),
                ))
          | inr new ↦ elim (Option-cases (explore adj max_cycles fuel (begin_at adj root s))) [
            | inl stuck ↦ (let e' = rw (more, new, stuck) at e in cc)
            | inr (u, found) ↦
                (let (done, kept) =
                    explore-Rested fuel (begin_at adj root s) u _ refl (begin-Searching root s h)
                      found in
                  let (rested, all) =
                    search_roots-Rested fuel roots u t done (rw (more, new, found) at e) in
                  (
                    rested,
                    (λ z x m. all z x (elim (Bool-cases (str_eq x root || member x s.gray)) [
                      | inl q ↦ (let n = kept x q in ground arith)
                      | inr q ↦ ground arith
                    ])),
                  ))
          ]
        ]
      ]
