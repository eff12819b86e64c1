-- ===== src/Impact/Callers/Found.antt =====
-- What the callers found by `_traverse_reverse_call_graph` (src/sot_graph/diff_impact.py) are.
use sotgraph.Prelude.{
  ℕ, suc, ◌-◌, ◌≤◌, ◌≡◌, refl, subst, true, false, not, ◌||◌, Option, none, some, Bool-cases, inl,
  inr, List, [], ◌∷◌, ◌++◌, map, String, str_eq, arith, ltb, leb, All, All-snoc, All-map_to,
  All-sort_by, nonempty, member, str_eq_refl,
}
use sotgraph.Impact.Mapper.{DirectNodeChange}
use sotgraph.Impact.Callers.{
  EdgeRow, CallerImpact, Pending, Walk, visit_row, visit_rows, walk, traverse, first, ids, nearer,
  caller_of, next_of, sorted_callers,
}
use sotgraph.Impact.Callers.Loop.{Reach, here, edge, All-self, walk_of, walk-keeps}

module _ (max_depth : ℕ) (rows_into : String → Option (List EdgeRow)) (direct : List String) where
  -- A caller stands at its depth from a direct node, within the bound, and is not direct itself.
  abbrev pub GoodCaller : CallerImpact → Type 0
  GoodCaller c =
      Reach rows_into direct c.depth c.id
      × (1 ≤ c.depth)
      × (c.depth ≤ max_depth)
      × (member c.id direct ≡ false)

  abbrev GoodPending : Pending → Type 0
  GoodPending p = Reach rows_into direct (p.depth - 1) p.id × (1 ≤ p.depth) × (p.depth ≤ max_depth)

  abbrev Sound : Walk → Type 0
  Sound w =
      ((x : String) → member x direct ≡ true → member x w.visited_nodes ≡ true)
      × All GoodCaller w.callers
      × All GoodPending w.queue

  Sound-visit_row :
      (curr : Pending) (row : EdgeRow) (w : Walk)
      → (1 ≤ curr.depth)
      → (curr.depth ≤ max_depth)
      → Reach rows_into direct curr.depth row.id
      → Sound w
      → Sound (visit_row max_depth curr row w)
  unfolding visit_row
  Sound-visit_row curr row w lo hi r (v, c, q) = elim (Bool-cases (member row.id w.visited_nodes)) [
    | inl e ↦ rw e (v, c, q)
    | inr e ↦
        let fresh : member row.id direct ≡ false = ground (arith, v row.id) in
        let v' : (x : String)
            → member x direct ≡ true
            → member x (row.id ∷ w.visited_nodes) ≡ true =
          λ x h. ground (arith, v x) in
        let c' : All GoodCaller (w.callers ++ (caller_of curr row ∷ [])) =
          All-snoc GoodCaller w.callers (caller_of curr row) c (r, lo, hi, fresh) in
        let down : curr.depth ≡ suc curr.depth - 1 = omega arith in
        rw e (elim (Bool-cases (ltb curr.depth max_depth)) [
          | inl d ↦ rw d (
            v',
            c',
            All-snoc GoodPending w.queue (next_of curr row) q
                (subst (λ n. Reach rows_into direct n row.id) down r, omega arith, ground arith),
          )
          | inr d ↦ rw d (v', c', q)
        ])
  ]

  Sound-visit_rows :
      (curr : Pending) (rows : List EdgeRow) (w : Walk)
      → (1 ≤ curr.depth)
      → (curr.depth ≤ max_depth)
      → All (λ row. Reach rows_into direct curr.depth row.id) rows
      → Sound w
      → Sound (visit_rows max_depth curr rows w)
  unfolding visit_rows
  Sound-visit_rows curr [] w lo hi r h = h
  Sound-visit_rows curr (row ∷ rows) w lo hi (r, rs) h =
      Sound-visit_rows curr rows _ lo hi rs (Sound-visit_row curr row w lo hi r h)

  Reach-rows :
      (curr : Pending) (rows : List EdgeRow)
      → GoodPending curr
      → rows_into curr.id ≡ some rows
      → All (λ row. Reach rows_into direct curr.depth row.id) rows
  Reach-rows curr rows (r, lo, hi) e =
      let up : suc (curr.depth - 1) ≡ curr.depth = omega arith in
      All-map_to _ _
        (λ row h.
          subst (λ n. Reach rows_into direct n row.id) up
            (edge (curr.depth - 1) curr.id row.id rows r e h))
        rows (All-self rows rows (λ y h. h))

  walk-Sound :
      (n : ℕ) (v : List String) (q : List Pending) (cs found : List CallerImpact)
      → Sound (walk_of max_depth rows_into v q cs)
      → walk max_depth rows_into n v q cs ≡ some found
      → All GoodCaller found
  walk-Sound n v q cs found h e =
      let (w, (_, good, _), _, same) =
        walk-keeps max_depth rows_into Sound (λ curr v q cs d (a, b, (c, k)). (a, b, k))
          (λ curr v q cs rows d e' (a, b, (c, k)).
            Sound-visit_rows curr rows _ c.1 d (Reach-rows curr rows c e') (a, b, k))
          n v q cs found h e in
      subst (All GoodCaller) same good

module _ (max_depth : ℕ) (rows_into : String → Option (List EdgeRow)) where
  All-first :
      (ds : List DirectNodeChange) (direct : List String)
      → 1 ≤ max_depth
      → ((x : String) → member x (ids max_depth rows_into ds) ≡ true → member x direct ≡ true)
      → All (GoodPending max_depth rows_into direct) (map (first max_depth rows_into) ds)
  All-first [] direct m f = tt
  All-first (d ∷ ds) direct m f =
      let e : str_eq d.id d.id ≡ true = str_eq_refl d.id in
      (
        (here d.id (f d.id (ground arith)), omega arith, m),
        All-first ds direct m (λ x h. f x (ground arith)),
      )

  sorted-some :
      (P : CallerImpact → Type 0) (o : Option (List CallerImpact)) (found : List CallerImpact)
      → ((cs : List CallerImpact) → o ≡ some cs → All P cs)
      → sorted_callers o ≡ some found
      → All P found
  sorted-some P none found f e = cc
  sorted-some P (some cs) found f e =
      subst (All P) (ground arith) (All-sort_by nearer P cs (f cs refl))

  -- Each reported caller reaches a changed node by as many edges as its depth says, lies within the
  -- depth asked for, and is not a changed node itself.
  pub traverse_sound :
      (fuel : ℕ) (direct_nodes : List DirectNodeChange) (found : List CallerImpact)
      → traverse max_depth rows_into fuel direct_nodes ≡ some found
      → All (GoodCaller max_depth rows_into (ids max_depth rows_into direct_nodes)) found
  unfolding traverse
  traverse_sound fuel ds found e = elim (Bool-cases (not (nonempty ds) || leb max_depth 0)) [
    | inl stop ↦
        let nil : [] ≡ found = ground arith in
        subst (All (GoodCaller max_depth rows_into (ids max_depth rows_into ds))) nil tt
    | inr go ↦
        sorted-some _ _ found
          (λ cs e'.
            walk-Sound max_depth rows_into (ids max_depth rows_into ds) fuel _ _ [] cs
              (λ x h. h, tt, All-first ds _ (ground arith) (λ x h. h)) e')
          (rw go at e)
  ]
