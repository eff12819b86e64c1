-- ===== src/Impact/Callers/Nearest.antt =====
-- That `_traverse_reverse_call_graph` (src/sot_graph/diff_impact.py) finds every caller, at its
-- least distance.
use sotgraph.Prelude.{
  ℕ, ◌≤◌, ◌≡◌, refl, subst, true, not, ◌||◌, ◌&&◌, Option, none, some, is_some, Bool-cases, inl,
  inr, List, [], ◌∷◌, map, String, str_eq, arith, leb, any, All, any-sort_by, sort_by, nonempty,
  member,
}
use sotgraph.Impact.Mapper.{DirectNodeChange}
use sotgraph.Impact.Callers.{EdgeRow, CallerImpact, traverse, first, ids, nearer, sorted_callers}
use sotgraph.Impact.Callers.Loop.{Reach, here, edge, walk_of, walk-keeps}
use sotgraph.Impact.Callers.Expand.{Ordered, known, waiting}
use sotgraph.Impact.Callers.Between.{Between, Between-skip, Between-visit, Reach-known}

module _ (max_depth : ℕ) (rows_into : String → Option (List EdgeRow)) (direct : List String) where
  Mid-first :
      (ds : List DirectNodeChange)
      → 1 ≤ max_depth
      → Ordered (map (first max_depth rows_into) ds)
        × All
            (λ p. (1 ≤ p.depth) × (p.depth ≤ 2) × (p.depth ≤ max_depth))
            (map (first max_depth rows_into) ds)
        × All (λ p. 1 ≤ p.depth) (map (first max_depth rows_into) ds)
  Mid-first [] m = (tt, tt, tt)
  Mid-first (d ∷ ds) m =
      let (o, b, l) = Mid-first ds m in
      ((l, o), ((omega arith, omega arith, m), b), (omega arith, l))

  waiting-first :
      (ds : List DirectNodeChange) (n : ℕ) (x : String)
      → member x (ids max_depth rows_into ds) ≡ true
      → waiting direct (map (first max_depth rows_into) ds) n x ≡ true
  waiting-first [] n x h = cc
  waiting-first (d ∷ ds) n x h = ground (arith, waiting-first ds n x)

module _ (max_depth : ℕ) (rows_into : String → Option (List EdgeRow))
    (direct_nodes : List DirectNodeChange) where
  nonempty_of :
      (ds : List DirectNodeChange) (x : String)
      → member x (ids max_depth rows_into ds) ≡ true
      → nonempty ds ≡ true
  nonempty_of [] x h = cc
  nonempty_of (d ∷ ds) x h = refl

  abbrev pub direct_ids : List String
  direct_ids = ids max_depth rows_into direct_nodes

  Between-first :
      1 ≤ max_depth
      → Between max_depth rows_into direct_ids
          (walk_of max_depth rows_into direct_ids (map (first max_depth rows_into) direct_nodes) [])
  Between-first m =
      let (o, b, _) = Mid-first max_depth rows_into direct_ids direct_nodes m in
      (
        1,
        (
          o,
          b,
          λ y h. ground arith,
          λ n x lt h.
              inl (waiting-first max_depth rows_into direct_ids direct_nodes n x (ground arith)),
        ),
      )

  known-sorted :
      (cs : List CallerImpact) (n : ℕ) (x : String)
      → known direct_ids cs n x ≡ true
      → known direct_ids (sort_by nearer cs) n x ≡ true
  known-sorted cs n x h =
      let s : any (λ c. str_eq x c.id && leb c.depth n) (sort_by nearer cs)
          ≡ any (λ c. str_eq x c.id && leb c.depth n) cs =
        any-sort_by nearer (λ c. str_eq x c.id && leb c.depth n) cs in
      ground arith

  known-some :
      (o : Option (List CallerImpact)) (found : List CallerImpact) (n : ℕ) (x : String)
      → ((cs : List CallerImpact) → o ≡ some cs → known direct_ids cs n x ≡ true)
      → sorted_callers o ≡ some found
      → known direct_ids found n x ≡ true
  known-some none found n x f e = cc
  known-some (some cs) found n x f e =
      let same : sort_by nearer cs ≡ found = ground arith in
      subst (λ xs. known direct_ids xs n x ≡ true) same (known-sorted cs n x (f cs refl))

  -- Without a changed node nothing reaches one.
  Reach-some : (n : ℕ) (x : String) → Reach rows_into direct_ids n x → nonempty direct_nodes ≡ true
  Reach-some _ _ (here x m) = nonempty_of direct_nodes x m
  Reach-some _ _ (edge n x y rows r q m) = Reach-some n x r

  Reach-direct :
      (n : ℕ) (x : String) → n ≡ 0 → Reach rows_into direct_ids n x → member x direct_ids ≡ true
  Reach-direct _ _ e (here x m) = m
  Reach-direct _ _ e (edge n x y rows r q m) = let no : 1 ≤ 0 = omega arith in elim no [ ]

  -- Where every query answers, each node that reaches a changed node by at most the asked number of
  -- edges is a changed node or is reported, and at a depth no larger than that number.
  pub traverse_complete :
      (answers : (x : String) → is_some (rows_into x) ≡ true) (fuel : ℕ) (found : List CallerImpact)
      → traverse max_depth rows_into fuel direct_nodes ≡ some found
      → (n : ℕ) (x : String) → Reach rows_into direct_ids n x
      → n ≤ max_depth
      → known direct_ids found n x ≡ true
  unfolding traverse
  traverse_complete answers fuel found e n x r le =
      elim (Bool-cases (not (nonempty direct_nodes) || leb max_depth 0)) [
        | inl stop ↦
            let some_node : nonempty direct_nodes ≡ true = Reach-some n x r in
            let m : member x direct_ids ≡ true = Reach-direct n x (ground arith) r in ground arith
        | inr go ↦
            known-some _ found n x
              (λ cs e'.
                let (w, b, end, same) =
                  walk-keeps max_depth rows_into (Between max_depth rows_into direct_ids)
                    (Between-skip max_depth rows_into direct_ids)
                    (Between-visit max_depth rows_into direct_ids) fuel _ _ [] cs
                    (Between-first (ground arith)) e' in
                subst (λ xs. known direct_ids xs n x ≡ true) same
                  (Reach-known max_depth rows_into direct_ids answers w b end n x r le))
              (rw go at e)
      ]
