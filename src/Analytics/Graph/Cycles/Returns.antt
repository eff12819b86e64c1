-- ===== src/Analytics/Graph/Cycles/Returns.antt =====
-- Fuel that `detect_cycles` (src/sot_graph/analytics/graph.py) never exhausts.
use sotgraph.Prelude.{
  ℕ, zero, suc, ◌+◌, ◌*◌, ◌<◌, ◌≡◌, refl, sym, ap, subst, true, some, List, [], ◌∷◌, String, length,
  member, unseen, unseen-visit, unseen_bound, All, leb, Bool-cases, inl, inr, arith,
}
use sotgraph.Analytics.Graph.Cycles.{
  CycleSearch, Scan, advanced, finished, scan, turn, explore, begin_at, search_roots,
}
use sotgraph.Analytics.Graph.Cycles.Found.{ScanOk}
use sotgraph.Analytics.Graph.Cycles.Searching.{Searching, Fits, scan-Searching, turn-Searching}
use sotgraph.Analytics.Graph.Cycles.Sorted.{Rested, begin-Searching, explore-Rested}

module _ (adj : String → List String) (nodes : List String)
    (within : (x y : String) → member y (adj x) ≡ true → member y nodes ≡ true) (max_cycles : ℕ)
    (some_cycles : 0 < max_cycles) where
  abbrev measure : CycleSearch → ℕ
  measure s = 2 * unseen s.gray nodes + length s.stack

  measure-turn :
      (s : CycleSearch) (node : String) (ds : List String) (st : List (String × List String))
      (r : Scan)
      → s.stack ≡ (node, ds) ∷ st
      → ((y : String) → member y ds ≡ true → member y nodes ≡ true)
      → ScanOk adj s ds s.cycles r
      → measure (turn adj node st s r) < measure s
  measure-turn s node ds st (advanced d rest cs) e inside (m, sub, new, all, nil) =
      let fewer = unseen-visit d s.gray nodes (inside d m) new in
      let l : length s.stack ≡ suc (length st) = ap length e in omega arith
  measure-turn s node ds st (finished cs) e inside ok =
      let l : length s.stack ≡ suc (length st) = ap length e in omega arith

  explore-returns :
      (n : ℕ) (s : CycleSearch) (st : List (String × List String))
      → s.stack ≡ st
      → Searching adj s
      → measure s < n
      → (t : CycleSearch) × (explore adj max_cycles n s ≡ some t)
  unfolding explore
  explore-returns zero s st e h k = elim k [ ]
  explore-returns (suc n) s [] e h k = (
    s,
    subst
        (λ o.
          (elim o [
            | [] ↦ some s
            | (m, ns) ∷ rest ↦
                explore adj max_cycles n (turn adj m rest s (scan max_cycles s ns s.cycles))
          ])
          ≡ some s)
        (sym e) refl,
  )
  explore-returns (suc n) s ((node, ds) ∷ st) e h k =
      let (c, p, l, f, g, z) = h in
      let (fits, _) = subst (Fits adj) e f in
      let r = scan max_cycles s ds s.cycles in
      let ok = scan-Searching adj max_cycles some_cycles s node ds st e h in
      let less = measure-turn s node ds st r e (λ y m. within node y (fits y m)) ok in
      let (t, found) =
        explore-returns n (turn adj node st s r) _ refl
          (turn-Searching adj max_cycles some_cycles s node ds st r e h ok) (omega arith) in
      (
        t,
        subst
            (λ o.
              (elim o [
                | [] ↦ some s
                | (m, ns) ∷ rest ↦
                    explore adj max_cycles n (turn adj m rest s (scan max_cycles s ns s.cycles))
              ])
              ≡ some t)
            (sym e) found,
      )

  pub search_roots-returns :
      (fuel : ℕ) (roots : List String) (s : CycleSearch)
      → 2 * length nodes < fuel
      → All (λ x. member x nodes ≡ true) roots
      → Rested adj max_cycles some_cycles s
      → (t : CycleSearch) × (search_roots adj max_cycles fuel roots s ≡ some t)
  unfolding search_roots
  search_roots-returns fuel [] s k h r = (s, refl)
  search_roots-returns fuel (root ∷ roots) s k (here, h) r =
      elim (Bool-cases (leb max_cycles (length s.cycles))) [
        | inl full ↦ rw full (s, refl)
        | inr more ↦ elim (Bool-cases (member root s.gray)) [
          | inl seen ↦ rw (more, seen) (search_roots-returns fuel roots s k h r)
          | inr new ↦
              (let fewer = unseen-visit root s.gray nodes here new in
                let bound = unseen_bound s.gray nodes in
                let started = begin-Searching adj max_cycles some_cycles root s r in
                let (u, found) =
                  explore-returns fuel (begin_at adj root s) _ refl started (omega arith) in
                let (done, _) =
                  explore-Rested adj max_cycles some_cycles fuel (begin_at adj root s) u _ refl
                    started found in
                rw (more, new, found) (search_roots-returns fuel roots u k h done))
        ]
      ]
