-- ===== src/Analytics/Graph/Cycles/Searching.antt =====
-- What the search of `detect_cycles` (src/sot_graph/analytics/graph.py) keeps at each turn.
use sotgraph.Prelude.{
  ℕ, ◌<◌, ◌≡◌, sym, ap, ◌∙◌, subst, Bool, true, false, ◌||◌, Option, none, some, List, [], ◌∷◌,
  String, str_eq, member, All, Bool-cases, inl, inr, arith,
}
use sotgraph.Analytics.Graph.Cycles.{CycleSearch, Scan, advanced, finished, scan, pop_path, turn}
use sotgraph.Analytics.Graph.Cycles.Found.{IsCycle, Linked, ScanOk, scan-ScanOk}

module _ (adj : String → List String) where
  -- Each node's successors come after it.
  abbrev pub IsSorted : List String → Type 0
  IsSorted [] = Unit
  IsSorted (b ∷ bs) = ((y : String) → member y (adj b) ≡ true → member y bs ≡ true) × IsSorted bs

  abbrev is_above : Option String → String → Bool
  is_above none y = false
  is_above (some a) y = str_eq y a

  -- The successors of the nodes of the stack: still to come, done, or next on the stack.
  abbrev Accounted : List String → Option String → List (String × List String) → Type 0
  Accounted black above [] = Unit
  Accounted black above ((n, ds) ∷ st) =
      ((y : String)
        → member y (adj n) ≡ true
        → (member y ds || (member y black || is_above above y)) ≡ true)
      × Accounted black (some n) st

  Accounted-mono :
      (node : String) (black : List String) (above : Option String)
      (st : List (String × List String))
      → Accounted black above st
      → Accounted (node ∷ black) above st
  Accounted-mono node black above [] h = tt
  Accounted-mono node black above ((n, ds) ∷ st) (h, k) =
      ((λ y m. let c = h y m in ground arith), Accounted-mono node black (some n) st k)

  -- The node that was on top is done.
  Accounted-done :
      (node : String) (black : List String) (st : List (String × List String))
      → Accounted black (some node) st
      → Accounted (node ∷ black) none st
  Accounted-done node black [] h = tt
  Accounted-done node black ((n, ds) ∷ st) (h, k) =
      ((λ y m. let c = h y m in ground arith), Accounted-mono node black (some n) st k)

  -- The neighbors that are left are neighbors.
  abbrev pub Fits : List (String × List String) → Type 0
  Fits [] = Unit
  Fits ((n, ds) ∷ st) = ((y : String) → member y ds ≡ true → member y (adj n) ≡ true) × Fits st

  abbrev pub nodes_on : List (String × List String) → List String
  nodes_on [] = []
  nodes_on ((n, ds) ∷ st) = n ∷ nodes_on st

  -- What holds at each turn of the search.
  abbrev pub Searching : CycleSearch → Type 0
  Searching s =
      All (IsCycle adj) s.cycles
      × (s.path ≡ nodes_on s.stack)
      × Linked adj (nodes_on s.stack)
      × Fits s.stack
      × ((x : String) → member x s.gray ≡ true → (member x s.black || member x s.path) ≡ true)
      × (s.cycles ≡ [] → IsSorted s.black × Accounted s.black none s.stack)

  Linked-rest : (a : String) (path : List String) → Linked adj (a ∷ path) → Linked adj path
  Linked-rest a [] h = tt
  Linked-rest a (b ∷ path) (l, h) = h

  pub turn-gray :
      (x node : String) (st : List (String × List String)) (s : CycleSearch) (r : Scan)
      → member x s.gray ≡ true
      → member x (turn adj node st s r).gray ≡ true
  turn-gray x node st s (advanced d rest cs) h = ground arith
  turn-gray x node st s (finished cs) h = h

  module _ (max_cycles : ℕ) (some_cycles : 0 < max_cycles) where
    pub turn-Searching :
        (s : CycleSearch) (node : String) (ds : List String) (st : List (String × List String))
        (r : Scan)
        → s.stack ≡ (node, ds) ∷ st
        → Searching s
        → ScanOk adj s ds s.cycles r
        → Searching (turn adj node st s r)
    turn-Searching s node ds st (advanced d rest cs) e (c, p, l, f, g, k) (m, sub, new, all, nil) =
        let path_on : s.path ≡ node ∷ nodes_on st = p ∙ ap nodes_on e in
        let (fits, fits_st) = subst Fits e f in
        let linked : Linked adj (node ∷ nodes_on st) = subst (λ x. Linked adj (nodes_on x)) e l in
        (
          all,
          ap (λ x. d ∷ x) path_on,
          (fits d m, linked),
          ((λ y h. h), ((λ y h. fits y (sub y h)), fits_st)),
          (λ x h. elim (Bool-cases (str_eq x d)) [
            | inl q ↦ ground arith
            | inr q ↦ (let n = g x (ground arith) in ground arith)
          ]),
          (λ z.
              let (before, each) = nil z in
              let (sorted, acc) = k before in
              let (top, below) = subst (Accounted s.black none) e acc in
              (
                sorted,
                (
                  (λ y h. ground arith),
                  (
                    (λ y h.
                        let t = top y h in
                        elim (Bool-cases (member y ds)) [
                          | inl q ↦ (let n = each y q in ground arith)
                          | inr q ↦ ground arith
                        ]),
                    below,
                  ),
                ),
              )),
        )
    turn-Searching s node ds st (finished cs) e (c, p, l, f, g, k) (all, nil) =
        let path_on : s.path ≡ node ∷ nodes_on st = p ∙ ap nodes_on e in
        (
          all,
          ap pop_path path_on,
          Linked-rest node (nodes_on st) (subst (λ x. Linked adj (nodes_on x)) e l),
          (subst Fits e f).1,
          (λ x h.
              let here = subst (λ l. (member x s.black || member x l) ≡ true) path_on (g x h) in
              subst (λ l. ((str_eq x node || member x s.black) || member x (pop_path l)) ≡ true)
                (sym path_on) (ground arith)),
          (λ z.
              let (before, each) = nil z in
              let (sorted, acc) = k before in
              let (top, below) = subst (Accounted s.black none) e acc in
              (
                (
                  (λ y h.
                      let t = top y h in
                      elim (Bool-cases (member y ds)) [ inl q ↦ each y q | inr q ↦ ground arith ]),
                  sorted,
                ),
                Accounted-done node s.black st below,
              )),
        )

    pub scan-Searching :
        (s : CycleSearch) (node : String) (ds : List String) (st : List (String × List String))
        → s.stack ≡ (node, ds) ∷ st
        → Searching s
        → ScanOk adj s ds s.cycles (scan max_cycles s ds s.cycles)
    scan-Searching s node ds st e (c, p, l, f, g, k) =
        scan-ScanOk adj max_cycles some_cycles s node (nodes_on st) (p ∙ ap nodes_on e)
          (subst (λ x. Linked adj (nodes_on x)) e l) g ds s.cycles (subst Fits e f).0 c
