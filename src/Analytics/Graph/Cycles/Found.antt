-- ===== src/Analytics/Graph/Cycles/Found.antt =====
-- Each cycle that `detect_cycles` (src/sot_graph/analytics/graph.py) finds is one, and what a turn of
-- its search keeps.
use sotgraph.Prelude.{
  ℕ, ◌<◌, ◌≡◌, sym, ap, subst, true, false, ◌||◌, List, [], ◌∷◌, ◌++◌, String, str_eq, eq_iff,
  length, length-append, member, member_self, All, All-snoc, leb, Bool-cases, inl, inr, arith,
}
use sotgraph.Analytics.Graph.Components.Push.{member-same}
use sotgraph.Analytics.Graph.Cycles.{CycleSearch, back_to, Scan, advanced, finished, scan}

-- A list of nodes, each joined to the next by an edge; there is at least one edge.
pub data Chain (adj : String → List String) (z : String) : String → List String → Type 0 where
  last_edge : (x : String) → member z (adj x) ≡ true → Chain adj z x (x ∷ z ∷ [])
  edge_before :
      (x y : String) (l : List String)
      → member y (adj x) ≡ true
      → Chain adj z y l
      → Chain adj z x (x ∷ l)

abbrev pub IsCycle : (String → List String) → List String → Type 0
IsCycle adj c = (x : String) × Chain adj x x c

module _ (adj : String → List String) where
  -- A path with its last node first.
  abbrev pub Linked : List String → Type 0
  Linked [] = Unit
  Linked (a ∷ []) = Unit
  Linked (a ∷ b ∷ path) = (member a (adj b) ≡ true) × Linked (b ∷ path)

  pub back_to-IsCycle :
      (dst a : String) (path found : List String)
      → Linked (a ∷ path)
      → member dst (a ∷ path) ≡ true
      → Chain adj dst a (a ∷ found)
      → IsCycle adj (back_to dst (a ∷ path) found)
  back_to-IsCycle dst a [] found h m c =
      let e : str_eq dst a ≡ true = ground arith in
      rw e (dst, subst (λ x. Chain adj dst x (a ∷ found)) (sym ((eq_iff dst a).0 e)) c)
  back_to-IsCycle dst a (b ∷ path) found (l, h) m c = elim (Bool-cases (str_eq dst a)) [
    | inl e ↦ rw e (dst, subst (λ x. Chain adj dst x (a ∷ found)) (sym ((eq_iff dst a).0 e)) c)
    | inr e ↦
        rw e (
          back_to-IsCycle dst b path (a ∷ found) h (ground arith) (edge_before b a (a ∷ found) l c))
  ]

  -- What a scan of neighbors of a node gives.
  abbrev pub ScanOk : CycleSearch → List String → List (List String) → Scan → Type 0
  ScanOk s ds before (advanced d rest cs) =
      (member d ds ≡ true)
      × ((y : String) → member y rest ≡ true → member y ds ≡ true)
      × (member d s.gray ≡ false)
      × All (IsCycle adj) cs
      × (cs ≡ []
          → (before ≡ [])
            × ((y : String)
                → member y ds ≡ true
                → (member y rest || (str_eq y d || member y s.black)) ≡ true))
  ScanOk s ds before (finished cs) =
      All (IsCycle adj) cs
      × (cs ≡ [] → (before ≡ []) × ((y : String) → member y ds ≡ true → member y s.black ≡ true))

  snoc_nonempty {ℓ} : {A : Type ℓ} (xs : List A) (x : A) → xs ++ (x ∷ []) ≡ [] → ⊥
  snoc_nonempty xs x e =
      let l = length-append xs (x ∷ []) in let k = ap length e in absurd (omega arith)

  -- A neighbor that was passed over.
  passed-ScanOk :
      (s : CycleSearch) (d : String) (ds : List String) (cs : List (List String)) (r : Scan)
      → member d s.black ≡ true
      → ScanOk s ds cs r
      → ScanOk s (d ∷ ds) cs r
  passed-ScanOk s d ds cs (advanced x rest cs') b (m, sub, g, c, k) = (
    ground arith,
    (λ y h. let n = sub y h in ground arith),
    g,
    c,
    (λ e.
        let (nil, all) = k e in
        (
          nil,
          λ y h. elim (Bool-cases (str_eq y d)) [
            | inl q ↦ (let n = member-same y d true s.black q b in ground arith)
            | inr q ↦ all y (ground arith)
          ],
        )),
  )
  passed-ScanOk s d ds cs (finished cs') b (c, k) = (
    c,
    (λ e.
        let (nil, all) = k e in
        (
          nil,
          λ y h. elim (Bool-cases (str_eq y d)) [
            | inl q ↦ member-same y d true s.black q b
            | inr q ↦ all y (ground arith)
          ],
        )),
  )

  -- A neighbor that closed a cycle.
  closed-ScanOk :
      (s : CycleSearch) (d : String) (ds c : List String) (cs : List (List String)) (r : Scan)
      → ScanOk s ds (cs ++ (c ∷ [])) r
      → ScanOk s (d ∷ ds) cs r
  closed-ScanOk s d ds c cs (advanced x rest cs') (m, sub, g, all, k) = (
    ground arith,
    (λ y h. let n = sub y h in ground arith),
    g,
    all,
    (λ e. absurd (snoc_nonempty cs c (k e).0)),
  )
  closed-ScanOk s d ds c cs (finished cs') (all, k) =
      (all, (λ e. absurd (snoc_nonempty cs c (k e).0)))

  module _ (max_cycles : ℕ) (some_cycles : 0 < max_cycles) (s : CycleSearch) (a : String)
      (path : List String) (on_path : s.path ≡ a ∷ path) (linked : Linked (a ∷ path))
      (gray_on_path : (x : String)
        → member x s.gray ≡ true
        → (member x s.black || member x s.path) ≡ true) where
    pub scan-ScanOk :
        (ds : List String) (cs : List (List String))
        → ((y : String) → member y ds ≡ true → member y (adj a) ≡ true)
        → All (IsCycle adj) cs
        → ScanOk s ds cs (scan max_cycles s ds cs)
    unfolding scan
    scan-ScanOk [] cs sub c = (c, (λ e. (e, λ y h. absurd (ground arith))))
    scan-ScanOk (d ∷ ds) cs sub c = elim (Bool-cases (leb max_cycles (length cs))) [
      | inl e ↦ rw e (c, (λ nil. let k = ap length nil in absurd (ground arith)))
      | inr e ↦ rw e (elim (Bool-cases (member d s.black)) [
        | inl b ↦
            rw b (passed-ScanOk s d ds cs _ b (scan-ScanOk ds cs (λ y h. sub y (ground arith)) c))
        | inr b ↦ rw b (elim (Bool-cases (member d s.gray)) [
          | inr g ↦
              rw g
                (member_self d ds, (λ y h. ground arith), g, c, (λ nil. (nil, λ y h. ground arith)))
          | inl g ↦ rw g (
              let m = gray_on_path d g in
              let on : member d (a ∷ path) ≡ true =
                subst (λ l. member d l ≡ true) on_path (ground arith) in
              let cycle : IsCycle adj (back_to d s.path (d ∷ [])) =
                subst (λ l. IsCycle adj (back_to d l (d ∷ []))) (sym on_path)
                  (back_to-IsCycle d a path (d ∷ []) linked on
                    (last_edge a (sub d (member_self d ds)))) in
              closed-ScanOk s d ds (back_to d s.path (d ∷ [])) cs _ (
                scan-ScanOk ds _ (λ y h. sub y (ground arith))
                  (All-snoc (IsCycle adj) cs _ c cycle)))
        ])
      ])
    ]
