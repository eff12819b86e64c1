-- ===== src/Analytics/Graph/Components/Growing.antt =====
-- What one component of src/sot_graph/analytics/graph.py holds once its inner loop has ended.
use sotgraph.Prelude.{
  ℕ, zero, suc, ◌≡◌, sym, ◌∙◌, subst, Bool, true, false, ◌||◌, some, List, [], ◌∷◌, String, str_eq,
  eq_iff, member, member_self, Bool-cases, inl, inr, arith,
}
use sotgraph.Analytics.Graph.{set_add}
use sotgraph.Analytics.Graph.Ends.{member-set_add}
use sotgraph.Analytics.Graph.Components.{Frontier, push, grow, seed}
use sotgraph.Analytics.Graph.Components.Push.{member-same, push-visited, push-queue}

-- Two nodes that a chain of neighbors joins.
pub data Connected (adj : String → List String) (x : String) : String → Type 0 where
  itself : Connected adj x x
  onward : (y z : String) → Connected adj x y → member z (adj y) ≡ true → Connected adj x z

module _ (adj : String → List String) where
  pub Connected-trans : (x y z : String) → Connected adj x y → Connected adj y z → Connected adj x z
  Connected-trans x y _ h itself = h
  Connected-trans x y _ h (onward v w k e) = onward v w (Connected-trans x y v h k) e

module _ (adj : String → List String)
    (symmetric : (x y : String) → member y (adj x) ≡ member x (adj y)) where
  pub Connected-sym : (x y : String) → Connected adj x y → Connected adj y x
  Connected-sym x _ itself = itself
  Connected-sym x _ (onward y z h e) =
      Connected-trans adj z y x (onward z y itself (symmetric z y ∙ e)) (Connected-sym x y h)

  -- The visited nodes before a component is grown.
  module _ (root : String) (before : List String)
      (closed : (x y : String)
        → member x before ≡ true
        → member y (adj x) ≡ true
        → member y before ≡ true)
      (new : member root before ≡ false) where
    -- What holds at each turn of the inner loop.
    abbrev pub Growing : Frontier → List String → Type 0
    Growing f c =
        ((x : String) → member x f.visited ≡ (member x before || (member x c || member x f.queue)))
        × ((x : String) → (member x c || member x f.queue) ≡ true → Connected adj root x)
        × ((x y : String) → member x c ≡ true → member y (adj x) ≡ true → member y f.visited ≡ true)
        × ((x : String) → (member x c || member x f.queue) ≡ true → member x before ≡ false)
        × ((member root c || member root f.queue) ≡ true)

    pub seed-Growing : Growing (seed root before) []
    seed-Growing = (
      (λ x. ground arith),
      (λ x h.
          let same : root ≡ x = sym ((eq_iff x root).0 (ground arith)) in
          subst (Connected adj root) same itself),
      (λ x y h k. absurd (ground arith)),
      (λ x h. member-same x root false before (ground arith) new),
      member_self root [],
    )

    turn-Growing :
        (v : List String) (current : String) (q c : List String)
        → Growing (record { visited = v; queue = current ∷ q }) c
        → Growing (push (adj current) (record { visited = v; queue = q })) (set_add current c)
    turn-Growing v current q c (vis, conn, nbr, fresh, here) =
        let f : Frontier = record { visited = v; queue = q } in
        let cur : Connected adj root current =
          conn current (let m = member_self current q in ground arith) in
        let old : String → Bool = λ x. member x c || member x (current ∷ q) in
        (
          (λ x.
              let p = vis x in
              ground (
                arith,
                push-visited x (adj current) f,
                push-queue x (adj current) f,
                member-set_add x current c,
              )),
          (λ x h. elim (Bool-cases (old x)) [
            | inl k ↦ conn x k
            | inr k ↦
                (let pq = push-queue x (adj current) f in
                  let sa = member-set_add x current c in onward current x cur (ground arith))
          ]),
          (λ x y h k. elim (Bool-cases (str_eq x current)) [
            | inl s ↦
                (let same : x ≡ current = (eq_iff x current).0 s in
                  let m : member y (adj current) ≡ true =
                    subst (λ z. member y (adj z) ≡ true) same k in
                  let pv = push-visited y (adj current) f in ground arith)
            | inr s ↦
                (let sa = member-set_add x current c in
                  let m = nbr x y (ground arith) k in
                  let pv = push-visited y (adj current) f in ground arith)
          ]),
          (λ x h. elim (Bool-cases (old x)) [
            | inl k ↦ fresh x k
            | inr k ↦
                (let pq = push-queue x (adj current) f in
                  let sa = member-set_add x current c in let p = vis x in ground arith)
          ]),
          (let pq = push-queue root (adj current) f in
              let sa = member-set_add root current c in ground arith),
        )

    abbrev pub Grown : List String → List String → Type 0
    Grown v c =
        ((x : String) → member x v ≡ (member x before || member x c))
        × ((x : String) → member x c ≡ true → Connected adj root x)
        × ((x y : String) → member x c ≡ true → member y (adj x) ≡ true → member y v ≡ true)
        × ((x : String) → member x c ≡ true → member x before ≡ false)
        × (member root c ≡ true)

    pub grow-Grown :
        (n : ℕ) (seen q c v d : List String)
        → Growing (record { visited = seen; queue = q }) c
        → grow adj n (record { visited = seen; queue = q }) c ≡ some (v, d)
        → Grown v d
    unfolding grow
    grow-Grown zero seen q c v d h e = cc
    grow-Grown (suc n) seen [] c v d (vis, conn, nbr, fresh, here) e =
        let same_v : seen ≡ v = ground arith in
        let same_d : c ≡ d = ground arith in
        subst (λ w. Grown w d) same_v
          (subst (Grown seen) same_d (
            (λ x. let p = vis x in ground arith),
            (λ x h. conn x (ground arith)),
            nbr,
            (λ x h. fresh x (ground arith)),
            ground arith,
          ))
    grow-Grown (suc n) seen (current ∷ q) c v d h e =
        grow-Grown n _ _ (set_add current c) v d (turn-Growing seen current q c h) e

    -- All that is connected to the root is in the component.
    pub Grown-all :
        (v c : List String) → Grown v c → (x : String) → Connected adj root x → member x c ≡ true
    Grown-all v c (vis, conn, nbr, fresh, here) _ itself = here
    Grown-all v c (vis, conn, nbr, fresh, here) _ (onward y z h e) =
        let inside : member y c ≡ true = Grown-all v c (vis, conn, nbr, fresh, here) y h in
        elim (Bool-cases (member z c)) [
          | inl k ↦ k
          | inr k ↦
              (let z_seen = nbr y z inside e in
                let z_before : member z before ≡ true = let s = vis z in ground arith in
                let y_before = closed z y z_before (symmetric z y ∙ e) in
                let y_fresh = fresh y inside in absurd (ground arith))
        ]
