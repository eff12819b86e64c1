-- ===== src/Impact/Callers/Loop.antt =====
-- Invariants of the loop of `_traverse_reverse_call_graph` (src/sot_graph/diff_impact.py).
use sotgraph.Prelude.{
  ℕ, zero, suc, ◌<◌, ◌≤◌, ◌≡◌, ◌⊎◌, refl, true, Option, none, some, Option-cases, Bool-cases, inl,
  inr, List, [], ◌∷◌, String, str_eq, arith, ltb, any, All, member, str_eq_refl,
}
use sotgraph.Impact.Callers.{EdgeRow, CallerImpact, Pending, Walk, visit_rows, walk}

-- Nodes from which a direct node is reached by so many edges.
pub data Reach (rows_into : String → Option (List EdgeRow)) (direct : List String)
    : ℕ → String → Type 0 where
  here : (x : String) → member x direct ≡ true → Reach rows_into direct 0 x
  edge :
      (n : ℕ) (x y : String) (rows : List EdgeRow)
      → Reach rows_into direct n x
      → rows_into x ≡ some rows
      → any (λ row. str_eq y row.id) rows ≡ true
      → Reach rows_into direct (suc n) y

pub All-self :
    (rows all_rows : List EdgeRow)
    (f : (y : String)
      → any (λ r. str_eq y r.id) rows ≡ true
      → any (λ r. str_eq y r.id) all_rows ≡ true)
    → All (λ row. any (λ r. str_eq row.id r.id) all_rows ≡ true) rows
All-self [] all_rows f = tt
All-self (row ∷ rows) all_rows f = (
  f row.id (let e : str_eq row.id row.id ≡ true = str_eq_refl row.id in ground arith),
  All-self rows all_rows (λ y h. f y (ground arith)),
)

module _ (max_depth : ℕ) (rows_into : String → Option (List EdgeRow)) where
  abbrev pub walk_of : List String → List Pending → List CallerImpact → Walk
  walk_of visited queue callers = record {
    visited_nodes = visited;
    queue = queue;
    callers = callers;
  }

  -- The queue is empty, or the query for its first entry raised.
  abbrev pub Ended : Walk → Type 0
  Ended w =
      (w.queue ≡ [])
      ⊎ ((curr : Pending) × (rest : List Pending) × (w.queue ≡ curr ∷ rest)
          × (rows_into curr.id ≡ none))

  -- A property that every turn keeps holds when the loop ends.
  pub walk-keeps :
      (R : Walk → Type 0)
      (skip : (curr : Pending) (v : List String) (q : List Pending) (cs : List CallerImpact)
        → max_depth < curr.depth
        → R (walk_of v (curr ∷ q) cs)
        → R (walk_of v q cs))
      (visit : (curr : Pending) (v : List String) (q : List Pending) (cs : List CallerImpact)
          (rows : List EdgeRow)
        → curr.depth ≤ max_depth
        → rows_into curr.id ≡ some rows
        → R (walk_of v (curr ∷ q) cs)
        → R (visit_rows max_depth curr rows (walk_of v q cs)))
      (n : ℕ) (v : List String) (q : List Pending) (cs found : List CallerImpact)
      → R (walk_of v q cs)
      → walk max_depth rows_into n v q cs ≡ some found
      → (w : Walk) × R w × Ended w × (w.callers ≡ found)
  unfolding walk
  walk-keeps R skip visit zero v q cs found h e = cc
  walk-keeps R skip visit (suc n) v [] cs found h e = (walk_of v [] cs, h, inl refl, ground arith)
  walk-keeps R skip visit (suc n) v (curr ∷ q) cs found h e =
      elim (Bool-cases (ltb max_depth curr.depth)) [
        | inl deep ↦
            walk-keeps R skip visit n v q cs found (skip curr v q cs (ground arith) h)
              (rw deep at e)
        | inr near ↦ elim (Option-cases (rows_into curr.id)) [
          | inl none_eq ↦ (walk_of v (curr ∷ q) cs, h, inr (curr, q, refl, none_eq), (ground arith))
          | inr (rows, some_eq) ↦
              walk-keeps R skip visit n _ _ _ found
                (visit curr v q cs rows (ground arith) some_eq h) (rw (near, some_eq) at e)
        ]
      ]
