-- ===== src/Analytics/Graph/Components/Push.antt =====
-- What a turn over the neighbors of a node adds (src/sot_graph/analytics/graph.py).
use sotgraph.Prelude.{
  ℕ, ◌+◌, ◌≤◌, ◌≡◌, sym, subst, Bool, true, false, not, ◌&&◌, ◌||◌, List, [], ◌∷◌, ◌++◌, String,
  str_eq, eq_iff, any-append, length, length-append, member, member_self, unseen, unseen-visit,
  Bool-cases, inl, inr, arith,
}
use sotgraph.Analytics.Graph.Components.{Frontier, push}

-- An id that equals a member is a member.
pub member-same :
    (x y : String) (b : Bool) (xs : List String)
    → str_eq x y ≡ true
    → member y xs ≡ b
    → member x xs ≡ b
member-same x y b xs e h =
    let same : x ≡ y = (eq_iff x y).0 e in subst (λ z. member z xs ≡ b) (sym same) h

pub member-snoc :
    (x y : String) (xs : List String) → member x (xs ++ (y ∷ [])) ≡ (member x xs || str_eq x y)
member-snoc x y xs = ground (arith, any-append (str_eq x) xs (y ∷ []))

pub push-visited :
    (x : String) (ys : List String) (f : Frontier)
    → member x (push ys f).visited ≡ (member x f.visited || member x ys)
unfolding push
push-visited x [] f = ground arith
push-visited x (y ∷ ys) f = elim (Bool-cases (member y f.visited)) [
  | inl e ↦ rw e (elim (Bool-cases (str_eq x y)) [
    | inl s ↦ (let m = member-same x y true f.visited s e in ground (arith, push-visited x ys f))
    | inr s ↦ ground (arith, push-visited x ys f)
  ])
  | inr e ↦ rw e (
      let next : Frontier = record { visited = y ∷ f.visited; queue = f.queue ++ (y ∷ []) } in
      ground (arith, push-visited x ys next))
]

pub push-queue :
    (x : String) (ys : List String) (f : Frontier)
    → member x (push ys f).queue ≡ (member x f.queue || (member x ys && not (member x f.visited)))
unfolding push
push-queue x [] f = ground arith
push-queue x (y ∷ ys) f = elim (Bool-cases (member y f.visited)) [
  | inl e ↦ rw e (elim (Bool-cases (str_eq x y)) [
    | inl s ↦ (let m = member-same x y true f.visited s e in ground (arith, push-queue x ys f))
    | inr s ↦ ground (arith, push-queue x ys f)
  ])
  | inr e ↦ rw e (
      let next : Frontier = record { visited = y ∷ f.visited; queue = f.queue ++ (y ∷ []) } in
      elim (Bool-cases (str_eq x y)) [
        | inl s ↦
            (let m = member-same x y false f.visited s e in
              ground (arith, push-queue x ys next, member-snoc x y f.queue))
        | inr s ↦ ground (arith, push-queue x ys next, member-snoc x y f.queue)
      ])
]

abbrev pub measure : List String → Frontier → ℕ
measure nodes f = length f.queue + unseen f.visited nodes

pub measure-push :
    (nodes ys : List String) (f : Frontier)
    → ((y : String) → member y ys ≡ true → member y nodes ≡ true)
    → measure nodes (push ys f) ≤ measure nodes f
unfolding push
measure-push nodes [] f h = omega arith
measure-push nodes (y ∷ ys) f h =
    let rest : (z : String) → member z ys ≡ true → member z nodes ≡ true =
      λ z k. h z (ground arith) in
    elim (Bool-cases (member y f.visited)) [
      | inl e ↦ rw e (measure-push nodes ys f rest)
      | inr e ↦ rw e (
          let next : Frontier = record { visited = y ∷ f.visited; queue = f.queue ++ (y ∷ []) } in
          let fewer = unseen-visit y f.visited nodes (h y (member_self y ys)) e in
          let longer = length-append f.queue (y ∷ []) in
          let k = measure-push nodes ys next rest in omega arith)
    ]
