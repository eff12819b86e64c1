-- ===== src/Impact/Callers/Expand.antt =====
-- One turn of the loop of `_traverse_reverse_call_graph` (src/sot_graph/diff_impact.py).
use sotgraph.Prelude.{
  ℕ, suc, ◌<◌, ◌≤◌, ◌≡◌, ◌⊎◌, Bool, true, ◌||◌, ◌&&◌, Option, some, Bool-cases, inl, inr, List, [],
  ◌∷◌, ◌++◌, String, str_eq, arith, ltb, leb, any, any-append, All, All-snoc, All-map_to, member,
  str_eq_refl,
}
use sotgraph.Impact.Callers.{
  EdgeRow, CallerImpact, Pending, Walk, visit_row, visit_rows, caller_of, next_of,
}
use sotgraph.Impact.Callers.Loop.{walk_of}

abbrev pub Ordered : List Pending → Type 0
Ordered [] = Unit
Ordered (p ∷ ps) = All (λ q. p.depth ≤ q.depth) ps × Ordered ps

Ordered-snoc :
    (ps : List Pending) (q : Pending)
    → Ordered ps
    → All (λ p. p.depth ≤ q.depth) ps
    → Ordered (ps ++ (q ∷ []))
Ordered-snoc [] q h k = (tt, tt)
Ordered-snoc (p ∷ ps) q (h, i) (k, l) = (All-snoc _ ps q h k, Ordered-snoc ps q i l)

module _ (direct : List String) where
  -- Direct, or reported at this depth or a smaller one.
  abbrev pub known : List CallerImpact → ℕ → String → Bool
  known cs n x = member x direct || any (λ c. str_eq x c.id && leb c.depth n) cs

  known-snoc :
      (cs : List CallerImpact) (c : CallerImpact) (n : ℕ) (x : String)
      → known (cs ++ (c ∷ [])) n x ≡ (known cs n x || (str_eq x c.id && leb c.depth n))
  known-snoc cs c n x =
      let a : any (λ c. str_eq x c.id && leb c.depth n) (cs ++ (c ∷ [])) ≡ (
          any (λ c. str_eq x c.id && leb c.depth n) cs
          || any (λ c. str_eq x c.id && leb c.depth n) (c ∷ [])) =
        any-append _ cs (c ∷ []) in
      ground arith

  abbrev pub waiting : List Pending → ℕ → String → Bool
  waiting q n x = any (λ p. str_eq x p.id && leb p.depth (suc n)) q

  waiting-snoc :
      (q : List Pending) (p : Pending) (n : ℕ) (x : String)
      → waiting (q ++ (p ∷ [])) n x ≡ (waiting q n x || (str_eq x p.id && leb p.depth (suc n)))
  waiting-snoc q p n x =
      let a : any (λ p. str_eq x p.id && leb p.depth (suc n)) (q ++ (p ∷ [])) ≡ (
          any (λ p. str_eq x p.id && leb p.depth (suc n)) q
          || any (λ p. str_eq x p.id && leb p.depth (suc n)) (p ∷ [])) =
        any-append _ q (p ∷ []) in
      ground arith

  pub known_mono :
      (cs : List CallerImpact) (n m : ℕ) (x : String)
      → n ≤ m
      → known cs n x ≡ true
      → known cs m x ≡ true
  known_mono [] n m x h k = k
  known_mono (c ∷ cs) n m x h k = ground (arith, known_mono cs n m x)

module _ (max_depth : ℕ) (rows_into : String → Option (List EdgeRow)) (direct : List String) where
  -- The callers of a node are known at the next depth.
  abbrev pub Closed : List CallerImpact → ℕ → String → Type 0
  Closed cs n x =
      (rows : List EdgeRow)
      → rows_into x ≡ some rows
      → All (λ row. known direct cs (suc n) row.id ≡ true) rows

  Closed-snoc :
      (cs : List CallerImpact) (c : CallerImpact) (n : ℕ) (x : String)
      → Closed cs n x
      → Closed (cs ++ (c ∷ [])) n x
  Closed-snoc cs c n x h rows e =
      All-map_to _ _ (λ row k. let s = known-snoc direct cs c (suc n) row.id in ground arith) rows
        (h rows e)

  -- The queue and the callers while a node of depth `d` is expanded; `Busy` holds of that node.
  abbrev pub Mid : ℕ → (ℕ → String → Type 0) → Walk → Type 0
  Mid d Busy w =
      Ordered w.queue
      × All (λ p. (d ≤ p.depth) × (p.depth ≤ suc d) × (p.depth ≤ max_depth)) w.queue
      × ((y : String) → member y w.visited_nodes ≡ true → known direct w.callers d y ≡ true)
      × ((n : ℕ) (x : String)
          → n < max_depth
          → known direct w.callers n x ≡ true
          → (waiting direct w.queue n x ≡ true) ⊎ (Closed w.callers n x ⊎ Busy n x))

  module _ (curr : Pending) (Busy : ℕ → String → Type 0) (deep : curr.depth ≤ max_depth) where
    Mid-visit_new :
        (row : EdgeRow) (v : List String) (q q' : List Pending) (cs : List CallerImpact)
        → Mid curr.depth Busy (walk_of max_depth rows_into v q cs)
        → Ordered q'
        → All (λ p. (curr.depth ≤ p.depth) × (p.depth ≤ suc curr.depth) × (p.depth ≤ max_depth)) q'
        → ((n : ℕ) (x : String) → waiting direct q n x ≡ true → waiting direct q' n x ≡ true)
        → ((n : ℕ)
            → curr.depth ≤ n
            → n < max_depth
            → (x : String) → str_eq x row.id ≡ true
            → waiting direct q' n x ≡ true)
        → Mid curr.depth Busy
            (walk_of max_depth rows_into (row.id ∷ v) q' (cs ++ (caller_of curr row ∷ [])))
    Mid-visit_new row v q q' cs (o, b, k, c) o' b' old new = (
      o',
      b',
      λ y h.
          (let s = known-snoc direct cs (caller_of curr row) curr.depth y in ground (arith, k y)),
      λ n x lt h.
          let s : known direct (cs ++ (caller_of curr row ∷ [])) n x
              ≡ (known direct cs n x || (str_eq x row.id && leb curr.depth n)) =
            known-snoc direct cs (caller_of curr row) n x in
          elim (Bool-cases (known direct cs n x)) [
            | inl was ↦ elim (c n x lt was) [
              | inl a ↦ inl (old n x a)
              | inr (inl a) ↦ inr (inl (Closed-snoc cs (caller_of curr row) n x a))
              | inr (inr a) ↦ inr (inr a)
            ]
            | inr fresh ↦ inl (new n (ground arith) lt x (ground arith))
          ],
    )

    Mid-visit_row :
        (row : EdgeRow) (w : Walk)
        → Mid curr.depth Busy w
        → Mid curr.depth Busy (visit_row max_depth curr row w)
    unfolding visit_row
    Mid-visit_row row w (o, b, k, c) = elim (Bool-cases (member row.id w.visited_nodes)) [
      | inl e ↦ rw e (o, b, k, c)
      | inr e ↦ rw e (elim (Bool-cases (ltb curr.depth max_depth)) [
        | inl d ↦ rw d (
            Mid-visit_new row w.visited_nodes w.queue _ w.callers (o, b, k, c)
              (Ordered-snoc w.queue (next_of curr row) o (All-map_to _ _ (λ p h. h.1) w.queue b))
              (All-snoc _ w.queue (next_of curr row) b (omega arith, omega arith, ground arith))
              (λ n x h. let s = waiting-snoc direct w.queue (next_of curr row) n x in ground arith)
              (λ n l lt x h.
                let s = waiting-snoc direct w.queue (next_of curr row) n x in ground arith))
        | inr d ↦ rw d (
            Mid-visit_new row w.visited_nodes w.queue w.queue w.callers (o, b, k, c) o b
              (λ n x h. h) (λ n l lt x h. ground arith))
      ])
    ]

    known-visit_row :
        (row : EdgeRow) (w : Walk) (n : ℕ) (x : String)
        → known direct w.callers n x ≡ true
        → known direct (visit_row max_depth curr row w).callers n x ≡ true
    unfolding visit_row
    known-visit_row row w n x h =
        let s : known direct (w.callers ++ (caller_of curr row ∷ [])) n x
            ≡ (known direct w.callers n x || (str_eq x row.id && leb curr.depth n)) =
          known-snoc direct w.callers (caller_of curr row) n x in
        ground arith

    known_here :
        (row : EdgeRow) (w : Walk)
        → Mid curr.depth Busy w
        → known direct (visit_row max_depth curr row w).callers curr.depth row.id ≡ true
    unfolding visit_row
    known_here row w (o, b, k, c) =
        let s : known direct (w.callers ++ (caller_of curr row ∷ [])) curr.depth row.id ≡ (
            known direct w.callers curr.depth row.id
            || (str_eq row.id row.id && leb curr.depth curr.depth)) =
          known-snoc direct w.callers (caller_of curr row) curr.depth row.id in
        let r : str_eq row.id row.id ≡ true = str_eq_refl row.id in ground (arith, k row.id)

    known-visit_rows :
        (rows : List EdgeRow) (w : Walk) (n : ℕ) (x : String)
        → known direct w.callers n x ≡ true
        → known direct (visit_rows max_depth curr rows w).callers n x ≡ true
    unfolding visit_rows
    known-visit_rows [] w n x h = h
    known-visit_rows (row ∷ rows) w n x h =
        known-visit_rows rows _ n x (known-visit_row row w n x h)

    pub Mid-visit_rows :
        (rows : List EdgeRow) (w : Walk)
        → Mid curr.depth Busy w
        → Mid curr.depth Busy (visit_rows max_depth curr rows w)
          × All
              (λ row.
                known direct (visit_rows max_depth curr rows w).callers curr.depth row.id ≡ true)
              rows
    unfolding visit_rows
    Mid-visit_rows [] w h = (h, tt)
    Mid-visit_rows (row ∷ rows) w h =
        let (m, ks) =
          Mid-visit_rows rows (visit_row max_depth curr row w) (Mid-visit_row row w h) in
        (m, (known-visit_rows rows _ curr.depth row.id (known_here row w h), ks))
