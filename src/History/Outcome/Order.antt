-- ===== src/History/Outcome/Order.antt =====
-- The order of the labelled commits (src/sot_graph/outcome.py).
use sotgraph.Prelude.{
  ℕ, ◌≤◌, ◌≡◌, ◌≢◌, refl, ap, Bool, Option, List, [], ◌∷◌, map, String, arith, All, Bool-cases, inl,
  inr, subst, sym,
}
use mathlib.Core.List.{reverse, Perm, reverse_perm}
use mathlib.Core.List.Perm
use sotgraph.History.Commit.{CommitRecord}
use sotgraph.History.Outcome.{
  CommitOutcome, before, insert, sort, newest, shas, label_each, label, label_outcomes,
}

-- Time stamps do not decrease along the list.
abbrev pub Ascending : List CommitRecord → Type 0
Ascending [] = Unit
Ascending (r ∷ rs) = All (λ s. r.timestamp ≤ s.timestamp) rs × Ascending rs

All-le_trans :
    (a b : ℕ) (rs : List CommitRecord)
    → a ≤ b
    → All (λ s. b ≤ s.timestamp) rs
    → All (λ s. a ≤ s.timestamp) rs
All-le_trans a b [] h k = tt
All-le_trans a b (r ∷ rs) h k = (omega arith, All-le_trans a b rs h k.1)

All-insert :
    (a : ℕ) (r : CommitRecord) (rs : List CommitRecord)
    → a ≤ r.timestamp
    → All (λ s. a ≤ s.timestamp) rs
    → All (λ s. a ≤ s.timestamp) (insert r rs)
unfolding insert
All-insert a r [] h k = (h, tt)
All-insert a r (s ∷ ss) h k = ground (arith, All-insert a r ss)

insert-Ascending :
    (r : CommitRecord) (rs : List CommitRecord) → Ascending rs → Ascending (insert r rs)
unfolding insert
insert-Ascending r [] h = (tt, tt)
insert-Ascending r (s ∷ ss) (h, k) = elim (Bool-cases (before s r)) [
  | inl e ↦ rw e (All-insert s.timestamp r ss (ground arith) h, insert-Ascending r ss k)
  | inr e ↦
      let le : r.timestamp ≤ s.timestamp = ground arith in
      rw e ((le, All-le_trans r.timestamp s.timestamp ss le h), (h, k))
]

-- The commits are labelled in the order of their time stamps.
pub sort-Ascending : (rs : List CommitRecord) → Ascending (sort rs)
unfolding sort
sort-Ascending [] = tt
sort-Ascending (r ∷ rs) = insert-Ascending r (sort rs) (sort-Ascending rs)

insert-perm : (r : CommitRecord) (rs : List CommitRecord) → Perm (insert r rs) (r ∷ rs)
unfolding insert
insert-perm r [] = Perm.refl (r ∷ [])
insert-perm r (s ∷ ss) = elim (Bool-cases (before s r)) [
  | inl e ↦ rw e (Perm.trans (Perm.cons s (insert-perm r ss)) (Perm.swap r s ss))
  | inr e ↦ rw e (Perm.refl (r ∷ s ∷ ss))
]

-- Sorting keeps every commit, as often as it came.
pub sort-perm : (rs : List CommitRecord) → Perm (sort rs) rs
unfolding sort
sort-perm [] = Perm.refl []
sort-perm (r ∷ rs) = Perm.trans (insert-perm r (sort rs)) (Perm.cons r (sort-perm rs))

newest_bound :
    (a : ℕ) (rs : List CommitRecord) → All (λ s. a ≤ s.timestamp) rs → rs ≢ [] → a ≤ newest rs
newest_bound a [] h e = absurd (e refl)
newest_bound a (r ∷ []) h e = h.0
newest_bound a (r ∷ s ∷ rs) h e = newest_bound a (s ∷ rs) h.1 (λ p. cc)

-- No commit is younger than the one that ends the observation.
pub Ascending-newest :
    (rs : List CommitRecord) → Ascending rs → All (λ s. s.timestamp ≤ newest rs) rs
Ascending-newest [] h = tt
Ascending-newest (r ∷ []) h = (omega arith, tt)
Ascending-newest (r ∷ s ∷ rs) (h, k) =
    (newest_bound r.timestamp (s ∷ rs) h (λ p. cc), Ascending-newest (s ∷ rs) k)

module _ (verify : Option (CommitRecord → CommitRecord → List String → Bool))
    (window_days retouch_min : ℕ) where
  abbrev pub outcome_shas : List CommitOutcome → List String
  outcome_shas = map (λ o. o.sha)

  shas-label_each :
      (n : ℕ) (rs : List CommitRecord)
      → outcome_shas (label_each verify window_days retouch_min n rs) ≡ shas rs
  unfolding label_each label
  shas-label_each n [] = refl
  shas-label_each n (r ∷ rs) = ap (◌∷◌ r.sha) (shas-label_each n rs)

  -- Every commit gets exactly one outcome.
  pub label_outcomes-perm :
      (rs : List CommitRecord)
      → Perm (outcome_shas (label_outcomes verify window_days retouch_min rs)) (shas rs)
  unfolding label_outcomes
  label_outcomes-perm rs =
      let labelled : List CommitOutcome =
        label_each verify window_days retouch_min (newest (sort rs)) (sort rs) in
      let turned : Perm (reverse labelled) labelled = reverse_perm labelled in
      let same : outcome_shas labelled ≡ shas (sort rs) =
        shas-label_each (newest (sort rs)) (sort rs) in
      let sorted_shas : Perm (shas (sort rs)) (shas rs) =
        Perm.map (λ (r : CommitRecord). r.sha) (sort-perm rs) in
      Perm.trans (Perm.map (λ (o : CommitOutcome). o.sha) turned)
        (subst (λ (xs : List String). Perm xs (shas rs)) (sym same) sorted_shas)
