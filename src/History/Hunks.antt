-- ===== src/History/Hunks.antt =====
-- src/sot_graph/outcome.py: the callback of `make_hunk_verifier`. The intervals of a commit on a
-- path come from git and are the parameter `intervals`.
use sotgraph.Prelude.{
  ℕ, ◌+◌, ◌≡◌, refl, Bool, true, false, not, ◌||◌, ◌&&◌, List, [], ◌∷◌, String, arith, leb,
  nonempty, any, if◌then◌else◌,
}

-- `s2 <= e1 + gap_lines and s1 <= e2 + gap_lines`
abbrev pub near : ℕ → ℕ × ℕ → ℕ × ℕ → Bool
near gap (s1, e1) (s2, e2) = leb s2 (e1 + gap) && leb s1 (e2 + gap)

-- The two inner loops, which return at the first pair that is near.
unfoldable pub meets : ℕ → List (ℕ × ℕ) → List (ℕ × ℕ) → Bool
meets gap [] bs = false
meets gap (a ∷ as') bs = let rest = meets gap as' bs in if any (near gap a) bs then true else rest

module _ (intervals : String → String → List (ℕ × ℕ)) (gap : ℕ) (cur later : String) where
  abbrev pub comparable : String → Bool
  comparable f = nonempty (intervals cur f) && nonempty (intervals later f)

  -- The loop over the shared files, with the flag `saw_hunks`.
  unfoldable pub verify_from : Bool → List String → Bool
  unfolding meets
  verify_from saw_hunks [] = not saw_hunks
  verify_from saw_hunks (f ∷ fs) =
      let skipped = verify_from saw_hunks fs in
      let seen = verify_from true fs in
      if not (comparable f)
      then skipped
      else if meets gap (intervals cur f) (intervals later f)
      then true
      else seen

  unfoldable pub verify : List String → Bool
  unfolding verify_from
  verify shared = verify_from false shared

  abbrev pub overlaps : String → Bool
  overlaps f = comparable f && any (λ a. any (near gap a) (intervals later f)) (intervals cur f)

  meets-any : (as' bs : List (ℕ × ℕ)) → meets gap as' bs ≡ any (λ a. any (near gap a) bs) as'
  unfolding meets
  meets-any [] bs = refl
  meets-any (a ∷ as') bs = ground (arith, meets-any as' bs)

  verify_from-any :
      (saw : Bool) (fs : List String)
      → verify_from saw fs ≡ (any overlaps fs || not (saw || any comparable fs))
  unfolding verify_from
  verify_from-any saw [] = ground arith
  verify_from-any saw (f ∷ fs) = ground (
    arith,
    meets-any (intervals cur f) (intervals later f),
    verify_from-any saw fs,
    verify_from-any true fs,
  )

  -- A pair of commits is linked exactly when hunks come near on a shared file, or when no shared
  -- file has hunks of both to compare.
  pub verify-eq :
      (shared : List String) → verify shared ≡ (any overlaps shared || not (any comparable shared))
  unfolding verify
  verify-eq shared = verify_from-any false shared
