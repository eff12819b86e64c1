-- ===== src/History/Tests.antt =====
-- A short history: a change, a repair of it, and a later change elsewhere.
use sotgraph.Prelude.{
  arith, ℕ, ◌≡◌, ◌↔◌, refl, true, false, none, List, [], ◌∷◌, String, map, str_eq, if◌then◌else◌,
}
use sotgraph.Prelude.Text.{codes}
use sotgraph.History.Commit.{CommitRecord, revert_hit, shared_files, is_fixup_link}
use sotgraph.History.Subject.{fix_tag, revert_tag}
use sotgraph.History.Hunks.{verify}
use sotgraph.History.Outcome.{
  label, label_outcomes, is_fixup, is_retouch, commit_verdict, CommitVerdict, clear_fault,
  still_hot, unknown,
}
use sotgraph.History.Outcome.Verdicts.{IsCleared, label-clear_fault_iff}

abbrev commit : String → ℕ → String → List String → CommitRecord
commit sha time subject files = record {
  sha = sha;
  timestamp = time;
  subject = codes subject;
  body = [];
  files = files;
  risk_level = "LOW";
}

abbrev change : CommitRecord
change = commit "a1b2c3d4" 1000 "feat: add store" ("store.py" ∷ "cache.py" ∷ "README.md" ∷ [])

abbrev repair : CommitRecord
repair = commit "b1b2c3d4" 90000 "fix: store drops keys" ("store.py" ∷ "cache.py" ∷ [])

abbrev other : CommitRecord
other = commit "c1b2c3d4" 2000000 "feat: view" ("view.py" ∷ [])

abbrev history : List CommitRecord
history = other ∷ change ∷ repair ∷ []

abbrev verdicts : List CommitRecord → List CommitVerdict
verdicts rs = map commit_verdict (label_outcomes none 14 2 rs)

history-shared : shared_files change repair ≡ "cache.py" ∷ "store.py" ∷ []
unfolding shared_files
history-shared = refl

history-verdicts : verdicts history ≡ unknown ∷ clear_fault ∷ still_hot ∷ []
unfolding label_outcomes commit_verdict revert_hit is_fixup is_retouch shared_files fix_tag
    revert_tag is_fixup_link
history-verdicts = refl

abbrev hunks : String → String → List (ℕ × ℕ)
hunks sha path = if str_eq sha "a1b2c3d4" then (10, 20) ∷ [] else (22, 30) ∷ []

hunks-near : verify hunks 3 "a1b2c3d4" "b1b2c3d4" ("store.py" ∷ []) ≡ true
unfolding verify
hunks-near = refl

hunks-far : verify hunks 1 "a1b2c3d4" "b1b2c3d4" ("store.py" ∷ []) ≡ false
unfolding verify
hunks-far = refl

label-clear_fault_iff_example :
    (commit_verdict (label none 14 2 2000000 change (repair ∷ other ∷ [])) ≡ clear_fault)
    ↔ IsCleared none 14 2 2000000 change (repair ∷ other ∷ [])
label-clear_fault_iff_example =
    label-clear_fault_iff none 14 2 2000000 change (repair ∷ other ∷ []) (omega arith)
