-- ===== src/History/Outcome.antt =====
-- src/sot_graph/outcome.py: `label_outcomes` and `commit_verdict`.
-- `verify` is the optional `verify_fixup` callback. The texts of `evidence` and of the reason
-- codes are left out. The code looks the revert targets of a commit up by its sha; two records
-- never share one.
pub mod Links
pub mod Shared
pub mod Decided
pub mod Counted
pub mod Verdicts
pub mod Order
use sotgraph.Prelude.{
  ℕ, zero, suc, ◌+◌, ◌-◌, ◌*◌, Bool, true, false, not, ◌||◌, ◌&&◌, Option, none, some, List, [],
  ◌∷◌, ◌++◌, map, String, str_eq, leb, ltb, ◌==◌, length, nonempty, keep, any, all, if◌then◌else◌,
}
use mathlib.Core.List.{reverse}
use sotgraph.Prelude.Text.{text_before}
use sotgraph.History.Subject.{fix_tag, revert_tag}
use sotgraph.History.Commit.{CommitRecord, shared_files, is_fixup_link, revert_hit}

pub data OutcomeKind : Type 0 where
  clean fixup reverted retouched : OutcomeKind

pub record CommitOutcome : Type 0 where
  pub sha : String
  pub risk_level : String
  pub outcome : OutcomeKind
  pub follow_up_shas : List String
  pub reverted_by : List String
  pub retouch_count : ℕ
  pub window_days : ℕ
  pub window_complete : Bool

-- the sort key `(timestamp, sha)`
abbrev pub before : CommitRecord → CommitRecord → Bool
before a b = ltb a.timestamp b.timestamp || (a.timestamp == b.timestamp && text_before a.sha b.sha)

-- `sorted`, which is stable
unfoldable pub insert : CommitRecord → List CommitRecord → List CommitRecord
insert r [] = r ∷ []
insert r (s ∷ ss) = let rest = insert r ss in if before s r then s ∷ rest else r ∷ s ∷ ss

unfoldable pub sort : List CommitRecord → List CommitRecord
unfolding insert
sort [] = []
sort (r ∷ rs) = insert r (sort rs)

abbrev pub newest : List CommitRecord → ℕ
newest [] = 0
newest (r ∷ []) = r.timestamp
newest (r ∷ s ∷ rs) = newest (s ∷ rs)

abbrev pub shas : List CommitRecord → List String
shas = map (λ r. r.sha)

module _ (verify : Option (CommitRecord → CommitRecord → List String → Bool)) where
  abbrev pub verified : CommitRecord → CommitRecord → Bool
  verified cur d = elim verify [ none ↦ true | some f ↦ f cur d (shared_files cur d) ]

  -- The two conditions of the loop over the window.
  unfoldable pub is_fixup : CommitRecord → CommitRecord → Bool
  is_fixup cur d =
      nonempty (shared_files cur d)
      && not (revert_tag d.subject)
      && fix_tag d.subject
      && is_fixup_link cur d (shared_files cur d)
      && verified cur d

  unfoldable pub is_retouch : CommitRecord → CommitRecord → Bool
  is_retouch cur d =
      nonempty (shared_files cur d) && not (revert_tag d.subject) && not (fix_tag d.subject)

  module _ (window_days retouch_min newest_ts : ℕ) where
    abbrev pub in_window : CommitRecord → CommitRecord → Bool
    in_window cur d =
        leb cur.timestamp d.timestamp && leb (d.timestamp - cur.timestamp) (window_days * 86400)

    -- The labels, first match first.
    abbrev pub classify : List String → List String → ℕ → OutcomeKind
    classify reverted_by fixups retouches =
        if nonempty reverted_by
        then reverted
        else if nonempty fixups
        then fixup
        else if leb retouch_min retouches
        then retouched
        else clean

    unfoldable pub label : CommitRecord → List CommitRecord → CommitOutcome
    label cur later =
        let window = keep (in_window cur) later in
        let reverted_by = shas (keep (revert_hit cur) later) in
        let fixups = shas (keep (is_fixup cur) window) in
        let retouches = length (keep (is_retouch cur) window) in
        record {
          sha = cur.sha;
          risk_level = cur.risk_level;
          outcome = classify reverted_by fixups retouches;
          follow_up_shas = fixups;
          reverted_by = reverted_by;
          retouch_count = retouches;
          window_days = window_days;
          window_complete = leb (window_days * 86400) (newest_ts - cur.timestamp);
        }

    -- The loop over the sorted commits, oldest first.
    unfoldable pub label_each : List CommitRecord → List CommitOutcome
    unfolding label
    label_each [] = []
    label_each (r ∷ rs) = label r rs ∷ label_each rs

  unfoldable pub label_outcomes : ℕ → ℕ → List CommitRecord → List CommitOutcome
  unfolding label_each sort
  label_outcomes window_days retouch_min records =
      reverse (label_each window_days retouch_min (newest (sort records)) (sort records))

pub data CommitVerdict : Type 0 where
  clear_fault still_hot unknown : CommitVerdict

abbrev pub is_clean : OutcomeKind → Bool
is_clean clean = true
is_clean _ = false

unfoldable pub commit_verdict : CommitOutcome → CommitVerdict
commit_verdict o =
    if nonempty o.reverted_by
    then still_hot
    else if nonempty o.follow_up_shas
    then still_hot
    else if not o.window_complete
    then unknown
    else if is_clean o.outcome
    then clear_fault
    else unknown
