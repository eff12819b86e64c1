-- ===== src/History/Outcome/Verdicts.antt =====
-- Verdicts of labelled commits (src/sot_graph/outcome.py).
use sotgraph.Prelude.{
  ◌+◌, ◌≤◌, ◌<◌, ◌∙◌, sym, ap, subst, All, any-keep, leb→le, le→leb, ◌&&◌, ℕ, ◌-◌, ◌*◌, ◌≡◌, ◌↔◌,
  refl, Bool, true, false, ◌||◌, Option, List, [], ◌∷◌, String, arith, leb, nonempty, length, keep,
  any, if◌then◌else◌,
}
use sotgraph.Prelude.Strip.{both}
use sotgraph.History.Outcome.Counted.{Counted, keep-keep, any-none_iff, keep-Counted, Counted-keep}
use sotgraph.History.Outcome.Links.{IsRevert, IsWithin, IsRepair, IsTouch}
use sotgraph.History.Outcome.Decided.{
  hit-IsRevert, window-IsWithin, fixup-IsRepair, retouch-IsTouch,
}
use sotgraph.History.Commit.{CommitRecord, revert_hit}
use sotgraph.History.Outcome.{
  CommitOutcome, clean, fixup, reverted, retouched, shas, is_fixup, is_retouch, in_window, label,
  clear_fault, still_hot, commit_verdict,
}

nonempty-shas :
    (p : CommitRecord → Bool) (rs : List CommitRecord) → nonempty (shas (keep p rs)) ≡ any p rs
nonempty-shas p [] = refl
nonempty-shas p (r ∷ rs) = ground (arith, nonempty-shas p rs)

verdict-clear_iff :
    (o : CommitOutcome) (b f r : Bool)
    → nonempty o.reverted_by ≡ b
    → nonempty o.follow_up_shas ≡ f
    → o.outcome ≡ (if b then reverted else if f then fixup else if r then retouched else clean)
    → (commit_verdict o ≡ clear_fault)
      ↔ ((b ≡ false) × (f ≡ false) × (r ≡ false) × (o.window_complete ≡ true))
unfolding commit_verdict
verdict-clear_iff o b f r hb hf ho = (λ k. ground arith, λ k. ground arith)

verdict-hot_iff :
    (o : CommitOutcome) (b f : Bool)
    → nonempty o.reverted_by ≡ b
    → nonempty o.follow_up_shas ≡ f
    → (commit_verdict o ≡ still_hot) ↔ ((b || f) ≡ true)
unfolding commit_verdict
verdict-hot_iff o b f hb hf = (λ k. ground arith, λ k. ground arith)

leb-none : (a b : ℕ) → leb a b ≡ false → b < a
leb-none a b e = ground arith

short-leb : (a b : ℕ) → b < a → leb a b ≡ false
short-leb a b h = ground arith

both_decide :
    {P Q : Type 0} (a b : Bool) → ((a ≡ true) ↔ P) → ((b ≡ true) ↔ Q) → ((a && b) ≡ true) ↔ (P × Q)
both_decide a b p q =
    (λ h. let (x, y) = both a b h in (p.0 x, q.0 y), λ (x, y). rw (p.1 x, q.1 y) refl)

module _ (verify : Option (CommitRecord → CommitRecord → List String → Bool))
    (window_days retouch_min newest_ts : ℕ) (cur : CommitRecord) (later : List CommitRecord) where
  abbrev pub window : List CommitRecord
  window = keep (in_window verify window_days retouch_min newest_ts cur) later

  clear-tests_iff :
      (commit_verdict (label verify window_days retouch_min newest_ts cur later) ≡ clear_fault) ↔ (
        (any (revert_hit cur) later ≡ false)
        × (any (is_fixup verify cur) window ≡ false)
        × (leb retouch_min (length (keep (is_retouch verify cur) window)) ≡ false)
        × (leb (window_days * 86400) (newest_ts - cur.timestamp) ≡ true))
  unfolding label
  clear-tests_iff =
      verdict-clear_iff _ _ _ _ (nonempty-shas (revert_hit cur) later)
        (nonempty-shas (is_fixup verify cur) window)
        (rw (nonempty-shas (revert_hit cur) later, nonempty-shas (is_fixup verify cur) window))

  -- What clears a commit: among the later commits none undoes it, none in the window repairs it, and
  -- fewer than `retouch_min` in the window touch the same code; and the window has passed.
  pub record IsCleared : Type 0 where
    pub no_revert : All (λ d. ¬ IsRevert cur d) later
    pub no_repair : All (λ d. ¬ (IsWithin window_days cur d × IsRepair verify cur d)) later
    pub few_touches :
        (n : ℕ) × Counted (λ d. IsWithin window_days cur d × IsTouch cur d) later n
        × (n < retouch_min)
    pub elapsed : cur.timestamp + window_days * 86400 ≤ newest_ts

  decide-IsRepair :
      (d : CommitRecord)
      → ((in_window verify window_days retouch_min newest_ts cur d && is_fixup verify cur d) ≡ true)
        ↔ (IsWithin window_days cur d × IsRepair verify cur d)
  decide-IsRepair d =
      both_decide _ _ (window-IsWithin verify window_days retouch_min newest_ts cur d)
        (fixup-IsRepair verify cur d)

  abbrev touches : CommitRecord → Bool
  touches d = in_window verify window_days retouch_min newest_ts cur d && is_retouch verify cur d

  same_count : length (keep (is_retouch verify cur) window) ≡ length (keep touches later)
  same_count = ap length (keep-keep (is_retouch verify cur) _ later)

  decide-IsTouch :
      (d : CommitRecord)
      → ((in_window verify window_days retouch_min newest_ts cur d && is_retouch verify cur d)
          ≡ true)
        ↔ (IsWithin window_days cur d × IsTouch cur d)
  decide-IsTouch d =
      both_decide _ _ (window-IsWithin verify window_days retouch_min newest_ts cur d)
        (retouch-IsTouch verify cur d)

  -- A labelled commit, which is no later than the newest one, is cleared exactly when no later commit
  -- names it as undone, none within the window repairs it, fewer than `retouch_min` within the window
  -- touch its code again, and the window has elapsed. A repair is a fix and no revert, shares a code
  -- file, shares two or 34 of 100 of the code files, and is confirmed by the verifier, if there is
  -- one; a touch shares a code file and is neither a fix nor a revert.
  pub label-clear_fault_iff :
      cur.timestamp ≤ newest_ts
      → (commit_verdict (label verify window_days retouch_min newest_ts cur later) ≡ clear_fault)
        ↔ IsCleared
  label-clear_fault_iff t = (
    λ h.
        let (r, f, m, w) = clear-tests_iff.0 h in
        record {
          no_revert = (any-none_iff (revert_hit cur) (IsRevert cur) (hit-IsRevert cur) later).0 r;
          no_repair = (any-none_iff _ _ decide-IsRepair later).0 (sym (any-keep _ _ later) ∙ f);
          few_touches = (
            length (keep touches later),
            keep-Counted touches _ decide-IsTouch later,
            subst (λ k. k < retouch_min) same_count (leb-none _ _ m),
          );
          elapsed =
              (let gap = leb→le (window_days * 86400) (newest_ts - cur.timestamp) w in
                omega (arith, t));
        },
    λ g.
        let (n, c, few) = g.few_touches in
        clear-tests_iff.1 (
          (any-none_iff (revert_hit cur) (IsRevert cur) (hit-IsRevert cur) later).1 g.no_revert,
          any-keep _ _ later ∙ (any-none_iff _ _ decide-IsRepair later).1 g.no_repair,
          short-leb _ _ (
              subst (λ k. k < retouch_min)
                (sym (same_count ∙ Counted-keep touches _ decide-IsTouch later n c)) few),
          le→leb (window_days * 86400) (newest_ts - cur.timestamp) (omega (arith, g.elapsed)),
        ),
  )

  -- A labelled commit is still hot exactly when a later commit reverts it or one in the window
  -- repairs it, whether or not the window has elapsed.
  pub label-still_hot_iff :
      (commit_verdict (label verify window_days retouch_min newest_ts cur later) ≡ still_hot)
      ↔ ((any (revert_hit cur) later || any (is_fixup verify cur) window) ≡ true)
  unfolding label
  label-still_hot_iff =
      verdict-hot_iff _ _ _ (nonempty-shas (revert_hit cur) later)
        (nonempty-shas (is_fixup verify cur) window)
