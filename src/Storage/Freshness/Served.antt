-- ===== src/Storage/Freshness/Served.antt =====
-- What `ensure_fresh` of src/sot_graph/freshness.py has done when it says how fresh the answer is.
use sotgraph.Prelude.{
  ℕ, ◌≡◌, ◌≢◌, refl, sym, ◌∙◌, Bool, true, false, not, ◌&&◌, Option, none, some, List, [], ◌∷◌,
  ◌++◌, any, nonempty, is_some, All, Bool-cases, inl, inr, if◌then◌else◌, arith,
}
use sotgraph.Prelude.Text.{Text}
use sotgraph.Prelude.Strip.{both}
use sotgraph.Storage.Freshness.{
  Mode, auto, force, off, Given, normalize_mode, JournalRow, Host, Probe, is_stale, staleness_probe,
}
use sotgraph.Storage.Freshness.Serving.{
  Serving, fresh, stale, Tiers, Envelope, Action, fast_tier, spawning, Calls, serve_async,
  serve_inline, serve_probed, serve_stale, serve, is_small, inline_envelope, needs_refresh,
  is_success, run_fast, fast_result, decide_blocking, is_auto, ensure_fresh, idle, skipped_fresh,
}
use sotgraph.Storage.Freshness.Settled.{IsSettled, IsJournalled, staleness_probe-IsSettled_iff}

abbrev is_fresh : Serving → Bool
is_fresh fresh = true
is_fresh stale = false

abbrev tiers_fresh : Option Tiers → Bool
tiers_fresh none = false
tiers_fresh (some t) = is_fresh t.serving

-- The envelope says that the answer is served from a fresh index.
abbrev pub serves_fresh : Envelope × List Action → Bool
serves_fresh (e, actions) = tiers_fresh e.tiers

abbrev pub is_spawning : Action → Bool
is_spawning spawning = true
is_spawning _ = false

-- The fast tier ran on all the paths of a probe that found no deleted file.
pub record IsRefreshed (c : Calls) (p : Probe) (actions : List Action) : Type 0 where
  pub none_deleted : p.deleted ≡ []
  pub ran : (rest : List Action) × (actions ≡ fast_tier (p.modified ++ p.unindexed) ∷ rest)
  pub returned : is_some c.fast_tier_reconcile ≡ true

empty-deleted : (xs : List Text) → not (nonempty xs) ≡ true → xs ≡ []
empty-deleted [] e = refl
empty-deleted (x ∷ xs) e = ground arith

success-ran :
    (o : Option (ℕ × ℕ)) (small : Bool)
    → is_success (if small then some (fast_result o) else none) ≡ true
    → (small ≡ true) × (is_some o ≡ true)
success-ran none true e = ground arith
success-ran o false e = ground arith
success-ran (some r) true e = (refl, refl)

fresh-if : (b : Bool) → is_fresh (if b then fresh else stale) ≡ true → b ≡ true
fresh-if true e = refl
fresh-if false e = ground arith

async-fresh :
    (c : Calls) (mode : Mode) (p : Probe)
    → serves_fresh (serve_async c mode p) ≡ true
    → (is_success (run_fast c p) && not (nonempty p.deleted)) ≡ true
unfolding serve_async
async-fresh c mode p e = fresh-if _ e

async-IsRefreshed :
    (c : Calls) (mode : Mode) (p : Probe)
    → serves_fresh (serve_async c mode p) ≡ true
    → IsRefreshed c p (serve_async c mode p).1
unfolding serve_async
async-IsRefreshed c mode p e =
    let (s, d) = both _ _ (async-fresh c mode p e) in
    let (small, back) = success-ran c.fast_tier_reconcile (is_small c p) s in
    let n = empty-deleted p.deleted d in
    record {
      none_deleted = n;
      ran = ((if needs_refresh c p then spawning ∷ [] else []), rw (small, n) refl);
      returned = back;
    }

inline-stale :
    (mode : Mode) (o : Option (ℕ × ℕ)) → tiers_fresh (inline_envelope mode o).tiers ≡ false
inline-stale mode none = refl
inline-stale mode (some s) = refl

stale-IsRefreshed :
    (c : Calls) (mode : Mode) (blocking : Option Bool) (p : Probe)
    → serves_fresh (serve_stale c mode blocking p) ≡ true
    → IsRefreshed c p (serve_stale c mode blocking p).1
unfolding serve_inline
stale-IsRefreshed c mode blocking p e = elim (Bool-cases (decide_blocking c mode blocking)) [
  | inl k ↦ let f = sym (inline-stale mode c.reconcile_now) ∙ (rw k at e) in ground arith
  | inr k ↦ rw k (async-IsRefreshed c mode p (rw k at e))
]

probed-IsRefreshed :
    (c : Calls) (mode : Mode) (blocking : Option Bool) (o : Option Probe)
    → serves_fresh (serve_probed c mode blocking o) ≡ true
    → (p : Probe) × (o ≡ some p) × IsRefreshed c p (serve_probed c mode blocking o).1
probed-IsRefreshed c mode blocking none e = ground arith
probed-IsRefreshed c mode blocking (some p) e =
    elim (Bool-cases (is_auto mode && not (is_stale p))) [
      | inl k ↦ let f = rw k at e in ground arith
      | inr k ↦ (p, refl, rw k (stale-IsRefreshed c mode blocking p (rw k at e)))
    ]

mode-IsRefreshed :
    (c : Calls) (blocking : Option Bool) (mode : Mode)
    → serves_fresh (serve c blocking mode) ≡ true
    → (p : Probe) × (c.probe ≡ some p) × IsRefreshed c p (serve c blocking mode).1
mode-IsRefreshed c blocking off e = ground arith
mode-IsRefreshed c blocking auto e = probed-IsRefreshed c auto blocking c.probe e
mode-IsRefreshed c blocking force e = probed-IsRefreshed c force blocking c.probe e

-- Whatever the mode and the answers of the calls, if `ensure_fresh` says that the answer is served
-- fresh, then the probe returned and found no deleted file, the fast tier was run first, on all the
-- paths that the probe found modified or not indexed, and it returned.
pub ensure_fresh-IsRefreshed :
    (c : Calls) (mode : Given) (blocking : Option Bool)
    → serves_fresh (ensure_fresh c mode blocking) ≡ true
    → (p : Probe) × (c.probe ≡ some p) × IsRefreshed c p (ensure_fresh c mode blocking).1
unfolding ensure_fresh
ensure_fresh-IsRefreshed c mode blocking = mode-IsRefreshed c blocking (normalize_mode mode auto)

-- In the mode `auto`, when every row of the journal agrees with the disk and every file of the scan
-- is in the journal, nothing is set going, and the envelope says that the index was fresh.
pub ensure_fresh-settled :
    (h : Host) (c : Calls) (mode : Given) (blocking : Option Bool) (rows : List JournalRow)
    (scan : List Text)
    → normalize_mode mode auto ≡ auto
    → c.probe ≡ some (staleness_probe h rows scan)
    → All (IsSettled h scan) rows
    → All (IsJournalled h rows) scan
    → ensure_fresh c mode blocking ≡ idle auto skipped_fresh
unfolding ensure_fresh
ensure_fresh-settled h c mode blocking rows scan m e settled journalled =
    let f = (staleness_probe-IsSettled_iff h rows scan).1 (settled, journalled) in rw (m, e, f) refl

deleted-stale : (p : Probe) → nonempty p.deleted ≡ true → is_stale p ≡ true
unfolding is_stale
deleted-stale p d = rw d (ground arith)

async-deleted :
    (c : Calls) (mode : Mode) (p : Probe)
    → nonempty p.deleted ≡ true
    → (any is_spawning (serve_async c mode p).1 ≡ true)
      × (serves_fresh (serve_async c mode p) ≡ false)
unfolding serve_async
async-deleted c mode p d = elim (Bool-cases (is_small c p)) [
  | inl k ↦
      rw (d, k)
        (
          refl,
          elim (Bool-cases (is_success (some (fast_result c.fast_tier_reconcile)))) [
            | inl s ↦ rw s refl
            | inr s ↦ rw s refl
          ],
        )
  | inr k ↦ rw (d, k) (refl, refl)
]

probed-deleted :
    (c : Calls) (mode : Mode) (p : Probe) (o : Option Probe)
    → o ≡ some p
    → nonempty p.deleted ≡ true
    → (any is_spawning (serve_probed c mode (some false) o).1 ≡ true)
      × (serves_fresh (serve_probed c mode (some false) o) ≡ false)
probed-deleted c auto p o e d = rw e (rw (deleted-stale p d) (async-deleted c auto p d))
probed-deleted c force p o e d = rw e (async-deleted c force p d)
probed-deleted c off p o e d = rw e (async-deleted c off p d)

mode-deleted :
    (c : Calls) (p : Probe)
    → c.probe ≡ some p
    → nonempty p.deleted ≡ true
    → (mode : Mode) → mode ≢ off
    → (any is_spawning (serve c (some false) mode).1 ≡ true)
      × (serves_fresh (serve c (some false) mode) ≡ false)
mode-deleted c p e d off m = ground (arith, m refl)
mode-deleted c p e d auto m = probed-deleted c auto p c.probe e d
mode-deleted c p e d force m = probed-deleted c force p c.probe e d

-- When `blocking` is given as false and the probe found a deleted file, then a background reconcile
-- is asked for whatever the age of the published snapshot, and the envelope does not say that the
-- answer is served fresh. So it is in every mode but `off`: in the mode `force` too, which the
-- docstring says to be always inline.
pub ensure_fresh-deleted :
    (c : Calls) (mode : Given) (p : Probe)
    → normalize_mode mode auto ≢ off
    → c.probe ≡ some p
    → nonempty p.deleted ≡ true
    → (any is_spawning (ensure_fresh c mode (some false)).1 ≡ true)
      × (serves_fresh (ensure_fresh c mode (some false)) ≡ false)
unfolding ensure_fresh
ensure_fresh-deleted c mode p m e d = mode-deleted c p e d (normalize_mode mode auto) m
