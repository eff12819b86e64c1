-- ===== src/Storage/Freshness/Tests.antt =====
-- The freshness gate of src/sot_graph/freshness.py on a small tree, and its theorems there.
use sotgraph.Prelude.{
  ◌≤◌, ◌<◌, ℕ, ◌≡◌, ◌≢◌, refl, true, false, none, some, List, [], ◌∷◌, any, All, if◌then◌else◌, ◌↔◌,
  arith,
}
use sotgraph.Prelude.Text.{Text, codes, same, starts}
use sotgraph.Storage.Freshness.{
  auto, force, off, flag, text, other, normalize_mode, JournalRow, Host, Probe, is_stale,
  staleness_probe,
}
use sotgraph.Storage.Freshness.Serving.{Calls, ensure_fresh}
use sotgraph.Storage.Freshness.Settled.{IsSettled, IsJournalled, staleness_probe-IsSettled_iff}
use sotgraph.Storage.Freshness.Served.{
  serves_fresh, is_spawning, IsRefreshed, ensure_fresh-IsRefreshed, ensure_fresh-deleted,
}
use sotgraph.Storage.Freshness.Background.{
  unusable, Launch, spawn_background_reconcile, run_calls, run_calls-once, IsSoon, IsAble,
}

abbrev below_root : Text → Text
below_root [] = []
below_root (c ∷ cs) = cs

-- One file on the disk.
abbrev tree : Host
tree = record {
  is_absolute = λ p. starts p (codes "/");
  under_root = λ p. b'/' ∷ p;
  relative = λ p. some (below_root p);
  real = λ p. some p;
  exists = λ p. same p (codes "/a.py");
  stat = λ p. if same p (codes "/a.py") then some (5, 70) else none;
  is_ignored = λ p. false;
}

abbrev row : JournalRow
row = record { path = codes "a.py"; size = 5; mtime_ms = 70 }

abbrev lost_row : JournalRow
lost_row = record { path = codes "b.py"; size = 5; mtime_ms = 70 }

abbrev scan : List Text
scan = codes "/a.py" ∷ []

probe-lost : (staleness_probe tree (row ∷ lost_row ∷ []) scan).deleted ≡ codes "b.py" ∷ []
unfolding staleness_probe
probe-lost = refl

probe-settled : is_stale (staleness_probe tree (row ∷ []) scan) ≡ false
unfolding staleness_probe is_stale
probe-settled = refl

mode-padded : normalize_mode (text (codes " Force ")) auto ≡ force
unfolding normalize_mode
mode-padded = refl

staleness_probe-IsSettled_iff_example :
    (is_stale (staleness_probe tree (row ∷ lost_row ∷ []) scan) ≡ false) ↔ (
      All (IsSettled tree scan) (row ∷ lost_row ∷ [])
      × All (IsJournalled tree (row ∷ lost_row ∷ [])) scan)
staleness_probe-IsSettled_iff_example =
    staleness_probe-IsSettled_iff tree (row ∷ lost_row ∷ []) scan

-- One path changed, and a lock made the fast tier defer it.
abbrev edited : Probe
edited = record { modified = codes "a.py" ∷ []; deleted = []; unindexed = [] }

abbrev calls : Probe → Calls
calls p = record {
  probe = some p;
  is_async = some true;
  fast_tier_max = 64;
  fast_tier_reconcile = some (0, 1);
  published_age = some 20;
  min_interval = 300;
  spawn = some true;
  reconcile_now = none;
}

mode-auto : normalize_mode other auto ≡ auto
unfolding normalize_mode
mode-auto = refl

served_edited : serves_fresh (ensure_fresh (calls edited) other none) ≡ true
unfolding ensure_fresh
served_edited = refl

ensure_fresh-IsRefreshed_example :
    (p : Probe) × ((calls edited).probe ≡ some p)
    × IsRefreshed (calls edited) p (ensure_fresh (calls edited) other none).1
ensure_fresh-IsRefreshed_example = ensure_fresh-IsRefreshed (calls edited) other none served_edited

abbrev removed : Probe
removed = record { modified = []; deleted = codes "b.py" ∷ []; unindexed = [] }

mode-on : normalize_mode (flag true) auto ≢ off
unfolding normalize_mode
mode-on e = ground arith

ensure_fresh-deleted_example :
    (any is_spawning (ensure_fresh (calls removed) (flag true) (some false)).1 ≡ true)
    × (serves_fresh (ensure_fresh (calls removed) (flag true) (some false)) ≡ false)
ensure_fresh-deleted_example =
    ensure_fresh-deleted (calls removed) (flag true) removed mode-on refl refl

abbrev at_time : ℕ → Launch
at_time t = record {
  now = t;
  is_alive = λ p. true;
  opens_log = true;
  child = some 41;
  writes_lock = true;
}

first-answer : (spawn_background_reconcile (at_time 1000) unusable).answer ≡ some true
unfolding spawn_background_reconcile
first-answer = refl

soon : (t : ℕ) → 1000 ≤ t → t < 181000 → IsSoon 41 1000 (at_time t)
soon t later young = record {
  is_process = omega arith;
  is_later = later;
  is_young = young;
  runs = refl;
}

run_calls-once_example :
    (run_calls (at_time 1000 ∷ at_time 2000 ∷ at_time 180999 ∷ []) unusable ≡ 41 ∷ [])
    × ((k : Launch) (next : ℕ)
        → IsAble k next
        → ¬ IsSoon 41 1000 k
        → run_calls (at_time 1000 ∷ at_time 2000 ∷ at_time 180999 ∷ k ∷ []) unusable
          ≡ 41 ∷ next ∷ [])
run_calls-once_example =
    run_calls-once (at_time 1000) (at_time 2000 ∷ at_time 180999 ∷ []) unusable 41 refl first-answer
      (soon 2000 (omega arith) (omega arith), (soon 180999 (omega arith) (omega arith), tt))
