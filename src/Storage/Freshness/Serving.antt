-- ===== src/Storage/Freshness/Serving.antt =====
-- `ensure_fresh` of src/sot_graph/freshness.py: the envelope it returns, and what it sets going on
-- the way. The durations and the text of errors are left out.
use sotgraph.Prelude.{
  ℕ, Bool, true, false, not, ◌&&◌, ◌||◌, Option, none, some, List, [], ◌∷◌, ◌++◌, leb, length, ltb,
  nonempty, if◌then◌else◌,
}
use sotgraph.Prelude.Text.{Text}
use sotgraph.Storage.Freshness.{
  Mode, auto, force, off, Given, normalize_mode, Probe, is_stale, stale_total,
}

pub data JitStatus : Type 0 where
  turned_off probe_failed skipped_fresh refreshed background failed conflicts success : JitStatus

pub data Background : Type 0 where
  debounced spawned already_running spawn_failed : Background

pub data Serving : Type 0 where
  fresh stale : Serving

pub data FastTier : Type 0 where
  fast_success : (published deferred : ℕ) → FastTier
  fast_failed : FastTier

-- The part of the envelope for the background tiers.
pub record Tiers : Type 0 where
  pub fast : Option FastTier
  pub background_status : Background
  pub serving : Serving
  pub stale_count : ℕ

pub record Envelope : Type 0 where
  pub mode : Mode
  pub performed : Bool
  pub status : JitStatus
  -- whether the reconcile was inline, where that was decided
  pub blocking : Option Bool
  pub tiers : Option Tiers

-- What is set going: the fast tier on some paths, another process, or a reconcile with one worker.
pub data Action : Type 0 where
  fast_tier : List Text → Action
  spawning : Action
  reconciling : Bool → Action

-- What the calls return, where they do not raise.
pub record Calls : Type 0 where
  pub probe : Option Probe
  -- whether the configured `jit_mode` is `async`
  pub is_async : Option Bool
  pub fast_tier_max : ℕ
  -- the published and the deferred paths
  pub fast_tier_reconcile : Option (ℕ × ℕ)
  -- the age of the published snapshot, in seconds
  pub published_age : Option ℕ
  pub min_interval : ℕ
  pub spawn : Option Bool
  -- the failed paths and the conflicts
  pub reconcile_now : Option (ℕ × ℕ)

abbrev pub refresh_due : ℕ → Option ℕ → Bool
refresh_due min_interval none = true
refresh_due min_interval (some age) = leb min_interval age

abbrev pub fast_result : Option (ℕ × ℕ) → FastTier
fast_result none = fast_failed
fast_result (some (published, deferred)) = fast_success published deferred

abbrev pub changed_paths : Probe → List Text
changed_paths p = p.modified ++ (p.deleted ++ p.unindexed)

abbrev pub is_small : Calls → Probe → Bool
is_small c p = let n = length (changed_paths p) in ltb 0 n && leb n c.fast_tier_max

abbrev pub spawn_status : Option Bool → Background
spawn_status none = spawn_failed
spawn_status (some b) = if b then spawned else already_running

abbrev pub needs_refresh : Calls → Probe → Bool
needs_refresh c p = nonempty p.deleted || refresh_due c.min_interval c.published_age

abbrev pub is_success : Option FastTier → Bool
is_success (some (fast_success published deferred)) = true
is_success _ = false

abbrev pub run_fast : Calls → Probe → Option FastTier
run_fast c p = if is_small c p then some (fast_result c.fast_tier_reconcile) else none

-- The branch that does not block.
unfoldable pub serve_async : Calls → Mode → Probe → Envelope × List Action
unfolding stale_total
serve_async c mode p =
    let fast = run_fast c p in
    let is_fresh = is_success fast && not (nonempty p.deleted) in
    (
      record {
        mode = mode;
        performed = true;
        status = if is_fresh then refreshed else background;
        blocking = some false;
        tiers = some (record {
          fast = fast;
          background_status = if needs_refresh c p then spawn_status c.spawn else debounced;
          serving = if is_fresh then fresh else stale;
          stale_count = stale_total p;
        });
      },
      (if is_small c p then fast_tier (changed_paths p) ∷ [] else [])
          ++ (if needs_refresh c p then spawning ∷ [] else []),
    )

abbrev pub summary_status : ℕ × ℕ → JitStatus
summary_status (failures, clashes) =
    if ltb 0 failures then failed else if ltb 0 clashes then conflicts else success

abbrev pub inline_envelope : Mode → Option (ℕ × ℕ) → Envelope
inline_envelope mode none = record {
  mode = mode;
  performed = false;
  status = failed;
  blocking = some true;
  tiers = none;
}
inline_envelope mode (some summary) = record {
  mode = mode;
  performed = true;
  status = summary_status summary;
  blocking = some true;
  tiers = none;
}

unfoldable pub serve_inline : Calls → Mode → Probe → Envelope × List Action
unfolding stale_total
serve_inline c mode p =
    (inline_envelope mode c.reconcile_now, reconciling (leb (stale_total p) 16) ∷ [])

-- `blocking` as it is given, or as the mode and the configuration say
abbrev pub configured : Option Bool → Bool
configured none = true
configured (some is_async) = not is_async

abbrev pub decide_blocking : Calls → Mode → Option Bool → Bool
decide_blocking c mode (some b) = b
decide_blocking c force none = true
decide_blocking c auto none = configured c.is_async
decide_blocking c off none = configured c.is_async

abbrev pub idle : Mode → JitStatus → Envelope × List Action
idle mode status =
    (record { mode = mode; performed = false; status = status; blocking = none; tiers = none }, [])

abbrev pub serve_stale : Calls → Mode → Option Bool → Probe → Envelope × List Action
serve_stale c mode blocking p =
    if decide_blocking c mode blocking then serve_inline c mode p else serve_async c mode p

abbrev pub is_auto : Mode → Bool
is_auto auto = true
is_auto _ = false

abbrev pub serve_probed : Calls → Mode → Option Bool → Option Probe → Envelope × List Action
serve_probed c mode blocking none = idle mode probe_failed
serve_probed c mode blocking (some p) =
    if is_auto mode && not (is_stale p)
    then idle mode skipped_fresh
    else serve_stale c mode blocking p

abbrev pub serve : Calls → Option Bool → Mode → Envelope × List Action
serve c blocking off = idle off turned_off
serve c blocking auto = serve_probed c auto blocking c.probe
serve c blocking force = serve_probed c force blocking c.probe

unfoldable pub ensure_fresh : Calls → Given → Option Bool → Envelope × List Action
unfolding is_stale serve_async serve_inline normalize_mode
ensure_fresh c mode blocking = serve c blocking (normalize_mode mode auto)
