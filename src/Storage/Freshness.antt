-- ===== src/Storage/Freshness.antt =====
-- src/sot_graph/freshness.py: `normalize_mode` and `staleness_probe`. The samples of the three lists
-- are left out, and times are milliseconds after 1970.
pub mod Serving
pub mod Settled
pub mod Served
pub mod Background
mod Tests
use sotgraph.Prelude.{
  ℕ, ◌+◌, Bool, true, false, not, ◌&&◌, ◌||◌, Option, none, some, List, [], ◌∷◌, ◌++◌, ◌==◌, map,
  any, keep, length, nonempty, if◌then◌else◌,
}
use sotgraph.Prelude.Text.{Text, codes, same, strip, strip_of, lower}

pub data Mode : Type 0 where
  auto force off : Mode

-- The Python value that is given for a mode.
pub data Given : Type 0 where
  flag : Bool → Given
  text : Text → Given
  other : Given

abbrev pub mode_named : Mode → Text → Mode
mode_named default t =
    if same t (codes "auto")
    then auto
    else if same t (codes "force")
    then force
    else if same t (codes "off")
    then off
    else default

unfoldable pub normalize_mode : Given → Mode → Mode
normalize_mode (flag true) default = force
normalize_mode (flag false) default = off
normalize_mode (text t) default = mode_named default (lower (strip t))
normalize_mode other default = default

-- A row of the file journal.
pub record JournalRow : Type 0 where
  pub path : Text
  pub size : ℕ
  pub mtime_ms : ℕ

-- What `os` and the ignore rules say of a path, below one root. `relative` and `real` are missing
-- where the call raises, which `os.path.realpath` is taken not to do on a path of the scan.
pub record Host : Type 0 where
  pub is_absolute : Text → Bool
  pub under_root : Text → Text
  pub relative : Text → Option Text
  pub real : Text → Option Text
  pub exists : Text → Bool
  pub stat : Text → Option (ℕ × ℕ)
  pub is_ignored : Text → Bool

pub record Probe : Type 0 where
  pub modified : List Text
  pub deleted : List Text
  pub unindexed : List Text

abbrev pub nothing_found : Probe
nothing_found = record { modified = []; deleted = []; unindexed = [] }

pub data RowState : Type 0 where
  current changed gone out_of_reach : RowState

abbrev pub listed : Text → List Text → Bool
listed t = any (same t)

abbrev pub or_else : Text → Option Text → Text
or_else t none = t
or_else t (some u) = u

abbrev pub present : Option Text → List Text
present none = []
present (some t) = t ∷ []

abbrev is_slash : ℕ → Bool
is_slash c = c == b'/'

abbrev pub slashed : ℕ → ℕ
slashed c = if c == b'\\' then b'/' else c

-- `raw.replace("\\", "/").strip("/")`
unfoldable pub rel_of : Text → Text
rel_of raw = strip_of is_slash (map slashed raw)

module _ (h : Host) where
  unfoldable pub display : Text → Text
  display path = or_else path (h.relative path)

  unfoldable pub full_path : JournalRow → Text
  unfolding rel_of
  full_path r = if h.is_absolute r.path then r.path else h.under_root (rel_of r.path)

  unfoldable pub real_path : Text → Text
  real_path full = or_else full (h.real full)

  abbrev pub keys_of : JournalRow → List Text
  keys_of r = rel_of r.path ∷ (if h.is_absolute r.path then present (h.relative r.path) else [])

  unfoldable pub journal_keys : List JournalRow → List Text
  unfolding rel_of
  journal_keys [] = []
  journal_keys (r ∷ rs) = keys_of r ++ journal_keys rs

  abbrev pub stat_state : JournalRow → Option (ℕ × ℕ) → RowState
  stat_state r none = gone
  stat_state r (some (size, mtime)) =
      if size == r.size && mtime == r.mtime_ms then current else changed

  -- What one turn of the loop over the journal finds.
  unfoldable pub row_state : List Text → JournalRow → RowState
  unfolding full_path real_path
  row_state scan_set r =
      if listed (real_path (full_path r)) scan_set
      then stat_state r (h.stat (full_path r))
      else if not (h.exists (full_path r)) && not (h.is_ignored (full_path r))
      then gone
      else out_of_reach

  abbrev pub note : Text → Probe → RowState → Probe
  note path p current = p
  note path p out_of_reach = p
  note path p changed = record p { modified = p.modified ++ (path ∷ []) }
  note path p gone = record p { deleted = p.deleted ++ (path ∷ []) }

  unfoldable pub read_rows : List Text → Probe → List JournalRow → Probe
  unfolding row_state display
  read_rows scan_set p [] = p
  read_rows scan_set p (r ∷ rs) =
      read_rows scan_set (note (display (full_path r)) p (row_state scan_set r)) rs

  abbrev pub is_unindexed : List Text → Text → Bool
  is_unindexed keys rel = not (listed rel keys)

  unfoldable pub staleness_probe : List JournalRow → List Text → Probe
  unfolding read_rows journal_keys
  staleness_probe rows scan =
      let found = read_rows (map real_path scan) nothing_found rows in
      record found { unindexed = keep (is_unindexed (journal_keys rows)) (map display scan) }

unfoldable pub is_stale : Probe → Bool
is_stale p = nonempty p.modified || nonempty p.deleted || nonempty p.unindexed

unfoldable pub stale_total : Probe → ℕ
stale_total p = length p.modified + length p.deleted + length p.unindexed
