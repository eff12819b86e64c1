-- ===== src/Assurance/Ledger.antt =====
-- src/sot_graph/assurance/ledger.py: `union_evidence`. The rows of the two queries, `none` where SQLite
-- raises, are parameters, and so is `verify`, which says whether `verify_subject` reports VERIFIED.
pub mod Groups
pub mod Supported
mod Tests
use sotgraph.Prelude.{
  ℕ, Bool, true, false, not, ◌&&◌, ◌||◌, Option, none, some, is_some, List, [], ◌∷◌, ◌++◌, map,
  ◌==◌, ltb, any, keep, length, take, nonempty, sort_by, if◌then◌else◌,
}
use sotgraph.Prelude.Text.{Text, same, lower}
use sotgraph.Assurance.Identity.{same_line, language_of}
use sotgraph.Assurance.Identity.Paths.{to_slashes}
use sotgraph.Assurance.Identity.Providers.{or_unknown}

-- The lines where a provider saw the evidence start and end.
abbrev pub Lines : Type 0
Lines = Option ℕ × Option ℕ

pub record LedgerRow : Type 0 where
  pub path : Option Text
  pub relation : Option Text
  pub src_symbol : Option Text
  pub dst_symbol : Option Text
  pub snapshot_hash : Option Text
  pub provider_name : Text
  pub lines : Lines

pub record UnionKey : Type 0 where
  pub path : Text
  pub language : Text
  pub relation : Text
  pub src : Text
  pub dst : Text
  pub snapshot : Text

-- `str(x or "")`
abbrev pub text_of : Option Text → Text
text_of none = []
text_of (some t) = t

unfoldable pub union_key : LedgerRow → UnionKey
union_key r = record {
  path = map to_slashes (text_of r.path);
  language = or_unknown (language_of (text_of r.path));
  relation = text_of r.relation;
  src = lower (text_of r.src_symbol);
  dst = lower (text_of r.dst_symbol);
  snapshot = text_of r.snapshot_hash;
}

unfoldable pub same_union_key : UnionKey → UnionKey → Bool
same_union_key a b =
    same a.path b.path
    && same a.language b.language
    && same a.relation b.relation
    && same a.src b.src
    && same a.dst b.dst
    && same a.snapshot b.snapshot

abbrev pub same_lines : Lines → Lines → Bool
same_lines a b = same_line a.0 b.0 && same_line a.1 b.1

-- The rows of one key: their providers and their spans, each once.
pub record Group : Type 0 where
  pub key : UnionKey
  pub providers : List Text
  pub spans : List Lines

abbrev add_text : Text → List Text → List Text
add_text t ts = if any (same t) ts then ts else ts ++ (t ∷ [])

abbrev pub add_lines : Lines → List Lines → List Lines
add_lines s ss = if any (same_lines s) ss then ss else ss ++ (s ∷ [])

abbrev pub add_row : LedgerRow → List Group → List Group
add_row r [] =
    record { key = union_key r; providers = r.provider_name ∷ []; spans = r.lines ∷ [] } ∷ []
add_row r (g ∷ gs) =
    let rest = add_row r gs in
    let joined : Group = record g {
      providers = add_text r.provider_name g.providers;
      spans = add_lines r.lines g.spans;
    } in
    if same_union_key (union_key r) g.key then joined ∷ gs else g ∷ rest

abbrev pub group_rows : List LedgerRow → List Group → List Group
group_rows [] gs = gs
group_rows (r ∷ rs) gs = group_rows rs (add_row r gs)

pub data EvidenceStatus : Type 0 where
  unverified unbound conflict source_verified supported : EvidenceStatus

pub record Entry : Type 0 where
  pub key : UnionKey
  pub providers : List Text
  pub conflicting : Bool
  pub status : EvidenceStatus
  pub span : Option Lines
  pub resolved_span : Option Lines
  pub truncated : Bool

-- `s != (None, None)`
abbrev pub is_known : Lines → Bool
is_known s = is_some s.0 || is_some s.1

-- `a < b` of strings, by code points
abbrev text_lt : Text → Text → Bool
text_lt [] [] = false
text_lt [] (d ∷ ds) = true
text_lt (c ∷ cs) [] = false
text_lt (c ∷ cs) (d ∷ ds) = ltb c d || (c == d && text_lt cs ds)

abbrev or_zero : Option ℕ → ℕ
or_zero none = 0
or_zero (some n) = n

abbrev plain : Group → EvidenceStatus → Entry
plain g status = record {
  key = g.key;
  providers = sort_by text_lt g.providers;
  conflicting = false;
  status = status;
  span = none;
  resolved_span = none;
  truncated = false;
}

-- The marker of a result that was cut.
abbrev pub marker : Entry
marker = record {
  key = record { path = []; language = []; relation = []; src = []; dst = []; snapshot = [] };
  providers = [];
  conflicting = true;
  status = unverified;
  span = none;
  resolved_span = none;
  truncated = true;
}

abbrev pub is_supported : EvidenceStatus → Bool
is_supported supported = true
is_supported unverified = false
is_supported unbound = false
is_supported conflict = false
is_supported source_verified = false

abbrev rank : Bool → Bool → Bool → Bool
rank false true later = true
rank true false later = false
rank false false later = later
rank true true later = later

abbrev then_by : Text → Text → Bool → Bool
then_by a b later = text_lt a b || (same a b && later)

-- The sort key of the result.
abbrev pub listed_before : Entry → Entry → Bool
listed_before a b = rank (not (is_supported a.status)) (not (is_supported b.status)) (
    rank a.conflicting b.conflicting (
      then_by a.key.path b.key.path (
        then_by a.key.relation b.key.relation
          (then_by a.key.src b.key.src (text_lt a.key.dst b.key.dst)))))

module _ (verify : Text → Text → ℕ → ℕ → Bool) (verify_spans : Bool) where
  abbrev pub is_verified : UnionKey → Lines → Bool
  is_verified k s = verify k.path k.src (or_zero s.0) (or_zero s.1)

  -- More than one span: the one that the source confirms, if it is the only one.
  abbrev pub adjudicated : Group → List Lines → Entry
  adjudicated g (s ∷ []) = record (plain g source_verified) {
    conflicting = true;
    resolved_span = some s;
  }
  adjudicated g ss = record (plain g conflict) { conflicting = true }

  abbrev pub judge_spans : Group → List Lines → Entry
  judge_spans g [] = plain g unverified
  judge_spans g (s ∷ []) =
      record (plain g (if verify_spans && is_verified g.key s then supported else unverified)) {
        span = some s;
      }
  judge_spans g (s ∷ t ∷ ss) = adjudicated g (keep (is_verified g.key) (s ∷ t ∷ ss))

  abbrev pub judge_group : Group → Entry
  judge_group g =
      if not (nonempty g.key.snapshot) || not (nonempty g.key.path)
      then plain g unbound
      else judge_spans g (keep is_known g.spans)

  -- The result that is cut at the limit; one row more than the limit was asked for.
  abbrev pub union_rows : ℕ → List LedgerRow → List Entry
  union_rows limit rows =
      let entries = map judge_group (group_rows (take limit rows) []) in
      sort_by listed_before (if ltb limit (length rows) then entries ++ (marker ∷ []) else entries)

  -- `none` is the entry with an error, where both queries raise.
  abbrev pub read_rows : ℕ → Option (List LedgerRow) → Option (List LedgerRow) → Option (List Entry)
  read_rows limit (some rows) legacy = some (union_rows limit rows)
  read_rows limit none (some rows) = some (union_rows limit rows)
  read_rows limit none none = none

  unfoldable pub union_evidence :
      Text → ℕ → Option (List LedgerRow) → Option (List LedgerRow) → Option (List Entry)
  union_evidence canonical_root limit rows legacy =
      if not (nonempty canonical_root) then some [] else read_rows limit rows legacy
