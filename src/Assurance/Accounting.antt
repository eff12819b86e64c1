-- ===== src/Assurance/Accounting.antt =====
-- src/sot_graph/assurance/accounting.py: the registry of bounded collections. Ids are code points.
-- The sweep of the sources for SQL limits (Python's `ast`) is the list of sites that it returns.
pub mod Registry
mod Tests
use sotgraph.Prelude.{
  ℕ, zero, suc, ◌+◌, ◌/◌, ◌%◌, Bool, true, false, not, ◌||◌, ◌&&◌, Option, none, some, List, [],
  ◌∷◌, ◌++◌, map, leb, ltb, ◌==◌, nonempty, keep, any, all, if◌then◌else◌, String,
}
use sotgraph.Prelude.Text.{Text, codes, same, starts}

pub record AccountingSite : Type 0 where
  pub source_id : Text
  pub cap : Option ℕ
  pub owner : Text
  pub collector : Text
  pub sql_backed : Bool

-- A site that the sweep found; its module is `owner`.
pub record LimitSite : Type 0 where
  pub owner : Text
  pub collector : Text

abbrev pub edges_source : Text
edges_source = codes "edges_cap_500"

abbrev pub evidence_source : Text
evidence_source = codes "evidence_cap_50"

abbrev pub ledger_runs_source : Text
ledger_runs_source = codes "ledger_runs_cap_200"

abbrev pub transitive_source : Text
transitive_source = codes "transitive_cap_200"

abbrev pub changed_files_source : Text
changed_files_source = codes "changed_files_cap_200"

abbrev pub debt_markers_source : Text
debt_markers_source = codes "debt_markers_cap_50"

abbrev pub ledger_union_pattern : Text
ledger_union_pattern = codes "ledger_union_cap_<limit>"

abbrev site : Text → Option ℕ → String → String → Bool → AccountingSite
site source_id cap owner collector sql_backed = record {
  source_id = source_id;
  cap = cap;
  owner = codes owner;
  collector = codes collector;
  sql_backed = sql_backed;
}

-- ACCOUNTED_SITES
abbrev pub accounted_sites : List AccountingSite
accounted_sites =
    site edges_source (some 500) "receipts" "_edges_of" true
    ∷ site evidence_source (some 50) "receipts" "diff_impact_receipt" true
    ∷ site ledger_runs_source (some 200) "receipts" "_ledger_cross_check" true
    ∷ site ledger_union_pattern none "ledger" "union_evidence" true
    ∷ site transitive_source (some 200) "receipts" "scope_receipt" false
    ∷ site changed_files_source (some 200) "receipts" "diff_impact_receipt" false
    ∷ site debt_markers_source (some 50) "resolution" "debt_markers" false
    ∷ []

abbrev pub same_site : Text → Text → Text → Text → Bool
same_site m c m' c' = same m m' && same c c'

-- NON_TRUNCATING_COLLECTORS
abbrev pub is_allowlisted : LimitSite → Bool
is_allowlisted l = same_site l.owner l.collector (codes "engine") (codes "resolve_symbol")

-- LOGICAL_COLLECTION_SOURCES
abbrev pub logical_collection_sources : List (Text × Text)
logical_collection_sources =
    (codes "direct_edges", edges_source)
    ∷ (codes "relations", edges_source)
    ∷ (codes "transitive", transitive_source)
    ∷ (codes "ledger_runs", ledger_runs_source)
    ∷ (codes "ledger_union", ledger_union_pattern)
    ∷ (codes "changed_files", changed_files_source)
    ∷ (codes "invalidated_evidence", evidence_source)
    ∷ (codes "debt_markers", debt_markers_source)
    ∷ []

abbrev pub is_digit : ℕ → Bool
is_digit c = leb b'0' c && leb c b'9'

-- `str` of a number; the fuel is the number's successor, which bounds its digits.
unfoldable pub decimal_from : ℕ → ℕ → Text → Text
decimal_from zero n tail = tail
decimal_from (suc f) n tail =
    let rest = decimal_from f (n / 10) ((48 + n % 10) ∷ tail) in
    if ltb n 10 then (48 + n % 10) ∷ tail else rest

unfoldable pub decimal : ℕ → Text
unfolding decimal_from
decimal n = decimal_from (suc n) n []

abbrev pub union_prefix : Text
union_prefix = codes "ledger_union_cap_"

abbrev pub or_zero : Option ℕ → ℕ
or_zero none = 0
or_zero (some n) = n

unfoldable pub ledger_union_source : Option ℕ → Text
unfolding decimal
ledger_union_source cap = union_prefix ++ decimal (or_zero cap)

-- `\d+$`: digits to the end, or to a last line feed
abbrev pub digits_end : Text → Bool
digits_end [] = true
digits_end (c ∷ []) = is_digit c || c == 10
digits_end (c ∷ d ∷ cs) = is_digit c && digits_end (d ∷ cs)

abbrev pub digits_only : Text → Bool
digits_only [] = false
digits_only (c ∷ cs) = is_digit c && digits_end cs

-- What stands behind a prefix.
abbrev pub after : Text → Text → Option Text
after s [] = some s
after [] (d ∷ ds) = none
after (c ∷ cs) (d ∷ ds) = if c == d then after cs ds else none

abbrev pub is_digits : Option Text → Bool
is_digits none = false
is_digits (some s) = digits_only s

unfoldable pub is_ledger_union_source : Text → Bool
is_ledger_union_source s = is_digits (after s union_prefix)

unfoldable pub reason_code_for : Text → Text
reason_code_for s =
    if same s transitive_source
    then codes "transitive_truncated"
    else codes "collection_truncated:" ++ s

unfoldable pub is_accounted_source : Text → Bool
is_accounted_source s =
    any (λ (a : AccountingSite). same s a.source_id) accounted_sites || is_ledger_union_source s

-- UnaccountedSource carries the ids that are not registered; `none` is a normal return.
unfoldable pub ensure_accounted : List Text → Option (List Text)
ensure_accounted sources =
    let foreign = keep (λ s. not (is_accounted_source s)) sources in
    if nonempty foreign then some foreign else none

abbrev pub is_registered : LimitSite → Bool
is_registered l =
    any (λ (a : AccountingSite). same_site l.owner l.collector a.owner a.collector) accounted_sites

unfoldable pub unregistered_limit_sites : List LimitSite → List LimitSite
unregistered_limit_sites sweep = keep (λ l. not (is_registered l) && not (is_allowlisted l)) sweep

unfoldable pub unbacked_registry_sites : List LimitSite → List AccountingSite
unbacked_registry_sites sweep =
    keep
      (λ a.
        a.sql_backed
        && not (any (λ (l : LimitSite). same_site a.owner a.collector l.owner l.collector) sweep))
      accounted_sites
