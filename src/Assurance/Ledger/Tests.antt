-- ===== src/Assurance/Ledger/Tests.antt =====
-- Rows of src/sot_graph/assurance/ledger.py, and what is proved about them.
use sotgraph.Prelude.{
  ℕ, ◌≡◌, refl, Bool, true, ◌&&◌, Option, none, some, List, [], ◌∷◌, ◌==◌, take, map, String,
}
use sotgraph.Prelude.Text.{Text, codes}
use sotgraph.Assurance.Identity.{language_of}
use sotgraph.Assurance.Ledger.{
  LedgerRow, UnionKey, union_key, same_union_key, Entry, EvidenceStatus, supported, source_verified,
  union_evidence,
}
use sotgraph.Assurance.Ledger.Supported.{supports, is_bound, is_confirmed, union_evidence-supported}

abbrev row : String → String → ℕ → LedgerRow
row path provider start = record {
  path = some (codes path);
  relation = some (codes "calls");
  src_symbol = some (codes "Main");
  dst_symbol = some (codes "run");
  snapshot_hash = some (codes "s1");
  provider_name = codes provider;
  lines = (some start, some 9);
}

-- The source confirms what starts at line 3.
abbrev confirms : Text → Text → ℕ → ℕ → Bool
confirms path src start end_line = start == 3

-- Two providers agree on one file and differ on another.
abbrev rows : List LedgerRow
rows = row "a.py" "scip" 3 ∷ row "b.py" "scip" 3 ∷ row "a.py" "cbm" 3 ∷ row "b.py" "cbm" 4 ∷ []

statuses : Option (List Entry) → List EvidenceStatus
statuses none = []
statuses (some es) = map (λ e. e.status) es

rows-statuses :
    statuses (union_evidence confirms true (codes "/r") 10 (some rows) none)
    ≡ supported ∷ source_verified ∷ []
unfolding union_evidence statuses union_key same_union_key language_of
rows-statuses = refl

union_evidence-supported_example :
    (es : List Entry) × (union_evidence confirms true (codes "/r") 3 (some rows) none ≡ some es)
    × ((k : UnionKey)
        → supports confirms true k es
          ≡ (is_bound confirms true k && (true && is_confirmed confirms true k (take 3 rows))))
union_evidence-supported_example =
    union_evidence-supported confirms true (codes "/r") 3 rows none refl
