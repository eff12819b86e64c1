-- ===== src/Assurance/Accounting/Tests.antt =====
-- The registry at concrete ids and sites.
use sotgraph.Prelude.{◌≡◌, refl, some, [], ◌∷◌, List}
use sotgraph.Prelude.Text.{codes}
use sotgraph.Assurance.Accounting.{
  LimitSite, edges_source, reason_code_for, ledger_union_source, is_accounted_source,
  is_ledger_union_source, ensure_accounted,
}

union_5000 : ledger_union_source (some 5000) ≡ codes "ledger_union_cap_5000"
unfolding ledger_union_source
union_5000 = refl

edges_code : reason_code_for edges_source ≡ codes "collection_truncated:edges_cap_500"
unfolding reason_code_for
edges_code = refl

foreign_raises :
    ensure_accounted (edges_source ∷ codes "new_cap" ∷ []) ≡ some (codes "new_cap" ∷ [])
unfolding ensure_accounted is_accounted_source is_ledger_union_source
foreign_raises = refl

abbrev sweep : List LimitSite
sweep =
    record { owner = codes "engine"; collector = codes "resolve_symbol" }
    ∷ record { owner = codes "ledger"; collector = codes "new_query" }
    ∷ []
