-- ===== src/Assurance/Identity/Tests.antt =====
-- Symbols of src/sot_graph/assurance/identity.py, and instances of what is proved about them.
use sotgraph.Prelude.{◌≡◌, refl, true, none, some, List, [], ◌∷◌, String, any, if◌then◌else◌}
use sotgraph.Prelude.Text.{codes}
use sotgraph.Assurance.Identity.{SymbolIdentity, identity_key, same_key, dedup, dedup_by_identity}
use sotgraph.Assurance.Identity.Keys.{first_with, count_with, dedup-first_once}
use sotgraph.Assurance.Identity.Paths.{normal_step, normpath, normalize_repo_path}
use sotgraph.Assurance.Identity.Paths.Stable.{normalize_stable}
use sotgraph.Assurance.Identity.Providers.{
  Reported, ns_id, from_provider_symbol, from_provider_symbol-apart,
}

abbrev run_in : String → SymbolIdentity
run_in file = record {
  repo_id = codes "r";
  path = some (codes file);
  language = codes "python";
  kind = codes "function";
  qualified_name = codes "run";
  span = none;
  provider_symbol_id = none;
}

-- Two functions of one name in two files, the first of them twice.
abbrev runs : List SymbolIdentity
runs = run_in "a.py" ∷ run_in "b.py" ∷ run_in "a.py" ∷ []

dedup-runs : dedup_by_identity runs ≡ run_in "a.py" ∷ run_in "b.py" ∷ []
unfolding dedup_by_identity dedup same_key identity_key
dedup-runs = refl

dedup-first_once_example :
    (first_with (identity_key (run_in "a.py")) (dedup_by_identity runs)
      ≡ first_with (identity_key (run_in "a.py")) runs)
    × (count_with (identity_key (run_in "a.py")) (dedup_by_identity runs) ≡ (
        if any (λ item. same_key (identity_key (run_in "a.py")) (identity_key item)) runs
        then 1
        else 0))
dedup-first_once_example = dedup-first_once runs (identity_key (run_in "a.py"))

normalize_windows :
    normalize_repo_path (some (codes "./src\\a/../b//c.py")) ≡ some (codes "src/b/c.py")
unfolding normalize_repo_path normpath normal_step
normalize_windows = refl

normalize_above : normalize_repo_path (some (codes "//x/../../y/.")) ≡ some (codes "//y")
unfolding normalize_repo_path normpath normal_step
normalize_above = refl

normalize_stable_example :
    normalize_repo_path (normalize_repo_path (some (codes ".\\a/../../b")))
    ≡ normalize_repo_path (some (codes ".\\a/../../b"))
normalize_stable_example = normalize_stable (some (codes ".\\a/../../b"))

abbrev reported : String → String → Reported
reported provider id = record {
  repo_id = codes "r";
  path = some (codes "a.py");
  language = codes "python";
  kind = codes "function";
  qualified_name = codes "run";
  span = none;
  provider = codes provider;
  provider_symbol_id = some (codes id);
}

same_reports :
    same_key
      (identity_key (from_provider_symbol (reported "scip" "7")))
      (identity_key (from_provider_symbol (reported "scip" "7")))
    ≡ true
unfolding same_key identity_key from_provider_symbol ns_id normalize_repo_path normpath normal_step
same_reports = refl

from_provider_symbol-apart_example :
    (codes "scip" ≡ codes "scip") × (some (codes "7") ≡ some (codes "7"))
from_provider_symbol-apart_example =
    from_provider_symbol-apart (reported "scip" "7") (reported "scip" "7") b'7' b'7' [] [] refl refl
      refl refl same_reports
