-- ===== src/Impact/Risk.antt =====
-- src/sot_graph/diff_impact.py: `CommitHistoryEngine._calculate_commit_risk`. A path is its code
-- points; its last component is never `.` or empty. The texts of the reasons are left out.
pub mod Levels
pub mod Growth
use sotgraph.Prelude.{
  ℕ, zero, suc, ◌+◌, Bool, true, false, ◌||◌, ◌&&◌, Option, none, some, List, [], ◌∷◌, ◌++◌, String,
  ltb, leb, ◌==◌, length, nonempty, keep, any, take, if◌then◌else◌,
}
use sotgraph.Prelude.Text.{Text, codes, lower, same, starts}
use sotgraph.Impact.Summary.{RiskLevel, low, medium, high}

pub data RiskReason : Type 0 where
  high_blast_radius : ℕ → RiskReason
  multi_file : ℕ → RiskReason
  massive_churn : ℕ → RiskReason
  moderate_churn : ℕ → RiskReason
  critical_paths : ℕ → RiskReason
  build_manifest : List Text → RiskReason
  core_symbol : Text → ℕ → RiskReason
  small_change : RiskReason

-- CRITICAL_PATTERNS, which hold no character that is special in a regular expression
abbrev pub critical_patterns : List String
critical_patterns =
    "migration" ∷ "schema" ∷ "auth" ∷ "security" ∷ "crypto" ∷ "secret" ∷ "payment" ∷ "billing"
    ∷ "lock" ∷ "permission" ∷ "database" ∷ "alembic" ∷ "flyway" ∷ []

-- CONFIG_FILES
abbrev pub config_files : List String
config_files =
    "package.json" ∷ "cargo.toml" ∷ "pyproject.toml" ∷ "go.mod" ∷ "pom.xml" ∷ "build.gradle"
    ∷ "dockerfile" ∷ "docker-compose.yml" ∷ "tsconfig.json" ∷ []

-- `re.search` of a plain pattern
abbrev pub occurs : Text → Text → Bool
occurs p [] = starts [] p
occurs p (c ∷ cs) = starts (c ∷ cs) p || occurs p cs

-- `Path(f).name`
abbrev pub name_from : Text → Text → Text
name_from name [] = name
name_from name (c ∷ cs) =
    let fresh = name_from cs cs in
    let same_name = name_from name cs in if c == b'/' then fresh else same_name

unfoldable pub is_critical : Text → Bool
is_critical f = any (λ p. occurs (codes p) (lower f)) critical_patterns

unfoldable pub is_config : Text → Bool
is_config f = any (λ n. same (lower (name_from f f)) (codes n)) config_files

-- The score and the reasons so far.
abbrev pub Tally : Type 0
Tally = ℕ × List RiskReason

abbrev pub add : Tally → ℕ → RiskReason → Tally
add (score, reasons) n r = (score + n, reasons ++ (r ∷ []))

-- 1. File count churn
unfoldable pub file_step : List Text → Tally → Tally
file_step files t =
    let file_count = length files in
    if ltb 15 file_count
    then add t 4 (high_blast_radius file_count)
    else if ltb 5 file_count
    then add t 2 (multi_file file_count)
    else t

-- 2. Line churn
unfoldable pub churn_step : ℕ → Tally → Tally
churn_step total_churn t =
    if ltb 800 total_churn
    then add t 4 (massive_churn total_churn)
    else if ltb 250 total_churn
    then add t 2 (moderate_churn total_churn)
    else t

-- 3. Critical domain paths
unfoldable pub critical_step : List Text → Tally → Tally
unfolding is_critical
critical_step files t =
    if nonempty (keep is_critical files)
    then add t 4 (critical_paths (length (keep is_critical files)))
    else t

-- 4. Root config churn
unfoldable pub config_step : List Text → Tally → Tally
unfolding is_config
config_step files t =
    if nonempty (keep is_config files)
    then add t 2 (build_manifest (take 2 (keep is_config files)))
    else t

-- 5. High in-degree callers: the query counts the edges into a symbol; `none` is an exception,
-- which ends the loop.
unfoldable pub degree_loop : (Text → Option ℕ) → List Text → Tally → Tally
degree_loop count [] t = t
degree_loop count (sym ∷ syms) t =
    let rest = degree_loop count syms t in
    elim (count sym) [ none ↦ t | some n ↦ if leb 5 n then add t 3 (core_symbol sym n) else rest ]

unfoldable pub degree_step : Option (Text → Option ℕ) → List Text → Tally → Tally
unfolding degree_loop
degree_step none touched_symbols t = t
degree_step (some count) touched_symbols t = degree_loop count (take 3 touched_symbols) t

abbrev pub or_small : List RiskReason → List RiskReason
or_small [] = small_change ∷ []
or_small (r ∷ rs) = r ∷ rs

unfoldable pub conclude : Tally → RiskLevel × List RiskReason
conclude (score, reasons) =
    if leb 5 score
    then (high, reasons)
    else if leb 2 score
    then (medium, reasons)
    else (low, or_small reasons)

-- `conn` is the optional connection, as the query of step 5.
unfoldable pub calculate_commit_risk :
    Option (Text → Option ℕ) → List Text → ℕ → ℕ → List Text → RiskLevel × List RiskReason
unfolding file_step churn_step critical_step config_step degree_step conclude
calculate_commit_risk conn files insertions deletions touched_symbols = conclude (
    degree_step conn touched_symbols (
      config_step files
        (critical_step files (churn_step (insertions + deletions) (file_step files (0, []))))))
