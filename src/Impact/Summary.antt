-- ===== src/Impact/Summary.antt =====
-- src/sot_graph/diff_impact.py: `DiffImpactEngine._compute_summary`, from the lengths of its lists.
-- The elapsed time is passed through and left out.
pub mod Bounds
use sotgraph.Prelude.{ℕ, min, ◌+◌, ◌*◌, Bool, ◌||◌, leb, if◌then◌else◌}

pub data RiskLevel : Type 0 where
  low medium high : RiskLevel

-- The counts of changed files, direct nodes, callers and interfaces.
pub record Counts : Type 0 where
  pub files : ℕ
  pub nodes : ℕ
  pub callers : ℕ
  pub apis : ℕ

unfoldable pub risk_score : Counts → ℕ
risk_score c =
    min (c.files * 5) 25 + min (c.nodes * 8) 30 + min (c.callers * 4) 25 + min (c.apis * 10) 20

unfoldable pub risk_level : Counts → RiskLevel
unfolding risk_score
risk_level c =
    if leb 60 (risk_score c) || leb 3 c.apis || leb 10 c.callers
    then high
    else if leb 25 (risk_score c) || leb 3 c.callers || leb 1 c.apis
    then medium
    else low

abbrev pub rank : RiskLevel → ℕ
rank low = 0
rank medium = 1
rank high = 2
