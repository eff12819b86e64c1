-- ===== src/Impact/Summary/Bounds.antt =====
-- The score and the level of an impact summary (src/sot_graph/diff_impact.py).
use sotgraph.Prelude.{ℕ, min, ◌*◌, ◌≤◌, ◌||◌, leb, if◌then◌else◌, arith}
use sotgraph.Impact.Summary.{Counts, low, medium, high, risk_score, risk_level, rank}

min_le : (a b : ℕ) → min a b ≤ b
min_le a b = ground arith

min_mono : (a a' b : ℕ) → a ≤ a' → min a b ≤ min a' b
min_mono a a' b h = ground arith

-- The risk score is at most 100.
pub risk_score_bound : (c : Counts) → risk_score c ≤ 100
unfolding risk_score
risk_score_bound c =
    let f : min (c.files * 5) 25 ≤ 25 = min_le (c.files * 5) 25 in
    let n : min (c.nodes * 8) 30 ≤ 30 = min_le (c.nodes * 8) 30 in
    let k : min (c.callers * 4) 25 ≤ 25 = min_le (c.callers * 4) 25 in
    let a : min (c.apis * 10) 20 ≤ 20 = min_le (c.apis * 10) 20 in omega arith

-- The component-wise order of two summaries.
abbrev pub AtMost : Counts → Counts → Type 0
AtMost c d = (c.files ≤ d.files) × (c.nodes ≤ d.nodes) × (c.callers ≤ d.callers) × (c.apis ≤ d.apis)

risk_score_mono : (c d : Counts) → AtMost c d → risk_score c ≤ risk_score d
unfolding risk_score
risk_score_mono c d (f, n, k, a) =
    let f' : min (c.files * 5) 25 ≤ min (d.files * 5) 25 = min_mono _ _ _ (omega arith) in
    let n' : min (c.nodes * 8) 30 ≤ min (d.nodes * 8) 30 = min_mono _ _ _ (omega arith) in
    let k' : min (c.callers * 4) 25 ≤ min (d.callers * 4) 25 = min_mono _ _ _ (omega arith) in
    let a' : min (c.apis * 10) 20 ≤ min (d.apis * 10) 20 = min_mono _ _ _ (omega arith) in
    omega arith

level_mono :
    (s s' k k' a a' : ℕ)
    → s ≤ s'
    → k ≤ k'
    → a ≤ a'
    → rank (
        if leb 60 s || leb 3 a || leb 10 k
        then high
        else if leb 25 s || leb 3 k || leb 1 a
        then medium
        else low)
      ≤ rank (
          if leb 60 s' || leb 3 a' || leb 10 k'
          then high
          else if leb 25 s' || leb 3 k' || leb 1 a'
          then medium
          else low)
level_mono s s' k k' a a' h i j = ground arith

-- A change whose counts are all at least as large never gets a lower level.
pub risk_level_mono : (c d : Counts) → AtMost c d → rank (risk_level c) ≤ rank (risk_level d)
unfolding risk_level
risk_level_mono c d h = level_mono _ _ _ _ _ _ (risk_score_mono c d h) h.2 h.3
