-- ===== src/Impact/Diff/Header.antt =====
-- `HUNK_HEADER_REGEX` of src/sot_graph/diff_impact.py and the numbers that it captures.
use sotgraph.Prelude.{
  ℕ, ◌+◌, ◌-◌, ◌*◌, Bool, ◌&&◌, Option, none, some, [], ◌∷◌, ◌==◌, leb, if◌then◌else◌,
}
use sotgraph.Prelude.Options.{◌>>=◌}
use sotgraph.Prelude.Text.{Text, strip, is_space, take_while, drop_while}
use sotgraph.Impact.Mapper.{DiffHunk}

abbrev pub is_digit : ℕ → Bool
is_digit c = leb b'0' c && leb c b'9'

-- `int` of decimal digits
unfoldable pub value_from : ℕ → Text → ℕ
value_from n [] = n
value_from n (c ∷ cs) = value_from (n * 10 + (c - b'0')) cs

unfoldable pub expect : ℕ → Text → Option Text
expect c [] = none
expect c (d ∷ ds) = if d == c then some ds else none

-- `\s+`
unfoldable pub spaces : Text → Option Text
spaces [] = none
spaces (c ∷ cs) = if is_space c then some (drop_while is_space cs) else none

abbrev pub number_of : Text → Text → Option (ℕ × Text)
number_of [] rest = none
number_of (c ∷ cs) rest = some (value_from 0 (c ∷ cs), rest)

-- `\d+`
unfoldable pub number : Text → Option (ℕ × Text)
unfolding value_from
number s = number_of (take_while is_digit s) (drop_while is_digit s)

abbrev pub or_else_one : Text → Option (ℕ × Text) → ℕ × Text
or_else_one s none = (1, s)
or_else_one s (some r) = r

-- `(?:,(\d+))?`, and 1 where it is missing
unfoldable pub count : Text → ℕ × Text
unfolding number
count [] = (1, [])
count (c ∷ cs) = if c == b',' then or_else_one (c ∷ cs) (number cs) else (1, c ∷ cs)

-- `(?:\s+(?P<heading>.*))?$`, stripped
unfoldable pub heading_of : Text → Option Text
heading_of [] = some []
heading_of (c ∷ cs) = if is_space c then some (strip (c ∷ cs)) else none

unfoldable pub read_header : Text → Option (DiffHunk × Text)
unfolding expect spaces number count heading_of ◌>>=◌
read_header line = do
  s₁ ← expect b'@' line
  s₂ ← expect b'@' s₁
  s₃ ← spaces s₂
  s₄ ← expect b'-' s₃
  old ← number s₄
  let old_count = count old.1
  s₅ ← spaces old_count.1
  s₆ ← expect b'+' s₅
  new ← number s₆
  let new_count = count new.1
  s₇ ← spaces new_count.1
  s₈ ← expect b'@' s₇
  s₉ ← expect b'@' s₈
  heading ← heading_of s₉
  some (
    record {
      old_start = old.0;
      old_count = old_count.0;
      new_start = new.0;
      new_count = new_count.0;
    },
    heading,
  )
