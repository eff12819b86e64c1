-- ===== src/Prelude/Text.antt =====
-- Python's `str` operations on code points.
use Prim.Native.Nat.{Ordering, ℕ, ◌+◌}
use Prim.Native.Char.{code}
use Prim.Native.String.{String, compare}
use mathlib.Core.Path.{◌≡◌, refl}
use native.Mathlib.Omega.{arith}
use mathlib.Core.Bool.{Bool, true, false, ◌&&◌, ◌||◌}
use mathlib.Core.List.{List, [], ◌∷◌, map, reverse}
use sotgraph.Prelude.Tests.{leb, ◌==◌, if◌then◌else◌}

abbrev pub Text : Type 0
Text = List ℕ

abbrev pub codes : String → Text
codes String.[] = []
codes (String.◌∷◌ c s) = code c ∷ codes s

-- str.isspace, which is the regular expression `\s`
abbrev pub is_space : ℕ → Bool
is_space c =
    (leb 9 c && leb c 13)
    || (leb 28 c && leb c 32)
    || c == 133
    || c == 160
    || c == 5760
    || (leb 8192 c && leb c 8202)
    || c == 8232
    || c == 8233
    || c == 8239
    || c == 8287
    || c == 12288

-- str.lower, on the ASCII letters
abbrev pub lower_code : ℕ → ℕ
lower_code c = if leb b'A' c && leb c b'Z' then c + 32 else c

abbrev pub lower : Text → Text
lower = map lower_code

abbrev pub drop_while : (ℕ → Bool) → Text → Text
drop_while p [] = []
drop_while p (c ∷ cs) = let rest = drop_while p cs in if p c then rest else c ∷ cs

abbrev pub take_while : (ℕ → Bool) → Text → Text
take_while p [] = []
take_while p (c ∷ cs) = let rest = take_while p cs in if p c then c ∷ rest else []

-- str.strip over the characters of a set
abbrev pub strip_of : (ℕ → Bool) → Text → Text
strip_of p s = reverse (drop_while p (reverse (drop_while p s)))

abbrev pub strip : Text → Text
strip = strip_of is_space

abbrev pub same : Text → Text → Bool
same [] [] = true
same [] (d ∷ ds) = false
same (c ∷ cs) [] = false
same (c ∷ cs) (d ∷ ds) = c == d && same cs ds

-- s.startswith(p)
abbrev pub starts : Text → Text → Bool
starts s [] = true
starts [] (d ∷ ds) = false
starts (c ∷ cs) (d ∷ ds) = c == d && starts cs ds

-- s.endswith(p)
abbrev pub ends : Text → Text → Bool
ends s p = starts (reverse s) (reverse p)

abbrev pub contains : ℕ → Text → Bool
contains c [] = false
contains c (d ∷ ds) = c == d || contains c ds

-- `a < b` of Python's strings
abbrev pub text_before : String → String → Bool
text_before a b = elim (compare a b) [ Ordering.lt ↦ true | _ ↦ false ]

pub same-eq : (s t : Text) → same s t ≡ true → s ≡ t
same-eq [] [] h = refl
same-eq [] (d ∷ ds) h = cc
same-eq (c ∷ cs) [] h = cc
same-eq (c ∷ cs) (d ∷ ds) h = ground (arith, same-eq cs ds)

pub same_refl : (s : Text) → same s s ≡ true
same_refl [] = refl
same_refl (c ∷ cs) = ground (arith, same_refl cs)
