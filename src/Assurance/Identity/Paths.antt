-- ===== src/Assurance/Identity/Paths.antt =====
-- src/sot_graph/assurance/identity.py: `normalize_repo_path`, with `posixpath.normpath`.
pub mod Parts
pub mod Stable
use sotgraph.Prelude.{
  ℕ, zero, suc, Bool, true, false, not, ◌&&◌, ◌||◌, Option, none, some, List, [], ◌∷◌, ◌++◌, map,
  ◌==◌, nonempty, if◌then◌else◌,
}
use mathlib.Core.List.{reverse}
use sotgraph.Prelude.Text.{Text, same, starts}

-- `.replace("\\", "/")`
abbrev pub to_slashes : ℕ → ℕ
to_slashes c = if c == b'\\' then b'/' else c

-- `while norm.startswith("./"): norm = norm[2:]`
abbrev pub strip_current : Text → Text
strip_current [] = []
strip_current (c ∷ []) = c ∷ []
strip_current (c ∷ d ∷ cs) =
    let rest = strip_current cs in if c == b'.' && d == b'/' then rest else c ∷ d ∷ cs

abbrev pub cons_first : ℕ → List Text → List Text
cons_first c [] = (c ∷ []) ∷ []
cons_first c (t ∷ ts) = (c ∷ t) ∷ ts

-- `.split("/")`
abbrev pub split : Text → List Text
split [] = [] ∷ []
split (c ∷ cs) = let rest = split cs in if c == b'/' then [] ∷ rest else cons_first c rest

-- `"/".join(…)`
abbrev pub join : List Text → Text
join [] = []
join (t ∷ []) = t
join (t ∷ u ∷ ts) = t ++ (b'/' ∷ join (u ∷ ts))

abbrev pub current : Text
current = b'.' ∷ []

abbrev pub parent : Text
parent = b'.' ∷ b'.' ∷ []

abbrev pub top_is_parent : List Text → Bool
top_is_parent [] = false
top_is_parent (t ∷ ts) = same t parent

abbrev pub pop : List Text → List Text
pop [] = []
pop (t ∷ ts) = ts

-- The body of the loop of `normpath`, on the new components in reverse order.
unfoldable pub normal_step : Bool → List Text → Text → List Text
normal_step rooted new comp =
    if not (nonempty comp) || same comp current
    then new
    else if not (same comp parent) || (not rooted && not (nonempty new)) || top_is_parent new
    then comp ∷ new
    else pop new

abbrev pub normal_steps : Bool → List Text → List Text → List Text
normal_steps rooted new [] = new
normal_steps rooted new (c ∷ cs) = normal_steps rooted (normal_step rooted new c) cs

-- POSIX keeps exactly two slashes at the start.
abbrev pub root_of : Text → Text
root_of [] = []
root_of (c ∷ []) = if c == b'/' then b'/' ∷ [] else []
root_of (c ∷ d ∷ []) = if c == b'/' then (if d == b'/' then b'/' ∷ b'/' ∷ [] else b'/' ∷ []) else []
root_of (c ∷ d ∷ e ∷ cs) =
    if c == b'/' then (if d == b'/' && not (e == b'/') then b'/' ∷ b'/' ∷ [] else b'/' ∷ []) else []

abbrev pub or_current : Text → Text
or_current [] = current
or_current (c ∷ cs) = c ∷ cs

-- `posixpath.normpath`
unfoldable pub normpath : Text → Text
normpath path =
    or_current
      (root_of path ++ join (reverse (normal_steps (nonempty (root_of path)) [] (split path))))

-- `not path`, or else the normal path, which is not empty
unfoldable pub normalize_repo_path : Option Text → Option Text
normalize_repo_path none = none
normalize_repo_path (some []) = none
normalize_repo_path (some (c ∷ cs)) = some (normpath (strip_current (map to_slashes (c ∷ cs))))
