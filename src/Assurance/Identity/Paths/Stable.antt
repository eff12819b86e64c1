-- ===== src/Assurance/Identity/Paths/Stable.antt =====
-- A normal path of src/sot_graph/assurance/identity.py is left as it is.
use sotgraph.Prelude.{
  ◌≡◌, refl, sym, ap, ◌∙◌, subst, Bool, true, false, not, ◌&&◌, Option, none, some, List, [], ◌∷◌,
  ◌++◌, map, ◌==◌, nonempty, if◌then◌else◌, All,
}
use mathlib.Core.List.{reverse}
use sotgraph.Prelude.Text.{Text, contains}
use sotgraph.Assurance.Identity.Paths.{
  to_slashes, strip_current, split, join, normal_step, normal_steps, root_of, or_current, normpath,
  normalize_repo_path,
}
use sotgraph.Assurance.Identity.Paths.Parts.{
  IsName, normal_steps-IsNormal, normal_steps-again, names-reverse, split-join, parts_split,
  to_slashes_clean, to_slashes_same, strip_current_clean, join_clean, join-head, root_of_none,
  root_of_one, root_of_two,
}

-- The roots that a path can have.
data IsRoot : Text → Type 0 where
  none_root : IsRoot []
  one_root : IsRoot (b'/' ∷ [])
  two_roots : IsRoot (b'/' ∷ b'/' ∷ [])

choose-IsRoot :
    (a b : Bool) → IsRoot (if a then (if b then b'/' ∷ b'/' ∷ [] else b'/' ∷ []) else [])
choose-IsRoot true true = two_roots
choose-IsRoot true false = one_root
choose-IsRoot false b = none_root

root_of-IsRoot : (p : Text) → IsRoot (root_of p)
root_of-IsRoot [] = none_root
root_of-IsRoot (c ∷ []) = elim (c == b'/') as (λ b. IsRoot (if b then b'/' ∷ [] else [])) [
  | true ↦ one_root
  | false ↦ none_root
]
root_of-IsRoot (c ∷ d ∷ []) = choose-IsRoot (c == b'/') (d == b'/')
root_of-IsRoot (c ∷ d ∷ e ∷ cs) = choose-IsRoot (c == b'/') (d == b'/' && not (e == b'/'))

normpath-of :
    (p root : Text) (new ts : List Text)
    → root_of p ≡ root
    → normal_steps (nonempty root) [] (split p) ≡ new
    → reverse new ≡ ts
    → normpath p ≡ or_current (root ++ join ts)
unfolding normpath
normpath-of p root new ts e f g =
    ap (λ r. or_current (r ++ join (reverse (normal_steps (nonempty r) [] (split p))))) e
    ∙ ap (λ n. or_current (root ++ join (reverse n))) f
    ∙ ap (λ t. or_current (root ++ join t)) g

-- A path of a root and names is normalized to itself.
again :
    (root : Text) (ts new : List Text)
    → IsRoot root
    → All IsName ts
    → normal_steps (nonempty root) [] ts ≡ new
    → reverse new ≡ ts
    → normpath (strip_current (or_current (root ++ join ts))) ≡ or_current (root ++ join ts)
unfolding normpath normal_step
again _ [] new none_root h e r = refl
again _ [] new one_root h e r = refl
again _ [] new two_roots h e r = refl
again _ (t ∷ ts) new none_root h e r =
    let (x, js, starts_x, no_slash, stops) = join-head t ts h in
    let parts = ap split (sym starts_x) ∙ split-join t ts h in
    subst (λ j. normpath (strip_current (or_current j)) ≡ or_current j) (sym starts_x)
      (ap normpath stops
        ∙ normpath-of (x ∷ js) [] new (t ∷ ts) (root_of_none x js no_slash)
            (ap (normal_steps false []) parts ∙ e) r
        ∙ ap or_current starts_x)
again _ (t ∷ ts) new one_root h e r =
    let (x, js, starts_x, no_slash, stops) = join-head t ts h in
    let parts = ap split (sym starts_x) ∙ split-join t ts h in
    subst (λ j. normpath (strip_current (b'/' ∷ j)) ≡ b'/' ∷ j) (sym starts_x)
      (normpath-of (b'/' ∷ x ∷ js) (b'/' ∷ []) new (t ∷ ts) (root_of_one x js no_slash)
          (ap (normal_steps true []) parts ∙ e) r
        ∙ ap (λ j. b'/' ∷ j) starts_x)
again _ (t ∷ ts) new two_roots h e r =
    let (x, js, starts_x, no_slash, stops) = join-head t ts h in
    let parts = ap split (sym starts_x) ∙ split-join t ts h in
    subst (λ j. normpath (b'/' ∷ b'/' ∷ j) ≡ b'/' ∷ b'/' ∷ j) (sym starts_x)
      (normpath-of (b'/' ∷ b'/' ∷ x ∷ js) (b'/' ∷ b'/' ∷ []) new (t ∷ ts)
          (root_of_two x js no_slash) (ap (normal_steps true []) parts ∙ e) r
        ∙ ap (λ j. b'/' ∷ b'/' ∷ j) starts_x)

clean_root :
    (root : Text) (t : Text)
    → IsRoot root
    → contains b'\\' t ≡ false
    → contains b'\\' (or_current (root ++ t)) ≡ false
clean_root _ [] none_root h = refl
clean_root _ (c ∷ t) none_root h = h
clean_root _ t one_root h = h
clean_root _ t two_roots h = h

nonempty-or_current : (t : Text) → nonempty (or_current t) ≡ true
nonempty-or_current [] = refl
nonempty-or_current (c ∷ t) = refl

normalize-nonempty :
    (p : Text)
    → nonempty p ≡ true
    → normalize_repo_path (some p) ≡ some (normpath (strip_current (map to_slashes p)))
unfolding normalize_repo_path
normalize-nonempty [] h = cc
normalize-nonempty (c ∷ cs) h = refl

normpath-again :
    (s : Text)
    → contains b'\\' s ≡ false
    → normalize_repo_path (some (normpath s)) ≡ some (normpath s)
unfolding normpath
normpath-again s clean =
    let root = root_of s in
    let new = normal_steps (nonempty root) [] (split s) in
    let normal = normal_steps-IsNormal (nonempty root) [] (split s) (parts_split s clean) tt in
    let names = names-reverse (nonempty root) new normal in
    let clean_path =
      clean_root root (join (reverse new)) (root_of-IsRoot s) (join_clean (reverse new) names) in
    normalize-nonempty (normpath s) (nonempty-or_current (root ++ join (reverse new)))
    ∙ ap (λ p. some (normpath (strip_current p))) (to_slashes_same (normpath s) clean_path)
    ∙ ap some (
        again root (reverse new) new (root_of-IsRoot s) names
          (normal_steps-again (nonempty root) new normal) refl)

-- A path that was normalized is left as it is by a second normalization.
pub normalize_stable :
    (path : Option Text) → normalize_repo_path (normalize_repo_path path) ≡ normalize_repo_path path
unfolding normalize_repo_path
normalize_stable none = refl
normalize_stable (some []) = refl
normalize_stable (some (c ∷ cs)) =
    normpath-again (strip_current (map to_slashes (c ∷ cs)))
      (strip_current_clean (map to_slashes (c ∷ cs)) (to_slashes_clean (c ∷ cs)))
