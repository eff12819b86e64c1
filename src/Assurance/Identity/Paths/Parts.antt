-- ===== src/Assurance/Identity/Paths/Parts.antt =====
-- The components of a path of src/sot_graph/assurance/identity.py, and how they are split and joined.
use sotgraph.Prelude.{
  ℕ, ◌≡◌, refl, sym, ap, ◌∙◌, subst, Bool, true, false, not, ◌&&◌, ◌||◌, List, [], ◌∷◌, ◌++◌, map,
  ◌==◌, nonempty, All, All-snoc, Bool-cases, inl, inr, arith,
}
use mathlib.Core.List.{reverse, reverse-cons}
use sotgraph.Prelude.Text.{Text, same, contains}
use sotgraph.Assurance.Identity.Paths.{
  to_slashes, strip_current, cons_first, split, join, current, parent, top_is_parent, pop,
  normal_step, normal_steps, root_of,
}

-- A component: with neither separator, and also not empty and not the current directory.
abbrev IsPart : Text → Type 0
IsPart t = (contains b'/' t ≡ false) × (contains b'\\' t ≡ false)

abbrev pub IsName : Text → Type 0
IsName t = (nonempty t ≡ true) × (same t current ≡ false) × IsPart t

-- Each component of the stack would be pushed again.
abbrev IsNormal : Bool → List Text → Type 0
IsNormal rooted [] = Unit
IsNormal rooted (c ∷ new) = (normal_step rooted new c ≡ c ∷ new) × IsName c × IsNormal rooted new

IsNormal-pop : (rooted : Bool) (new : List Text) → IsNormal rooted new → IsNormal rooted (pop new)
IsNormal-pop rooted [] h = tt
IsNormal-pop rooted (c ∷ new) (a, b, h) = h

normal_step-IsNormal :
    (rooted : Bool) (new : List Text) (c : Text)
    → IsPart c
    → IsNormal rooted new
    → IsNormal rooted (normal_step rooted new c)
unfolding normal_step
normal_step-IsNormal rooted new c p h = elim (Bool-cases (not (nonempty c) || same c current)) [
  | inl e ↦ rw e h
  | inr e ↦
      elim (Bool-cases
        (not (same c parent) || (not rooted && not (nonempty new)) || top_is_parent new)) [
          | inl f ↦ rw e (rw f (rw e (rw f refl), (ground arith, ground arith, p), h))
          | inr f ↦ rw e (rw f (IsNormal-pop rooted new h))
        ]
]

pub normal_steps-IsNormal :
    (rooted : Bool) (new cs : List Text)
    → All IsPart cs
    → IsNormal rooted new
    → IsNormal rooted (normal_steps rooted new cs)
normal_steps-IsNormal rooted new [] k h = h
normal_steps-IsNormal rooted new (c ∷ cs) (p, k) h =
    normal_steps-IsNormal rooted (normal_step rooted new c) cs k
      (normal_step-IsNormal rooted new c p h)

normal_steps-append :
    (rooted : Bool) (new cs ds : List Text)
    → normal_steps rooted new (cs ++ ds) ≡ normal_steps rooted (normal_steps rooted new cs) ds
normal_steps-append rooted new [] ds = refl
normal_steps-append rooted new (c ∷ cs) ds =
    normal_steps-append rooted (normal_step rooted new c) cs ds

-- The components of a normal stack, taken again, make the same stack.
pub normal_steps-again :
    (rooted : Bool) (new : List Text)
    → IsNormal rooted new
    → normal_steps rooted [] (reverse new) ≡ new
normal_steps-again rooted [] h = refl
normal_steps-again rooted (c ∷ new) (pushed, _, h) =
    ap (normal_steps rooted []) (reverse-cons c new)
    ∙ normal_steps-append rooted [] (reverse new) (c ∷ [])
    ∙ ap (λ s. normal_step rooted s c) (normal_steps-again rooted new h)
    ∙ pushed

pub names-reverse :
    (rooted : Bool) (new : List Text) → IsNormal rooted new → All IsName (reverse new)
names-reverse rooted [] h = tt
names-reverse rooted (c ∷ new) (_, n, h) =
    subst (All IsName) (sym (reverse-cons c new))
      (All-snoc IsName (reverse new) c (names-reverse rooted new h) n)

split-part : (t : Text) → contains b'/' t ≡ false → split t ≡ t ∷ []
split-part [] h = refl
split-part (c ∷ cs) h =
    let e : c == b'/' ≡ false = ground arith in rw (e, split-part cs (ground arith)) refl

split-part_slash :
    (t rest : Text) → contains b'/' t ≡ false → split (t ++ (b'/' ∷ rest)) ≡ t ∷ split rest
split-part_slash [] rest h = refl
split-part_slash (c ∷ cs) rest h =
    let e : c == b'/' ≡ false = ground arith in rw (e, split-part_slash cs rest (ground arith)) refl

-- The components of joined names are the names.
pub split-join : (t : Text) (ts : List Text) → All IsName (t ∷ ts) → split (join (t ∷ ts)) ≡ t ∷ ts
split-join t [] ((_, _, (p, _)), _) = split-part t p
split-join t (u ∷ ts) ((_, _, (p, _)), h) =
    split-part_slash t (join (u ∷ ts)) p ∙ ap (λ r. t ∷ r) (split-join u ts h)

cons_first_parts :
    (c : ℕ) (ts : List Text)
    → c == b'/' ≡ false
    → c == b'\\' ≡ false
    → All IsPart ts
    → All IsPart (cons_first c ts)
cons_first_parts c [] e f h = ((ground arith, ground arith), tt)
cons_first_parts c (t ∷ ts) e f ((a, b), h) = ((ground arith, ground arith), h)

pub parts_split : (s : Text) → contains b'\\' s ≡ false → All IsPart (split s)
parts_split [] h = ((refl, refl), tt)
parts_split (c ∷ cs) h = elim (Bool-cases (c == b'/')) [
  | inl e ↦ rw e ((refl, refl), parts_split cs (ground arith))
  | inr e ↦ rw e (cons_first_parts c (split cs) e (ground arith) (parts_split cs (ground arith)))
]

pub to_slashes_clean : (s : Text) → contains b'\\' (map to_slashes s) ≡ false
to_slashes_clean [] = refl
to_slashes_clean (c ∷ cs) = ground (arith, to_slashes_clean cs)

pub to_slashes_same : (s : Text) → contains b'\\' s ≡ false → map to_slashes s ≡ s
to_slashes_same [] h = refl
to_slashes_same (c ∷ cs) h = ground (arith, to_slashes_same cs)

pub strip_current_clean :
    (s : Text) → contains b'\\' s ≡ false → contains b'\\' (strip_current s) ≡ false
strip_current_clean [] h = h
strip_current_clean (c ∷ []) h = h
strip_current_clean (c ∷ d ∷ cs) h = elim (Bool-cases (c == b'.' && d == b'/')) [
  | inl e ↦ rw e (strip_current_clean cs (ground arith))
  | inr e ↦ rw e h
]

contains-append : (c : ℕ) (s t : Text) → contains c (s ++ t) ≡ (contains c s || contains c t)
contains-append c [] t = refl
contains-append c (d ∷ s) t = ground (arith, contains-append c s t)

pub join_clean : (ts : List Text) → All IsName ts → contains b'\\' (join ts) ≡ false
join_clean [] h = refl
join_clean (t ∷ []) ((_, _, (_, p)), _) = p
join_clean (t ∷ u ∷ ts) ((_, _, (_, p)), h) =
    ground (arith, contains-append b'\\' t (b'/' ∷ join (u ∷ ts)), join_clean (u ∷ ts) h)

strip_stop :
    (c d : ℕ) (cs : Text)
    → (c == b'.' && d == b'/') ≡ false
    → strip_current (c ∷ d ∷ cs) ≡ c ∷ d ∷ cs
strip_stop c d cs e = rw e refl

-- What joined names begin with.
pub join-head :
    (t : Text) (ts : List Text)
    → All IsName (t ∷ ts)
    → (x : ℕ) × (js : Text) × (join (t ∷ ts) ≡ x ∷ js)
      × (x == b'/' ≡ false)
      × (strip_current (x ∷ js) ≡ x ∷ js)
join-head [] ts ((n, _, _), _) = cc
join-head (x ∷ []) [] ((_, n, (p, _)), _) = (x, [], refl, ground arith, refl)
join-head (x ∷ []) (u ∷ ts) ((_, n, (p, _)), _) =
    (x, b'/' ∷ join (u ∷ ts), refl, ground arith, strip_stop x b'/' (join (u ∷ ts)) (ground arith))
join-head (x ∷ y ∷ ys) [] ((_, n, (p, _)), _) =
    (x, y ∷ ys, refl, ground arith, strip_stop x y ys (ground arith))
join-head (x ∷ y ∷ ys) (u ∷ ts) ((_, n, (p, _)), _) =
    (x, y ∷ (ys ++ (b'/' ∷ join (u ∷ ts))), refl, ground arith, strip_stop x y _ (ground arith))

pub root_of_none : (x : ℕ) (js : Text) → x == b'/' ≡ false → root_of (x ∷ js) ≡ []
root_of_none x [] e = rw e refl
root_of_none x (d ∷ []) e = rw e refl
root_of_none x (d ∷ f ∷ js) e = rw e refl

pub root_of_one : (x : ℕ) (js : Text) → x == b'/' ≡ false → root_of (b'/' ∷ x ∷ js) ≡ b'/' ∷ []
root_of_one x [] e = rw e refl
root_of_one x (d ∷ js) e = rw e refl

pub root_of_two :
    (x : ℕ) (js : Text) → x == b'/' ≡ false → root_of (b'/' ∷ b'/' ∷ x ∷ js) ≡ b'/' ∷ b'/' ∷ []
root_of_two x js e = rw e refl
