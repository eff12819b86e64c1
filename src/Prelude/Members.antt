-- ===== src/Prelude/Members.antt =====
-- Sets of strings as lists: membership, and how many of a list are not in a set yet.
use Prim.Native.Nat.{ℕ, suc, ◌≤◌}
use Prim.Native.String.{String}
use mathlib.Core.Path.{◌≡◌, refl, sym, subst}
use mathlib.Core.Bool.{Bool, true, false, not}
use mathlib.Core.List.{List, [], ◌∷◌}
use mathlib.Core.Logic.{inl, inr, ◌⊎◌}
use native.Mathlib.Omega.{arith}
use text.Mathlib.Text.{◌==◌ as str_eq}
use text.Mathlib.TextEquality.{eq_iff}
use sotgraph.Prelude.Lists.{length, keep, any, length-keep, All}
use sotgraph.Prelude.Tests.{Bool-cases}

abbrev pub member : String → List String → Bool
member x = any (str_eq x)

pub str_eq_refl : (x : String) → str_eq x x ≡ true
str_eq_refl x = (eq_iff x x).1 refl

pub str_eq_sym : (x y : String) → str_eq x y ≡ str_eq y x
str_eq_sym x y = elim (Bool-cases (str_eq x y)) [
  | inl e ↦ (let same : x ≡ y = (eq_iff x y).0 e in subst (λ z. str_eq x z ≡ str_eq z x) same refl)
  | inr e ↦ elim (Bool-cases (str_eq y x)) [
    | inr f ↦ (ground arith)
    | inl f ↦
        (let same : y ≡ x = (eq_iff y x).0 f in
          subst (λ z. str_eq x z ≡ str_eq z x) (sym same) refl)
  ]
]

pub member_self : (x : String) (xs : List String) → member x (x ∷ xs) ≡ true
member_self x xs = let e : str_eq x x ≡ true = str_eq_refl x in ground arith

-- A member of a list is its head or a member of the rest.
pub member-cons :
    (x y : String) (ys : List String) → member x (y ∷ ys) ≡ true → (x ≡ y) ⊎ (member x ys ≡ true)
member-cons x y ys h = elim (Bool-cases (str_eq x y)) [
  | inl e ↦ inl ((eq_iff x y).0 e)
  | inr e ↦ inr (ground arith)
]

-- How many of the strings are not in the set.
abbrev pub unseen : List String → List String → ℕ
unseen visited nodes = length (keep (λ x. not (member x visited)) nodes)

pub unseen-cons :
    (r : String) (visited nodes : List String) → unseen (r ∷ visited) nodes ≤ unseen visited nodes
unseen-cons r visited [] = omega arith
unseen-cons r visited (x ∷ xs) = ground (arith, unseen-cons r visited xs)

pub unseen-visit :
    (r : String) (visited nodes : List String)
    → member r nodes ≡ true
    → member r visited ≡ false
    → suc (unseen (r ∷ visited) nodes) ≤ unseen visited nodes
unseen-visit r visited [] h k = cc
unseen-visit r visited (x ∷ xs) h k = elim (Bool-cases (str_eq r x)) [
  | inl e ↦
      let same : r ≡ x = (eq_iff r x).0 e in
      let here : str_eq x r ≡ true = subst (λ y. str_eq y r ≡ true) same (str_eq_refl r) in
      let fresh : member x visited ≡ false = subst (λ y. member y visited ≡ false) same k in
      ground (arith, unseen-cons r visited xs)
  | inr e ↦ ground (arith, unseen-visit r visited xs)
]

pub unseen_bound : (visited xs : List String) → unseen visited xs ≤ length xs
unseen_bound visited xs = length-keep (λ x. not (member x visited)) xs

-- What holds of each member holds of all the elements.
pub All-of_members {κ} :
    (P : String → Type κ) (xs : List String) → ((x : String) → member x xs ≡ true → P x) → All P xs
All-of_members P [] h = tt
All-of_members P (x ∷ xs) h =
    (h x (member_self x xs), All-of_members P xs (λ y k. h y (ground arith)))
