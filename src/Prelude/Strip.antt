-- ===== src/Prelude/Strip.antt =====
-- `str.strip` on a text without white space, and `all` on reversed and joined texts.
use Prim.Native.Nat.{ℕ}
use mathlib.Core.Path.{◌≡◌, refl, ap, ◌∙◌}
use mathlib.Core.Bool.{Bool, true, false, not, ◌&&◌}
use mathlib.Core.List.{[], ◌∷◌, ◌++◌, reverse, reverse-cons, reverse-reverse}
use native.Mathlib.Omega.{arith}
use sotgraph.Prelude.Lists.{all}
use sotgraph.Prelude.Text.{Text, strip, drop_while, is_space}

module _ (p : ℕ → Bool) where
  pub all-append : (xs ys : Text) → all p (xs ++ ys) ≡ (all p xs && all p ys)
  all-append [] ys = refl
  all-append (x ∷ xs) ys = ground (arith, all-append xs ys)

  pub all-reverse : (xs : Text) → all p (reverse xs) ≡ all p xs
  all-reverse [] = refl
  all-reverse (x ∷ xs) =
      rw (reverse-cons x xs)
        (rw (all-append (reverse xs) (x ∷ [])) (ground (arith, all-reverse xs)))

  pub drop_while_none : (xs : Text) → all (λ c. not (p c)) xs ≡ true → drop_while p xs ≡ xs
  drop_while_none [] h = refl
  drop_while_none (x ∷ xs) h = ground arith

pub all_mono :
    (p q : ℕ → Bool)
    → ((c : ℕ) → p c ≡ true → q c ≡ true)
    → (xs : Text) → all p xs ≡ true
    → all q xs ≡ true
all_mono p q f [] h = refl
all_mono p q f (x ∷ xs) h = ground (arith, f x, all_mono p q f xs)

pub both : (a b : Bool) → (a && b) ≡ true → (a ≡ true) × (b ≡ true)
both true b h = (refl, h)
both false b h = cc

pub drop-reverse :
    (t : Text)
    → all (λ c. not (is_space c)) t ≡ true
    → reverse (drop_while is_space (reverse t)) ≡ t
drop-reverse t h =
    ap reverse (drop_while_none is_space (reverse t) (all-reverse (λ c. not (is_space c)) t ∙ h))
    ∙ reverse-reverse t

pub strip_none : (t : Text) → all (λ c. not (is_space c)) t ≡ true → strip t ≡ t
strip_none t h =
    ap (λ u. reverse (drop_while is_space (reverse u))) (drop_while_none is_space t h)
    ∙ drop-reverse t h
