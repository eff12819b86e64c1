-- ===== src/Prelude/Lists.antt =====
-- Lists measured by native numbers, and predicates on lists that compute.
use Prim.Native.Nat.{ℕ, zero, suc, ◌+◌, ◌≤◌}
use mathlib.Core.Path.{◌≡◌, refl}
use mathlib.Core.Bool.{Bool, true, false, ◌||◌, ◌&&◌, cond}
use mathlib.Core.List.{List, [], ◌∷◌, ◌++◌}
use native.Mathlib.Omega.{arith}

module _ {ℓ} {A : Type ℓ} where
  abbrev pub length : List A → ℕ
  length [] = 0
  length (x ∷ xs) = suc (length xs)

  -- Python's truth value of a list
  abbrev pub nonempty : List A → Bool
  nonempty [] = false
  nonempty (x ∷ xs) = true

  abbrev pub take : ℕ → List A → List A
  take zero xs = []
  take (suc n) [] = []
  take (suc n) (x ∷ xs) = x ∷ take n xs

  -- `[x for x in xs if p(x)]`
  abbrev pub keep : (A → Bool) → List A → List A
  keep p [] = []
  keep p (x ∷ xs) = let rest = keep p xs in cond (p x) (x ∷ rest) rest

  -- `any(p(x) for x in xs)`
  abbrev pub any : (A → Bool) → List A → Bool
  any p [] = false
  any p (x ∷ xs) = p x || any p xs

  -- `all(p(x) for x in xs)`
  abbrev pub all : (A → Bool) → List A → Bool
  all p [] = true
  all p (x ∷ xs) = p x && all p xs

  pub length-append : (xs ys : List A) → length (xs ++ ys) ≡ length xs + length ys
  length-append [] ys = omega arith
  length-append (x ∷ xs) ys = omega (arith, length-append xs ys)

  pub any-append : (p : A → Bool) (xs ys : List A) → any p (xs ++ ys) ≡ (any p xs || any p ys)
  any-append p [] ys = refl
  any-append p (x ∷ xs) ys = ground (arith, any-append p xs ys)

  pub length-keep : (p : A → Bool) (xs : List A) → length (keep p xs) ≤ length xs
  length-keep p [] = omega arith
  length-keep p (x ∷ xs) = ground (arith, length-keep p xs)

-- A predicate by recursion computes to tuples, which the tactics read and build.
abbrev pub All {ℓ κ} : {E : Type ℓ} (Holds : E → Type κ) → List E → Type κ
All Holds [] = Unit
All Holds (e ∷ es) = Holds e × All Holds es

pub All-snoc {ℓ κ} :
    {A : Type ℓ} (P : A → Type κ) (xs : List A) (x : A) → All P xs → P x → All P (xs ++ (x ∷ []))
All-snoc P [] x h k = (k, tt)
All-snoc P (y ∷ ys) x (h, i) k = (h, All-snoc P ys x i k)

pub All-map_to {ℓ κ μ} :
    {A : Type ℓ} (P : A → Type κ) (Q : A → Type μ)
    → ((x : A) → P x → Q x)
    → (xs : List A) → All P xs
    → All Q xs
All-map_to P Q f [] h = tt
All-map_to P Q f (x ∷ xs) (h, i) = (f x h, All-map_to P Q f xs i)

-- A stable insertion sort by a strict order.
module _ {ℓ} {A : Type ℓ} (before : A → A → Bool) where
  abbrev pub insert_by : A → List A → List A
  insert_by x [] = x ∷ []
  insert_by x (y ∷ ys) = let rest = insert_by x ys in cond (before y x) (y ∷ rest) (x ∷ y ∷ ys)

  abbrev pub sort_by : List A → List A
  sort_by [] = []
  sort_by (x ∷ xs) = insert_by x (sort_by xs)

  All-insert_by {κ} :
      (P : A → Type κ) (x : A) (xs : List A) → P x → All P xs → All P (insert_by x xs)
  All-insert_by P x [] h k = (h, tt)
  All-insert_by P x (y ∷ ys) h (k, l) =
      elim (before y x) as (λ b. All P (cond b (y ∷ insert_by x ys) (x ∷ y ∷ ys))) [
        | true ↦ (k, All-insert_by P x ys h l)
        | false ↦ (h, (k, l))
      ]

  pub All-sort_by {κ} : (P : A → Type κ) (xs : List A) → All P xs → All P (sort_by xs)
  All-sort_by P [] h = tt
  All-sort_by P (x ∷ xs) (h, k) = All-insert_by P x (sort_by xs) h (All-sort_by P xs k)

  any-insert_by : (p : A → Bool) (x : A) (xs : List A) → any p (insert_by x xs) ≡ (p x || any p xs)
  any-insert_by p x [] = refl
  any-insert_by p x (y ∷ ys) = ground (arith, any-insert_by p x ys)

  pub any-sort_by : (p : A → Bool) (xs : List A) → any p (sort_by xs) ≡ any p xs
  any-sort_by p [] = refl
  any-sort_by p (x ∷ xs) = ground (arith, any-insert_by p x (sort_by xs), any-sort_by p xs)

  length-keep-insert_by :
      (p : A → Bool) (x : A) (xs : List A)
      → length (keep p (insert_by x xs)) ≡ length (keep p (x ∷ xs))
  length-keep-insert_by p x [] = refl
  length-keep-insert_by p x (y ∷ ys) = ground (arith, length-keep-insert_by p x ys)

  pub length-keep-sort_by :
      (p : A → Bool) (xs : List A) → length (keep p (sort_by xs)) ≡ length (keep p xs)
  length-keep-sort_by p [] = refl
  length-keep-sort_by p (x ∷ xs) =
      ground (arith, length-keep-insert_by p x (sort_by xs), length-keep-sort_by p xs)

pub length-keep_append {ℓ} :
    {A : Type ℓ} (p : A → Bool) (xs ys : List A)
    → length (keep p (xs ++ ys)) ≡ length (keep p xs) + length (keep p ys)
length-keep_append p [] ys = omega arith
length-keep_append p (x ∷ xs) ys = ground (arith, length-keep_append p xs ys)

pub any-keep {ℓ} :
    {A : Type ℓ} (f p : A → Bool) (xs : List A) → any f (keep p xs) ≡ any (λ x. p x && f x) xs
any-keep f p [] = refl
any-keep f p (x ∷ xs) = ground (arith, any-keep f p xs)

pub nonempty-keep {ℓ} : {A : Type ℓ} (p : A → Bool) (xs : List A) → nonempty (keep p xs) ≡ any p xs
nonempty-keep p [] = refl
nonempty-keep p (x ∷ xs) = ground (arith, nonempty-keep p xs)

-- Where nothing has one property, nothing has it and another.
pub any-both_none {ℓ} :
    {A : Type ℓ} (p q : A → Bool) (xs : List A)
    → any p xs ≡ false
    → any (λ x. p x && q x) xs ≡ false
any-both_none p q [] h = refl
any-both_none p q (x ∷ xs) h = let rest = any-both_none p q xs (ground arith) in ground arith

pub any-none :
    {E : Type 0} (bad : E → Bool) (Good : E → Type 0)
    → ((x : E) → bad x ≡ false → Good x)
    → (xs : List E) → any bad xs ≡ false
    → All Good xs
any-none bad Good each [] e = search
any-none bad Good each (x ∷ xs) e =
    let a : bad x ≡ false = ground arith in
    let b : any bad xs ≡ false = ground arith in (each x a, any-none bad Good each xs b)

pub none-any :
    {E : Type 0} (bad : E → Bool) (Good : E → Type 0)
    → ((x : E) → Good x → bad x ≡ false)
    → (xs : List E) → All Good xs
    → any bad xs ≡ false
none-any bad Good each [] g = refl
none-any bad Good each (x ∷ xs) (g, gs) = rw (each x g) (none-any bad Good each xs gs)
