-- ===== src/History/Outcome/Counted.antt =====
-- How many elements of a list are such.
use sotgraph.Prelude.{
  ℕ, zero, suc, ◌≡◌, ◌↔◌, refl, ap, Bool, true, false, ◌&&◌, List, [], ◌∷◌, length, keep, any, All,
  any-none, none-any, Bool-cases, inl, inr, arith,
}

pub data Counted {E : Type 0} (P : E → Type 0) : List E → ℕ → Type 0 where
  nothing : Counted P [] zero
  hit : (x : E) (xs : List E) (n : ℕ) → P x → Counted P xs n → Counted P (x ∷ xs) (suc n)
  miss : (x : E) (xs : List E) (n : ℕ) → ¬ P x → Counted P xs n → Counted P (x ∷ xs) n

pub keep-keep :
    {E : Type 0} (p q : E → Bool) (xs : List E) → keep p (keep q xs) ≡ keep (λ x. q x && p x) xs
keep-keep p q [] = refl
keep-keep p q (x ∷ xs) = elim (Bool-cases (q x)) [
  | inr e ↦ rw (e) (keep-keep p q xs)
  | inl e ↦ rw (e, keep-keep p q xs) refl
]

module _ {E : Type 0} (p : E → Bool) (P : E → Type 0) (decides : (x : E) → (p x ≡ true) ↔ P x) where
  refuted : (x : E) → p x ≡ false → ¬ P x
  refuted x e h = let k = (decides x).1 h in ground arith

  denied : (x : E) → ¬ P x → p x ≡ false
  denied x n = elim (Bool-cases (p x)) [ inl e ↦ absurd (n ((decides x).0 e)) | inr e ↦ e ]

  pub any-none_iff : (xs : List E) → (any p xs ≡ false) ↔ All (λ x. ¬ P x) xs
  any-none_iff xs = (any-none p (λ x. ¬ P x) refuted xs, none-any p (λ x. ¬ P x) denied xs)

  pub keep-Counted : (xs : List E) → Counted P xs (length (keep p xs))
  keep-Counted [] = nothing
  keep-Counted (x ∷ xs) = elim (Bool-cases (p x)) [
    | inl e ↦ rw e (hit x xs (length (keep p xs)) ((decides x).0 e) (keep-Counted xs))
    | inr e ↦ rw e (miss x xs (length (keep p xs)) (refuted x e) (keep-Counted xs))
  ]

  pub Counted-keep : (xs : List E) (n : ℕ) → Counted P xs n → length (keep p xs) ≡ n
  Counted-keep _ _ nothing = refl
  Counted-keep _ _ (hit x xs n h c) = rw ((decides x).1 h) (ap suc (Counted-keep xs n c))
  Counted-keep _ _ (miss x xs n h c) = rw (denied x h) (Counted-keep xs n c)
