-- ===== src/History/Outcome/Decided.antt =====
-- The tests of src/sot_graph/outcome.py on two commits decide what links them.
use sotgraph.Prelude.{
  ℕ, ◌-◌, ◌*◌, ◌≡◌, ◌↔◌, ◌⊎◌, ◌∙◌, refl, sym, ap, subst, Bool, true, false, not, ◌||◌, Option, none,
  some, List, [], ◌∷◌, ◌++◌, String, arith, leb, leb→le, le→leb, nonempty, any, ◌==◌, equal_numbers,
  Bool-cases, inl, inr,
}
use mathlib.Core.List.{append-nil}
use sotgraph.Prelude.Strip.{both}
use sotgraph.Prelude.Options.{some_injective}
use sotgraph.Prelude.Text.{Text, codes, lower, same, same-eq, starts}
use sotgraph.History.Subject.{revert_targets, norm_subject, fix_tag, revert_tag}
use sotgraph.History.Commit.{CommitRecord, shared_files, is_fixup_link, sha_hit, revert_hit}
use sotgraph.History.Outcome.{is_fixup, is_retouch, in_window, verified}
use sotgraph.History.Outcome.Links.{IsPrefix, Any, IsRevert, IsWithin, IsRepair, IsTouch}
use sotgraph.History.Outcome.Shared.{or_true, shared-SharesCode, link-IsLinked}

starts-IsPrefix : (t p : Text) → starts t p ≡ true → IsPrefix p t
starts-IsPrefix t [] h = (t, refl)
starts-IsPrefix [] (d ∷ ds) h = ground arith
starts-IsPrefix (c ∷ cs) (d ∷ ds) h =
    let (e, more) = both (c == d) (starts cs ds) h in
    let (rest, k) = starts-IsPrefix cs ds more in
    (rest, ap (λ x. x ∷ cs) (equal_numbers c d e) ∙ ap (λ x. d ∷ x) k)

starts-append : (p rest : Text) → starts (p ++ rest) p ≡ true
starts-append [] rest = refl
starts-append (c ∷ cs) rest = let ih = starts-append cs rest in ground arith

IsPrefix-starts : (t p : Text) → IsPrefix p t → starts t p ≡ true
IsPrefix-starts t p (rest, e) = rw e (starts-append p rest)

any-Any :
    {E : Type 0} (p : E → Bool) (P : E → Type 0)
    → ((x : E) → p x ≡ true → P x)
    → (xs : List E) → any p xs ≡ true
    → Any P xs
any-Any p P each [] h = ground arith
any-Any p P each (x ∷ xs) h = elim (Bool-cases (p x)) [
  | inl e ↦ inl (each x e)
  | inr e ↦ inr (any-Any p P each xs (ground arith))
]

Any-any :
    {E : Type 0} (p : E → Bool) (P : E → Type 0)
    → ((x : E) → P x → p x ≡ true)
    → (xs : List E) → Any P xs
    → any p xs ≡ true
Any-any p P each [] h = absurd h
Any-any p P each (x ∷ xs) (inl h) = let e = each x h in ground arith
Any-any p P each (x ∷ xs) (inr h) = let e = Any-any p P each xs h in ground arith

from_not : (b : Bool) → not b ≡ true → b ≡ false
from_not b e = ground arith

other_true : (a b : Bool) → (a || b) ≡ true → a ≡ false → b ≡ true
other_true a b h e = ground arith

from_sha : (t p : Text) → (starts t p || starts p t) ≡ true → IsPrefix p t ⊎ IsPrefix t p
from_sha t p h = elim (Bool-cases (starts t p)) [
  | inl e ↦ inl (starts-IsPrefix t p e)
  | inr e ↦ inr (starts-IsPrefix p t (other_true _ _ h e))
]

to_sha : (t p : Text) → IsPrefix p t ⊎ IsPrefix t p → (starts t p || starts p t) ≡ true
to_sha t p (inl a) = or_true _ _ (inl (IsPrefix-starts t p a))
to_sha t p (inr a) = or_true _ _ (inr (IsPrefix-starts p t a))

from_subject : (t s : Text) → (same t s || starts t s) ≡ true → IsPrefix s t
from_subject t s h = elim (Bool-cases (same t s)) [
  | inl e ↦ ([], same-eq t s e ∙ sym (append-nil s))
  | inr e ↦ starts-IsPrefix t s (other_true _ _ h e)
]

to_subject : (t s : Text) → IsPrefix s t → (same t s || starts t s) ≡ true
to_subject t s a = or_true _ _ (inr (IsPrefix-starts t s a))

pub hit-IsRevert : (cur d : CommitRecord) → (revert_hit cur d ≡ true) ↔ IsRevert cur d
unfolding revert_hit
hit-IsRevert cur d = (
  λ h. elim (Bool-cases (sha_hit (lower (codes cur.sha)) (revert_targets d.subject d.body).0)) [
    | inl e ↦ inl (any-Any _ _ (λ p k. from_sha (lower (codes cur.sha)) p k) _ e)
    | inr e ↦
        inr
          (any-Any _ _ (λ s k. from_subject (norm_subject cur.subject) s k) _ (other_true _ _ h e))
  ],
  λ r. or_true _ _ (elim r [
    | inl a ↦ inl (Any-any _ _ (λ p k. to_sha (lower (codes cur.sha)) p k) _ a)
    | inr a ↦ inr (Any-any _ _ (λ s k. to_subject (norm_subject cur.subject) s k) _ a)
  ]),
)

pub window-IsWithin :
    (verify : Option (CommitRecord → CommitRecord → List String → Bool))
    (days retouch_min newest_ts : ℕ) (cur d : CommitRecord)
    → (in_window verify days retouch_min newest_ts cur d ≡ true) ↔ IsWithin days cur d
window-IsWithin verify days retouch_min newest_ts cur d = (
  λ h.
      let (a, b) = both (leb cur.timestamp d.timestamp) _ h in
      let low = leb→le cur.timestamp d.timestamp a in
      let high = leb→le (d.timestamp - cur.timestamp) (days * 86400) b in (low, omega arith),
  λ w.
      let low = le→leb cur.timestamp d.timestamp w.0 in
      let high = le→leb (d.timestamp - cur.timestamp) (days * 86400) (omega (arith, w.0, w.1)) in
      rw (low, high) refl,
)

verified-confirmed :
    (verify : Option (CommitRecord → CommitRecord → List String → Bool)) (cur d : CommitRecord)
    → (verified verify cur d ≡ true) ↔ (
        (f : CommitRecord → CommitRecord → List String → Bool)
        → verify ≡ some f
        → f cur d (shared_files cur d) ≡ true)
verified-confirmed none cur d = ((λ h f e. ground arith), (λ k. refl))
verified-confirmed (some g) cur d = (
  λ h f e. subst (λ x. x cur d (shared_files cur d) ≡ true) (some_injective g f e) h,
  λ k. k g refl,
)

module _ (verify : Option (CommitRecord → CommitRecord → List String → Bool)) where
  pub fixup-IsRepair :
      (cur d : CommitRecord) → (is_fixup verify cur d ≡ true) ↔ IsRepair verify cur d
  unfolding is_fixup
  fixup-IsRepair cur d = (
    λ h.
        let (abcd, e) = both _ (verified verify cur d) h in
        let (abc, l) = both _ (is_fixup_link cur d (shared_files cur d)) abcd in
        let (ab, c) = both _ (fix_tag d.subject) abc in
        let (a, b) = both (nonempty (shared_files cur d)) (not (revert_tag d.subject)) ab in
        let s = (shared-SharesCode cur d).0 a in
        record {
          shares = s;
          no_revert = from_not _ b;
          fixes = c;
          linked = (link-IsLinked cur d s).0 l;
          confirmed = (verified-confirmed verify cur d).0 e;
        },
    λ g.
        rw
          (
            (shared-SharesCode cur d).1 g.shares,
            g.no_revert,
            g.fixes,
            (link-IsLinked cur d g.shares).1 g.linked,
            (verified-confirmed verify cur d).1 g.confirmed,
          )
          refl,
  )

  pub retouch-IsTouch : (cur d : CommitRecord) → (is_retouch verify cur d ≡ true) ↔ IsTouch cur d
  unfolding is_retouch
  retouch-IsTouch cur d = (
    λ h.
        let (ab, c) = both _ (not (fix_tag d.subject)) h in
        let (a, b) = both (nonempty (shared_files cur d)) (not (revert_tag d.subject)) ab in
        record {
          shares = (shared-SharesCode cur d).0 a;
          no_revert = from_not _ b;
          no_fix = from_not _ c;
        },
    λ g. rw ((shared-SharesCode cur d).1 g.shares, g.no_revert, g.no_fix) refl,
  )
