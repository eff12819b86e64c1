-- ===== src/Assurance/Identity/Keys.antt =====
-- What is left by `dedup_by_identity` (src/sot_graph/assurance/identity.py).
use sotgraph.Prelude.{
  ℕ, ◌≡◌, refl, sym, ap, subst, Bool, true, false, Option, none, some, List, [], ◌∷◌, any, keep,
  length, if◌then◌else◌, Bool-cases, inl, inr, arith,
}
use sotgraph.Prelude.Text.{Text, same-eq, same_refl}
use sotgraph.Assurance.Identity.{
  Span, SymbolIdentity, Key, identity_key, same_text, same_line, same_span, same_key, dedup,
  dedup_by_identity,
}

pub same_text-eq : (a b : Option Text) → same_text a b ≡ true → a ≡ b
same_text-eq none none h = refl
same_text-eq none (some b) h = cc
same_text-eq (some a) none h = cc
same_text-eq (some a) (some b) h = ap some (same-eq a b h)

pub same_line-eq : (a b : Option ℕ) → same_line a b ≡ true → a ≡ b
same_line-eq none none h = refl
same_line-eq none (some b) h = cc
same_line-eq (some a) none h = cc
same_line-eq (some a) (some b) h = ground arith

same_span-eq : (a b : Option Span) → same_span a b ≡ true → a ≡ b
same_span-eq none none h = refl
same_span-eq none (some b) h = cc
same_span-eq (some a) none h = cc
same_span-eq (some a) (some b) h =
    let s = same_line-eq a.start_line b.start_line (ground arith) in
    let e = same_line-eq a.end_line b.end_line (ground arith) in
    let c = same_line-eq a.start_column b.start_column (ground arith) in
    let d = same_line-eq a.end_column b.end_column (ground arith) in
    λ i. some (record { start_line = s i; end_line = e i; start_column = c i; end_column = d i })

-- Keys that compare equal are equal.
pub same_key-eq : (a b : Key) → same_key a b ≡ true → a ≡ b
unfolding same_key
same_key-eq a b h =
    let r = same-eq a.repo_id b.repo_id (ground arith) in
    let p = same_text-eq a.path b.path (ground arith) in
    let l = same-eq a.language b.language (ground arith) in
    let k = same-eq a.kind b.kind (ground arith) in
    let q = same-eq a.qualified_name b.qualified_name (ground arith) in
    let s = same_span-eq a.span b.span (ground arith) in
    let n = same_text-eq a.provider_symbol_id b.provider_symbol_id (ground arith) in
    λ i. record {
      repo_id = r i;
      path = p i;
      language = l i;
      kind = k i;
      qualified_name = q i;
      span = s i;
      provider_symbol_id = n i;
    }

same_text_refl : (a : Option Text) → same_text a a ≡ true
same_text_refl none = refl
same_text_refl (some a) = same_refl a

pub same_line_refl : (a : Option ℕ) → same_line a a ≡ true
same_line_refl none = refl
same_line_refl (some a) = ground arith

same_span_refl : (a : Option Span) → same_span a a ≡ true
same_span_refl none = refl
same_span_refl (some a) = ground (
  arith,
  same_line_refl a.start_line,
  same_line_refl a.end_line,
  same_line_refl a.start_column,
  same_line_refl a.end_column,
)

pub same_key_refl : (a : Key) → same_key a a ≡ true
unfolding same_key
same_key_refl a = ground (
  arith,
  same_refl a.repo_id,
  same_text_refl a.path,
  same_refl a.language,
  same_refl a.kind,
  same_refl a.qualified_name,
  same_span_refl a.span,
  same_text_refl a.provider_symbol_id,
)

-- The first item with a key.
abbrev pub first_with : Key → List SymbolIdentity → Option SymbolIdentity
first_with k [] = none
first_with k (item ∷ items) =
    let rest = first_with k items in if same_key k (identity_key item) then some item else rest

-- How many of the items have a key.
abbrev pub count_with : Key → List SymbolIdentity → ℕ
count_with k items = length (keep (λ item. same_key k (identity_key item)) items)

-- A key that equals another is seen where the other is.
seen-same :
    (k j : Key) (seen : List Key) (b : Bool)
    → same_key k j ≡ true
    → any (same_key j) seen ≡ b
    → any (same_key k) seen ≡ b
seen-same k j seen b e h = subst (λ x. any (same_key x) seen ≡ b) (sym (same_key-eq k j e)) h

first-dedup :
    (k : Key) (seen : List Key) (items : List SymbolIdentity)
    → first_with k (dedup seen items) ≡ (if any (same_key k) seen then none else first_with k items)
unfolding dedup
first-dedup k seen [] = ground arith
first-dedup k seen (item ∷ items) = elim (Bool-cases (any (same_key (identity_key item)) seen)) [
  | inl e ↦ rw e (elim (Bool-cases (same_key k (identity_key item))) [
    | inl s ↦
        (let m = seen-same k (identity_key item) seen true s e in
          ground (arith, first-dedup k seen items))
    | inr s ↦ ground (arith, first-dedup k seen items)
  ])
  | inr e ↦ rw e (elim (Bool-cases (same_key k (identity_key item))) [
    | inl s ↦ (let m = seen-same k (identity_key item) seen false s e in ground arith)
    | inr s ↦ ground (arith, first-dedup k (identity_key item ∷ seen) items)
  ])
]

count-dedup :
    (k : Key) (seen : List Key) (items : List SymbolIdentity)
    → count_with k (dedup seen items) ≡ (
        if any (same_key k) seen
        then 0
        else if any (λ item. same_key k (identity_key item)) items
        then 1
        else 0)
unfolding dedup
count-dedup k seen [] = ground arith
count-dedup k seen (item ∷ items) = elim (Bool-cases (any (same_key (identity_key item)) seen)) [
  | inl e ↦ rw e (elim (Bool-cases (same_key k (identity_key item))) [
    | inl s ↦
        (let m = seen-same k (identity_key item) seen true s e in
          ground (arith, count-dedup k seen items))
    | inr s ↦ ground (arith, count-dedup k seen items)
  ])
  | inr e ↦ rw e (elim (Bool-cases (same_key k (identity_key item))) [
    | inl s ↦
        (let m = seen-same k (identity_key item) seen false s e in
          ground (arith, count-dedup k (identity_key item ∷ seen) items))
    | inr s ↦ ground (arith, count-dedup k (identity_key item ∷ seen) items)
  ])
]

-- Of the items with one key the first is kept and no other, whatever their names: each key of the
-- list is there exactly once.
pub dedup-first_once :
    (items : List SymbolIdentity) (k : Key)
    → (first_with k (dedup_by_identity items) ≡ first_with k items)
      × (count_with k (dedup_by_identity items)
          ≡ (if any (λ item. same_key k (identity_key item)) items then 1 else 0))
unfolding dedup_by_identity
dedup-first_once items k = (first-dedup k [] items, count-dedup k [] items)
