-- ===== src/Assurance/Identity/Providers.antt =====
-- src/sot_graph/assurance/identity.py: `from_provider_symbol`, and when symbols of two providers join.
use sotgraph.Prelude.{
  ℕ, ◌≡◌, refl, sym, ap, ◌∙◌, Bool, true, false, Option, none, some, List, [], ◌∷◌, ◌++◌, any,
  if◌then◌else◌, ◌⊎◌, Bool-cases, inl, inr, arith,
}
use sotgraph.Prelude.Text.{Text, codes, same, same-eq}
use sotgraph.Assurance.Identity.{Span, SymbolIdentity, identity_key, same_key}
use sotgraph.Assurance.Identity.Keys.{same_key-eq}
use sotgraph.Assurance.Identity.Paths.{normalize_repo_path}

abbrev pub scip : Text
scip = codes "scip"

abbrev pub codebase_memory : Text
codebase_memory = codes "codebase-memory"

abbrev pub sot_builtin : Text
sot_builtin = codes "sot-builtin"

abbrev pub provider_id_namespaces : List Text
provider_id_namespaces = scip ∷ codebase_memory ∷ sot_builtin ∷ []

-- The arguments of the call.
pub record Reported : Type 0 where
  pub repo_id : Text
  pub path : Option Text
  pub language : Text
  pub kind : Text
  pub qualified_name : Text
  pub span : Option Span
  pub provider : Text
  pub provider_symbol_id : Option Text

abbrev pub is_listed : Text → Bool
is_listed provider = any (same provider) provider_id_namespaces

unfoldable pub ns_id : Text → Option Text → Option Text
ns_id provider none = none
ns_id provider (some []) = none
ns_id provider (some (c ∷ cs)) =
    if is_listed provider then some (provider ++ (b':' ∷ c ∷ cs)) else some (c ∷ cs)

-- `x or "unknown"`
abbrev pub or_unknown : Text → Text
or_unknown [] = codes "unknown"
or_unknown (c ∷ cs) = c ∷ cs

unfoldable pub from_provider_symbol : Reported → SymbolIdentity
from_provider_symbol r = record {
  repo_id = r.repo_id;
  path = normalize_repo_path r.path;
  language = or_unknown r.language;
  kind = or_unknown r.kind;
  qualified_name = r.qualified_name;
  span = r.span;
  provider_symbol_id = ns_id r.provider r.provider_symbol_id;
}

listed-cases :
    (p : Text) → is_listed p ≡ true → (p ≡ scip) ⊎ ((p ≡ codebase_memory) ⊎ (p ≡ sot_builtin))
listed-cases p h = elim (Bool-cases (same p scip)) [
  | inl e ↦ inl (same-eq p scip e)
  | inr e ↦ elim (Bool-cases (same p codebase_memory)) [
    | inl f ↦ inr (inl (same-eq p codebase_memory f))
    | inr f ↦ inr (inr (same-eq p sot_builtin (ground arith)))
  ]
]

listed_apart :
    (p q i j : Text)
    → is_listed p ≡ true
    → is_listed q ≡ true
    → p ++ (b':' ∷ i) ≡ q ++ (b':' ∷ j)
    → (p ≡ q) × (i ≡ j)
listed_apart p q i j h k e = elim (listed-cases p h) [
  | inl a ↦ elim (listed-cases q k) [
    | inl b ↦ (let e' = rw (a, b) at e in (a ∙ sym b, ground arith))
    | inr (inl b) ↦ (let e' = rw (a, b) at e in absurd (ground arith))
    | inr (inr b) ↦ (let e' = rw (a, b) at e in absurd (ground arith))
  ]
  | inr (inl a) ↦ elim (listed-cases q k) [
    | inl b ↦ (let e' = rw (a, b) at e in absurd (ground arith))
    | inr (inl b) ↦ (let e' = rw (a, b) at e in (a ∙ sym b, ground arith))
    | inr (inr b) ↦ (let e' = rw (a, b) at e in absurd (ground arith))
  ]
  | inr (inr a) ↦ elim (listed-cases q k) [
    | inl b ↦ (let e' = rw (a, b) at e in absurd (ground arith))
    | inr (inl b) ↦ (let e' = rw (a, b) at e in absurd (ground arith))
    | inr (inr b) ↦ (let e' = rw (a, b) at e in (a ∙ sym b, ground arith))
  ]
]

same_key-id :
    (a b : SymbolIdentity)
    → same_key (identity_key a) (identity_key b) ≡ true
    → a.provider_symbol_id ≡ b.provider_symbol_id
unfolding identity_key
same_key-id a b h = ap (λ k. k.provider_symbol_id) (same_key-eq (identity_key a) (identity_key b) h)

ns_id-apart :
    (p q : Text) (c d : ℕ) (cs ds : Text)
    → is_listed p ≡ true
    → is_listed q ≡ true
    → ns_id p (some (c ∷ cs)) ≡ ns_id q (some (d ∷ ds))
    → (p ≡ q) × (c ∷ cs ≡ d ∷ ds)
unfolding ns_id
ns_id-apart p q c d cs ds h k e =
    let e' = rw (h, k) at e in listed_apart p q (c ∷ cs) (d ∷ ds) h k (ground arith)

ns_id_unlisted :
    (p q : Text) (id : Option Text)
    → is_listed p ≡ false
    → is_listed q ≡ false
    → ns_id p id ≡ ns_id q id
unfolding ns_id
ns_id_unlisted p q none h k = refl
ns_id_unlisted p q (some []) h k = refl
ns_id_unlisted p q (some (c ∷ cs)) h k = rw (h, k) refl

-- Two symbols that listed providers report under ids of their own have the same identity key only
-- if the provider is the same, and the id.
pub from_provider_symbol-apart :
    (r s : Reported) (c d : ℕ) (cs ds : Text)
    → r.provider_symbol_id ≡ some (c ∷ cs)
    → s.provider_symbol_id ≡ some (d ∷ ds)
    → is_listed r.provider ≡ true
    → is_listed s.provider ≡ true
    → same_key (identity_key (from_provider_symbol r)) (identity_key (from_provider_symbol s))
      ≡ true
    → (r.provider ≡ s.provider) × (r.provider_symbol_id ≡ s.provider_symbol_id)
unfolding from_provider_symbol
from_provider_symbol-apart r s c d cs ds e f h k j =
    let same_id = same_key-id (from_provider_symbol r) (from_provider_symbol s) j in
    let (p, i) =
      ns_id-apart r.provider s.provider c d cs ds h k
        (ap (ns_id r.provider) (sym e) ∙ same_id ∙ ap (ns_id s.provider) f) in
    (p, e ∙ ap some i ∙ sym f)

-- Two providers that are not listed get the same identity for a symbol that they report alike, under
-- ids that are equal and belong to different providers.
pub from_provider_symbol_unlisted :
    (r : Reported) (q : Text)
    → is_listed r.provider ≡ false
    → is_listed q ≡ false
    → from_provider_symbol r ≡ from_provider_symbol (record r { provider = q })
unfolding from_provider_symbol
from_provider_symbol_unlisted r q h k = λ i. record (from_provider_symbol r) {
  provider_symbol_id = ns_id_unlisted r.provider q r.provider_symbol_id h k i;
}
