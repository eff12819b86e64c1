-- ===== src/Assurance/Accounting/Registry.antt =====
-- What the registry of src/sot_graph/assurance/accounting.py guarantees.
use sotgraph.Prelude.{
  ℕ, zero, suc, ◌+◌, ◌<◌, ◌/◌, ◌%◌, ◌≡◌, ◌↔◌, refl, Bool, true, not, ◌||◌, ◌&&◌, Option, none, some,
  List, [], ◌∷◌, arith, nonempty, keep, All, if◌then◌else◌,
}
use sotgraph.Prelude.Text.{same-eq, Text}
use sotgraph.Assurance.Accounting.{
  LimitSite, transitive_source, is_digit, decimal_from, ledger_union_source, digits_end,
  digits_only, is_ledger_union_source, reason_code_for, is_accounted_source, ensure_accounted,
  is_registered, is_allowlisted, unregistered_limit_sites, or_zero,
}

-- Two sources never share a reason code.
pub reason-injective : (s t : Text) → reason_code_for s ≡ reason_code_for t → s ≡ t
unfolding reason_code_for
reason-injective s t h = ground (arith, same-eq s transitive_source, same-eq t transitive_source)

all_digits : Text → Bool
all_digits [] = true
all_digits (c ∷ cs) = is_digit c && all_digits cs

digits_end_of_all : (s : Text) → all_digits s ≡ true → digits_end s ≡ true
unfolding all_digits
digits_end_of_all [] h = refl
digits_end_of_all (c ∷ []) h = ground arith
digits_end_of_all (c ∷ d ∷ cs) h = ground (arith, digits_end_of_all (d ∷ cs))

digits_only-decimal_from :
    (f n : ℕ) (tail : Text)
    → n < f
    → all_digits tail ≡ true
    → digits_only (decimal_from f n tail) ≡ true
unfolding decimal_from all_digits
digits_only-decimal_from zero n tail h t = elim h [ ]
digits_only-decimal_from (suc f) n tail h t =
    ground
      (arith, digits_end_of_all tail, digits_only-decimal_from f (n / 10) ((48 + n % 10) ∷ tail))

is_union-ledger_union_source :
    (cap : Option ℕ) → is_ledger_union_source (ledger_union_source cap) ≡ true
unfolding is_ledger_union_source ledger_union_source all_digits
is_union-ledger_union_source cap =
    digits_only-decimal_from (suc (or_zero cap)) (or_zero cap) [] (omega arith) refl

or_true : (b : Bool) → (b || true) ≡ true
or_true b = ground arith

-- Every id that is built for an evidence-union cap is accepted, whatever the cap.
pub union-accounted : (cap : Option ℕ) → is_accounted_source (ledger_union_source cap) ≡ true
unfolding is_accounted_source
union-accounted cap = rw (is_union-ledger_union_source cap) (or_true _)

keep-nil_to :
    {A : Type 0} (p : A → Bool) (xs : List A)
    → keep (λ x. not (p x)) xs ≡ []
    → All (λ x. p x ≡ true) xs
keep-nil_to p [] e = tt
keep-nil_to p (x ∷ xs) e = ground (arith, keep-nil_to p xs)

keep-nil_of :
    {A : Type 0} (p : A → Bool) (xs : List A)
    → All (λ x. p x ≡ true) xs
    → keep (λ x. not (p x)) xs ≡ []
keep-nil_of p [] h = refl
keep-nil_of p (x ∷ xs) h = ground (arith, keep-nil_of p xs)

if-nonempty-none :
    {A : Type 0} (xs : List A) → (if nonempty xs then some xs else none) ≡ none → xs ≡ []
if-nonempty-none [] e = refl
if-nonempty-none (x ∷ xs) e = cc

-- The receipt is built exactly when every truncation source is registered.
pub ensure-accounted_iff :
    (sources : List Text)
    → (ensure_accounted sources ≡ none) ↔ All (λ s. is_accounted_source s ≡ true) sources
unfolding ensure_accounted
ensure-accounted_iff sources = (
  λ e. keep-nil_to is_accounted_source sources (if-nonempty-none _ e),
  λ h. rw (keep-nil_of is_accounted_source sources h),
)

module _ {A : Type 0} (p q : A → Bool) where
  covered_to :
      (xs : List A) → keep (λ x. not (p x) && not (q x)) xs ≡ [] → All (λ x. (p x || q x) ≡ true) xs
  covered_to [] e = tt
  covered_to (x ∷ xs) e = ground (arith, covered_to xs)

  covered_of :
      (xs : List A) → All (λ x. (p x || q x) ≡ true) xs → keep (λ x. not (p x) && not (q x)) xs ≡ []
  covered_of [] h = refl
  covered_of (x ∷ xs) h = ground (arith, covered_of xs)

-- The sweep reports nothing exactly when each of its sites is owned by a registered collector or
-- by an allowlisted one.
pub unregistered-nil_iff :
    (sweep : List LimitSite)
    → (unregistered_limit_sites sweep ≡ [])
      ↔ All (λ l. (is_registered l || is_allowlisted l) ≡ true) sweep
unfolding unregistered_limit_sites
unregistered-nil_iff sweep =
    (covered_to is_registered is_allowlisted sweep, covered_of is_registered is_allowlisted sweep)
