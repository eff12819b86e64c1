-- ===== src/Assurance/Identity.antt =====
-- src/sot_graph/assurance/identity.py: the identity of a symbol, its key, and the removal of duplicates.
pub mod Paths
pub mod Keys
pub mod Providers
mod Tests
use sotgraph.Prelude.{
  ℕ, suc, Bool, true, false, not, ◌&&◌, ◌||◌, Option, none, some, is_some, List, [], ◌∷◌, ◌++◌, map,
  ◌==◌, any, if◌then◌else◌,
}
use sotgraph.Prelude.Text.{Text, codes, same, starts, ends, lower}

pub record Span : Type 0 where
  pub start_line : Option ℕ
  pub end_line : Option ℕ
  pub start_column : Option ℕ
  pub end_column : Option ℕ

pub record SymbolIdentity : Type 0 where
  pub repo_id : Text
  pub path : Option Text
  pub language : Text
  pub kind : Text
  pub qualified_name : Text
  pub span : Option Span
  pub provider_symbol_id : Option Text

-- The identity tuple.
pub record Key : Type 0 where
  pub repo_id : Text
  pub path : Option Text
  pub language : Text
  pub kind : Text
  pub qualified_name : Text
  pub span : Option Span
  pub provider_symbol_id : Option Text

-- A span without a start line is falsy.
abbrev pub known_span : Option Span → Option Span
known_span none = none
known_span (some s) = if is_some s.start_line then some s else none

unfoldable pub identity_key : SymbolIdentity → Key
identity_key i = record {
  repo_id = i.repo_id;
  path = i.path;
  language = i.language;
  kind = i.kind;
  qualified_name = i.qualified_name;
  span = known_span i.span;
  provider_symbol_id = i.provider_symbol_id;
}

abbrev pub same_text : Option Text → Option Text → Bool
same_text none none = true
same_text none (some b) = false
same_text (some a) none = false
same_text (some a) (some b) = same a b

abbrev pub same_line : Option ℕ → Option ℕ → Bool
same_line none none = true
same_line none (some b) = false
same_line (some a) none = false
same_line (some a) (some b) = a == b

abbrev pub same_span : Option Span → Option Span → Bool
same_span none none = true
same_span none (some b) = false
same_span (some a) none = false
same_span (some a) (some b) =
    same_line a.start_line b.start_line
    && same_line a.end_line b.end_line
    && same_line a.start_column b.start_column
    && same_line a.end_column b.end_column

-- The equality of tuples
unfoldable pub same_key : Key → Key → Bool
same_key a b =
    same a.repo_id b.repo_id
    && same_text a.path b.path
    && same a.language b.language
    && same a.kind b.kind
    && same a.qualified_name b.qualified_name
    && same_span a.span b.span
    && same_text a.provider_symbol_id b.provider_symbol_id

-- The loop over the items, with the keys that were seen.
unfoldable pub dedup : List Key → List SymbolIdentity → List SymbolIdentity
dedup seen [] = []
dedup seen (item ∷ items) =
    let rest = dedup seen items in
    let more = dedup (identity_key item ∷ seen) items in
    if any (same_key (identity_key item)) seen then rest else item ∷ more

unfoldable pub dedup_by_identity : List SymbolIdentity → List SymbolIdentity
dedup_by_identity items = dedup [] items

abbrev pub language_by_suffix : List (Text × Text)
language_by_suffix =
    (codes ".py", codes "python")
    ∷ (codes ".ts", codes "typescript")
    ∷ (codes ".tsx", codes "tsx")
    ∷ (codes ".js", codes "javascript")
    ∷ (codes ".jsx", codes "jsx")
    ∷ (codes ".go", codes "go")
    ∷ (codes ".rs", codes "rust")
    ∷ (codes ".java", codes "java")
    ∷ (codes ".kt", codes "kotlin")
    ∷ (codes ".swift", codes "swift")
    ∷ (codes ".rb", codes "ruby")
    ∷ (codes ".php", codes "php")
    ∷ (codes ".cs", codes "c_sharp")
    ∷ (codes ".c", codes "c")
    ∷ (codes ".h", codes "c")
    ∷ (codes ".cpp", codes "cpp")
    ∷ []

abbrev first_suffix : Text → List (Text × Text) → Text
first_suffix low [] = codes "unknown"
first_suffix low (p ∷ ps) = let rest = first_suffix low ps in if ends low p.0 then p.1 else rest

unfoldable pub language_of : Text → Text
language_of path = first_suffix (lower path) language_by_suffix
