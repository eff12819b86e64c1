-- ===== src/History/Commit.antt =====
-- src/sot_graph/outcome.py: commits and the links between two of them. A time stamp is the epoch
-- second, which is not negative.
use sotgraph.Prelude.{
  ℕ, ◌*◌, Bool, true, false, not, ◌||◌, ◌&&◌, List, [], ◌∷◌, ◌++◌, String, str_eq, leb, ltb, ◌==◌,
  length, nonempty, keep, any, if◌then◌else◌,
}
use sotgraph.Prelude.Text.{Text, text_before, codes, lower, same, starts, ends}
use sotgraph.History.Subject.{revert_targets, norm_subject}

pub record CommitRecord : Type 0 where
  pub sha : String
  pub timestamp : ℕ
  pub subject : Text
  pub body : Text
  pub files : List String
  pub risk_level : String

-- The components of a path.
abbrev pub split_slash : Text → List Text
split_slash [] = [] ∷ []
split_slash (c ∷ cs) =
    let rest = split_slash cs in
    if c == b'/'
    then [] ∷ rest
    else elim rest [ [] ↦ (c ∷ []) ∷ [] | part ∷ parts ↦ (c ∷ part) ∷ parts ]

abbrev pub is_one_of : List String → Text → Bool
is_one_of words t = any (λ w. same t (codes w)) words

abbrev pub meta_dirs : List String
meta_dirs = "doc" ∷ "docs" ∷ ".github" ∷ ".devin" ∷ ".claude" ∷ ".agents" ∷ ".windsurf" ∷ []

abbrev pub meta_suffixes : List String
meta_suffixes = ".md" ∷ ".rst" ∷ ".txt" ∷ ".adoc" ∷ []

abbrev pub meta_names : List String
meta_names =
    "changelog" ∷ "changes" ∷ "history" ∷ "license" ∷ "notice" ∷ "codeowners" ∷ "contributing"
    ∷ "authors" ∷ "release_notes" ∷ []

abbrev pub lockfiles : List String
lockfiles =
    "uv.lock" ∷ "package-lock.json" ∷ "poetry.lock" ∷ "pipfile.lock" ∷ "cargo.lock" ∷ "go.sum"
    ∷ "yarn.lock" ∷ "pnpm-lock.yaml" ∷ "composer.lock" ∷ "gemfile.lock" ∷ []

-- A directory of the list, or a last component that names meta data.
abbrev pub meta_parts : List Text → Bool
meta_parts [] = false
meta_parts (p ∷ []) = any (λ w. starts p (codes w)) meta_names || is_one_of lockfiles p
meta_parts (p ∷ q ∷ rest) = is_one_of meta_dirs p || meta_parts (q ∷ rest)

-- _META_PATH_RE
unfoldable pub is_meta_path : String → Bool
is_meta_path path =
    let p = lower (codes path) in
    meta_parts (split_slash p) || any (λ w. ends p (codes w)) meta_suffixes

unfoldable pub code_files : List String → List String
unfolding is_meta_path
code_files files = keep (λ f. not (is_meta_path f)) files

abbrev pub member : String → List String → Bool
member s = any (str_eq s)

-- `set(xs)`, in the order of the last occurrences
abbrev pub distinct : List String → List String
distinct [] = []
distinct (x ∷ xs) = let rest = distinct xs in if member x xs then rest else x ∷ rest

abbrev pub insert_name : String → List String → List String
insert_name x [] = x ∷ []
insert_name x (y ∷ ys) =
    let rest = insert_name x ys in if text_before y x then y ∷ rest else x ∷ y ∷ ys

-- `sorted` of names that are distinct
abbrev pub sort_names : List String → List String
sort_names [] = []
sort_names (x ∷ xs) = insert_name x (sort_names xs)

-- The code files that two commits share.
unfoldable pub shared_files : CommitRecord → CommitRecord → List String
unfolding code_files
shared_files a b =
    sort_names (keep (λ f. member f (code_files b.files)) (distinct (code_files a.files)))

-- `_jaccard(a, b) >= 0.34`: the quotient of two counts against 34 / 100
abbrev pub jaccard_34 : List String → List String → Bool
jaccard_34 a b =
    let both = length (keep (λ f. member f b) (distinct a)) in
    let union = length (distinct (a ++ b)) in ltb 0 union && leb (34 * union) (100 * both)

unfoldable pub is_fixup_link : CommitRecord → CommitRecord → List String → Bool
unfolding code_files
is_fixup_link cur later shared =
    if leb 2 (length shared)
    then true
    else nonempty shared && jaccard_34 (code_files cur.files) (code_files later.files)

-- `t_sha.startswith(p) or p.startswith(t_sha)` for a prefix of the list
abbrev pub sha_hit : Text → List Text → Bool
sha_hit t = any (λ p. starts t p || starts p t)

abbrev pub subject_hit : Text → List Text → Bool
subject_hit t = any (λ s. same t s || starts t s)

-- `_revert_hit` of the targets of a later commit; no targets make no hit.
unfoldable pub revert_hit : CommitRecord → CommitRecord → Bool
unfolding revert_targets
revert_hit target later =
    let (shas, subjects) = revert_targets later.subject later.body in
    sha_hit (lower (codes target.sha)) shas || subject_hit (norm_subject target.subject) subjects
