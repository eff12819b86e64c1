-- ===== src/History/Subject.antt =====
-- src/sot_graph/outcome.py: what a commit's subject and body say. The regular expressions are
-- written out on code points; letters are compared as ASCII.
use sotgraph.Prelude.{
  ℕ, zero, suc, ◌-◌, Bool, true, false, not, ◌||◌, ◌&&◌, Option, none, some, List, [], ◌∷◌, ◌++◌,
  String, leb, ◌==◌, length, nonempty, any, if◌then◌else◌,
}
use sotgraph.Prelude.Text.{
  Text, codes, is_space, lower, drop_while, take_while, strip, strip_of, starts, ends,
}

-- What stands behind a literal, without regard to case.
abbrev pub after_word : Text → Text → Option Text
after_word s [] = some s
after_word [] (d ∷ ds) = none
after_word (c ∷ cs) (d ∷ ds) = if c == d then after_word cs ds else none

-- `\([^)]*\)`: what stands behind the first closing bracket
abbrev pub after_close : Text → Option Text
after_close [] = none
after_close (c ∷ cs) = if c == b')' then some cs else after_close cs

-- `!?:`, and what stands behind it
abbrev pub after_colon : Text → Option Text
after_colon [] = none
after_colon (c ∷ cs) =
    if c == b':'
    then some cs
    else if c == b'!'
    then elim cs [ [] ↦ none | d ∷ ds ↦ if d == b':' then some ds else none ]
    else none

-- `(?:\([^)]*\))?!?:`
abbrev pub after_scope : Text → Option Text
after_scope [] = none
after_scope (c ∷ cs) =
    if c == b'('
    then elim (after_close cs) [ none ↦ none | some rest ↦ after_colon rest ]
    else after_colon (c ∷ cs)

abbrev pub after_type : Text → String → Option Text
after_type s word = elim (after_word s (codes word)) [ none ↦ none | some rest ↦ after_scope rest ]

abbrev pub is_match : Option Text → Bool
is_match none = false
is_match (some _) = true

-- FIX_SUBJECT_RE on a lower-case subject
abbrev pub is_fix : Text → Bool
is_fix s =
    any (λ w. is_match (after_type s w)) ("fix" ∷ "fixup" ∷ "hotfix" ∷ "bugfix" ∷ "patch" ∷ [])
    || starts s (codes "fixup!")

-- `^revert\s+"`
abbrev pub opens_quote : Text → Option Text
opens_quote s = elim (after_word s (codes "revert")) [
  | none ↦ none
  | some rest ↦ elim rest [
    | [] ↦ none
    | c ∷ cs ↦ if is_space c then after_word (drop_while is_space cs) (codes "\"") else none
  ]
]

-- REVERT_SUBJECT_RE on a lower-case subject
abbrev pub is_revert : Text → Bool
is_revert s = is_match (after_type s "revert") || is_match (opens_quote s)

-- `classify_subject`; REVERT_QUOTED_RE matches no subject that REVERT_SUBJECT_RE does not.
unfoldable pub fix_tag : Text → Bool
fix_tag subject = is_fix (lower (strip subject))

unfoldable pub revert_tag : Text → Bool
revert_tag subject = is_revert (lower (strip subject))

-- `_norm_subject`: runs of white space become one space
abbrev pub squeeze : Text → Text
squeeze [] = []
squeeze (c ∷ cs) =
    let rest = squeeze cs in
    if is_space c
    then (elim rest [ [] ↦ b' ' ∷ [] | d ∷ ds ↦ if d == b' ' then d ∷ ds else b' ' ∷ d ∷ ds ])
    else c ∷ rest

abbrev pub norm_subject : Text → Text
norm_subject s = squeeze (strip s)

abbrev pub is_hex : ℕ → Bool
is_hex c = (leb b'0' c && leb c b'9') || (leb b'a' c && leb c b'f') || (leb b'A' c && leb c b'F')

abbrev pub is_word : ℕ → Bool
is_word c =
    (leb b'0' c && leb c b'9')
    || (leb b'a' c && leb c b'z')
    || (leb b'A' c && leb c b'Z')
    || c == b'_'

-- `[0-9a-fA-F]{7,40}\b`: the whole run of digits, which a letter may not follow
abbrev pub sha_at : Text → List Text
sha_at s =
    let run = take_while is_hex s in
    let ended : Bool = elim (drop_while is_hex s) [ [] ↦ true | c ∷ cs ↦ not (is_word c) ] in
    if leb 7 (length run) && leb (length run) 40 && ended then lower run ∷ [] else []

-- REVERTS_SHA_RE, at every position
abbrev pub shas_in : Text → List Text
shas_in [] = []
shas_in (c ∷ cs) =
    (elim (after_word (c ∷ cs) (codes "This reverts commit ")) [
      | none ↦ []
      | some rest ↦ sha_at rest
    ])
    ++ shas_in cs

abbrev pub drop_last : Text → Text
drop_last [] = []
drop_last (c ∷ []) = []
drop_last (c ∷ d ∷ cs) = c ∷ drop_last (d ∷ cs)

-- s[n:]
abbrev pub skip : ℕ → Text → Text
skip zero t = t
skip (suc n) [] = []
skip (suc n) (c ∷ cs) = skip n cs

-- REVERT_QUOTED_RE on a normalised subject, which ends in its quote
abbrev pub quoted : Text → List Text
quoted s =
    if is_match (after_word (lower s) (codes "revert \""))
      && ends s (codes "\"")
      && leb 10 (length s)
    then norm_subject (drop_last (skip 8 s)) ∷ []
    else []

-- The `revert(scope): <subject>` form: what stands behind the colon, or the whole subject.
abbrev pub tail_of : Text → Text
tail_of subject = elim (after_type (lower subject) "revert") [
  | none ↦ subject
  | some rest ↦ drop_while is_space (skip (length subject - length rest) subject)
]

abbrev pub named_tail : Text → List Text
named_tail subject =
    let tail = strip_of (λ c. c == b'"') (strip (tail_of subject)) in
    if nonempty tail then norm_subject tail ∷ [] else []

-- The subjects that a revert names.
unfoldable pub target_subjects : Text → List Text
target_subjects subject =
    let found = quoted (norm_subject subject) in
    if nonempty found then found else if is_revert (lower subject) then named_tail subject else []

-- `_revert_targets`: the sha prefixes and the subjects that a commit claims to undo.
unfoldable pub revert_targets : Text → Text → List Text × List Text
unfolding revert_tag target_subjects
revert_targets subject body =
    if revert_tag subject then (shas_in body, target_subjects subject) else ([], [])
