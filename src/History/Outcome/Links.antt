-- ===== src/History/Outcome/Links.antt =====
-- What links a commit to a later one (src/sot_graph/outcome.py), said of their texts, files and times
-- without the tests of the code.
use sotgraph.Prelude.{
  ℕ, ◌+◌, ◌*◌, ◌≤◌, ◌≡◌, ◌⊎◌, Bool, true, false, Option, some, List, [], ◌∷◌, ◌++◌, String, length,
  keep,
}
use sotgraph.Prelude.Text.{Text, codes, lower}
use sotgraph.History.Subject.{revert_targets, norm_subject, fix_tag, revert_tag}
use sotgraph.History.Commit.{CommitRecord, code_files, shared_files, distinct, member, is_meta_path}

-- The one text begins with the other.
abbrev pub IsPrefix : Text → Text → Type 0
IsPrefix p t = (rest : Text) × (t ≡ p ++ rest)

-- Some element of the list is such.
abbrev pub Any : {E : Type 0} → (E → Type 0) → List E → Type 0
Any P [] = ⊥
Any P (x ∷ xs) = P x ⊎ Any P xs

-- A later commit that undoes this one: it names a prefix of its sha, or more than its sha, or the
-- beginning of its subject.
abbrev pub IsRevert : CommitRecord → CommitRecord → Type 0
IsRevert cur d =
    Any (λ p. IsPrefix p (lower (codes cur.sha)) ⊎ IsPrefix (lower (codes cur.sha)) p)
      (revert_targets d.subject d.body).0
    ⊎ Any (λ s. IsPrefix s (norm_subject cur.subject)) (revert_targets d.subject d.body).1

abbrev pub IsWithin : ℕ → CommitRecord → CommitRecord → Type 0
IsWithin days cur d = (cur.timestamp ≤ d.timestamp) × (d.timestamp ≤ cur.timestamp + days * 86400)

-- Both commits change a file that holds more than meta data.
abbrev pub SharesCode : CommitRecord → CommitRecord → Type 0
SharesCode cur d =
    (f : String) × (member f cur.files ≡ true)
    × (member f d.files ≡ true)
    × (is_meta_path f ≡ false)

-- At least 34 of 100 of the code files of the two commits are common to them.
abbrev pub IsClose : CommitRecord → CommitRecord → Type 0
IsClose cur d =
    34 * length (distinct (code_files cur.files ++ code_files d.files))
    ≤ 100 * length (keep (λ f. member f (code_files d.files)) (distinct (code_files cur.files)))

module _ (verify : Option (CommitRecord → CommitRecord → List String → Bool)) where
  pub record IsRepair (cur d : CommitRecord) : Type 0 where
    pub shares : SharesCode cur d
    pub no_revert : revert_tag d.subject ≡ false
    pub fixes : fix_tag d.subject ≡ true
    pub linked : (2 ≤ length (shared_files cur d)) ⊎ IsClose cur d
    pub confirmed :
        (f : CommitRecord → CommitRecord → List String → Bool)
        → verify ≡ some f
        → f cur d (shared_files cur d) ≡ true

-- A later commit that changes the same code, to neither repair nor revert it.
pub record IsTouch (cur d : CommitRecord) : Type 0 where
  pub shares : SharesCode cur d
  pub no_revert : revert_tag d.subject ≡ false
  pub no_fix : fix_tag d.subject ≡ false
