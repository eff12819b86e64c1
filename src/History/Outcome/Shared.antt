-- ===== src/History/Outcome/Shared.antt =====
-- The code files that two commits share (`_shared_files` and `_is_fixup_link` of src/sot_graph/outcome.py).
use sotgraph.Prelude.{
  ◌≤◌, ◌<◌, ◌≡◌, ◌↔◌, ◌⊎◌, ◌∙◌, refl, sym, ap, subst, Bool, true, not, ◌||◌, ◌&&◌, List, [], ◌∷◌,
  ◌++◌, String, str_eq, str_eq_refl, eq_iff, arith, leb, leb→le, le→leb, lt→ltb, nonempty,
  nonempty-keep, length, keep, any, any-append, Bool-cases, inl, inr,
}
use sotgraph.Prelude.Strip.{both}
use sotgraph.Prelude.Text.{text_before}
use sotgraph.History.Commit.{
  CommitRecord, code_files, shared_files, sort_names, insert_name, distinct, member, is_meta_path,
  is_fixup_link,
}
use sotgraph.History.Outcome.Links.{SharesCode, IsClose}

pub or_true : (a b : Bool) → (a ≡ true) ⊎ (b ≡ true) → (a || b) ≡ true
or_true a b (inl e) = rw e refl
or_true a b (inr e) = ground arith

member-distinct : (f : String) (xs : List String) → member f (distinct xs) ≡ member f xs
member-distinct f [] = refl
member-distinct f (x ∷ xs) = elim (Bool-cases (member x xs)) [
  | inr e ↦ rw (e, member-distinct f xs) refl
  | inl e ↦ elim (Bool-cases (str_eq f x)) [
    | inr k ↦ rw (e, k, member-distinct f xs) refl
    | inl k ↦
        rw (e, k, member-distinct f xs) (subst (λ y. member y xs ≡ true) (sym ((eq_iff f x).0 k)) e)
  ]
]

member-keep :
    (p : String → Bool) (f : String) (xs : List String)
    → member f (keep p xs) ≡ (member f xs && p f)
member-keep p f [] = refl
member-keep p f (x ∷ xs) = elim (Bool-cases (str_eq f x)) [
  | inl k ↦
      (let same_p : p f ≡ p x = ap p ((eq_iff f x).0 k) in
        let ih = member-keep p f xs in
        elim (Bool-cases (p x)) [
          | inl e ↦ rw (e, k) (sym (same_p ∙ e))
          | inr e ↦ rw (e, ih) (ground arith)
        ])
  | inr k ↦
      let ih = member-keep p f xs in
      elim (Bool-cases (p x)) [ inl e ↦ rw (e, k, ih) refl | inr e ↦ rw (e, k, ih) refl ]
]

any-member :
    (p : String → Bool) (xs : List String)
    → any p xs ≡ true
    → (f : String) × (member f xs ≡ true) × (p f ≡ true)
any-member p [] h = ground arith
any-member p (x ∷ xs) h = elim (Bool-cases (p x)) [
  | inl e ↦ (x, rw (str_eq_refl x) refl, e)
  | inr e ↦ let (f, m, k) = any-member p xs (ground arith) in (f, ground arith, k)
]

member-any :
    (p : String → Bool) (f : String) (xs : List String)
    → member f xs ≡ true
    → p f ≡ true
    → any p xs ≡ true
member-any p f [] m k = ground arith
member-any p f (x ∷ xs) m k = elim (Bool-cases (str_eq f x)) [
  | inl e ↦ let j : p x ≡ true = sym (ap p ((eq_iff f x).0 e)) ∙ k in ground arith
  | inr e ↦ let j = member-any p f xs (ground arith) k in ground arith
]

nonempty-insert_name : (x : String) (ys : List String) → nonempty (insert_name x ys) ≡ true
nonempty-insert_name x [] = refl
nonempty-insert_name x (y ∷ ys) = elim (Bool-cases (text_before y x)) [
  | inl e ↦ rw e refl
  | inr e ↦ rw e refl
]

nonempty-sort_names : (xs : List String) → nonempty (sort_names xs) ≡ nonempty xs
nonempty-sort_names [] = refl
nonempty-sort_names (x ∷ xs) = nonempty-insert_name x (sort_names xs)

nonempty-shared :
    (cur d : CommitRecord)
    → nonempty (shared_files cur d)
      ≡ any (λ f. member f (code_files d.files)) (distinct (code_files cur.files))
unfolding shared_files
nonempty-shared cur d =
    nonempty-sort_names
      (keep (λ f. member f (code_files d.files)) (distinct (code_files cur.files)))
    ∙ nonempty-keep _ (distinct (code_files cur.files))

member-code :
    (f : String) (files : List String)
    → member f (code_files files) ≡ (member f files && not (is_meta_path f))
unfolding code_files
member-code f files = member-keep (λ g. not (is_meta_path g)) f files

pub shared-SharesCode :
    (cur d : CommitRecord) → (nonempty (shared_files cur d) ≡ true) ↔ SharesCode cur d
shared-SharesCode cur d = (
  λ h.
      let (f, m, k) =
        any-member (λ f. member f (code_files d.files)) (distinct (code_files cur.files))
          (sym (nonempty-shared cur d) ∙ h) in
      let a = sym (member-code f cur.files) ∙ sym (member-distinct f (code_files cur.files)) ∙ m in
      let b = sym (member-code f d.files) ∙ k in (f, ground arith, ground arith, ground arith),
  λ s.
      let (f, m, k, e) = s in
      let a : member f (code_files cur.files) ≡ true = member-code f cur.files ∙ rw (m, e) refl in
      let b : member f (code_files d.files) ≡ true = member-code f d.files ∙ rw (k, e) refl in
      nonempty-shared cur d
      ∙ member-any _ f (distinct (code_files cur.files))
          (member-distinct f (code_files cur.files) ∙ a) b,
)

length-member : (f : String) (xs : List String) → member f xs ≡ true → 0 < length xs
length-member f [] m = ground arith
length-member f (x ∷ xs) m = omega arith

-- A commit that shares a file has some file.
union_some :
    (cur d : CommitRecord)
    → SharesCode cur d
    → 0 < length (distinct (code_files cur.files ++ code_files d.files))
union_some cur d (f, m, k, e) =
    let a : member f (code_files cur.files) ≡ true = member-code f cur.files ∙ rw (m, e) refl in
    length-member f (distinct (code_files cur.files ++ code_files d.files)) (
      member-distinct f (code_files cur.files ++ code_files d.files)
      ∙ any-append (str_eq f) (code_files cur.files) (code_files d.files)
      ∙ or_true _ _ (inl a))

pub link-IsLinked :
    (cur d : CommitRecord)
    → SharesCode cur d
    → (is_fixup_link cur d (shared_files cur d) ≡ true)
      ↔ ((2 ≤ length (shared_files cur d)) ⊎ IsClose cur d)
unfolding is_fixup_link
link-IsLinked cur d s =
    let some_shared = (shared-SharesCode cur d).1 s in
    let some_file =
      lt→ltb 0 (length (distinct (code_files cur.files ++ code_files d.files)))
        (union_some cur d s) in
    (
      λ h. elim (Bool-cases (leb 2 (length (shared_files cur d)))) [
        | inl e ↦ inl (leb→le 2 (length (shared_files cur d)) e)
        | inr e ↦ inr (leb→le _ _ (both _ _ (both _ _ (rw e at h)).1).1)
      ],
      λ l. elim (Bool-cases (leb 2 (length (shared_files cur d)))) [
        | inl e ↦ rw e refl
        | inr e ↦
            rw (e, some_shared, some_file)
              (elim l [
                | inl two ↦ (let k = le→leb 2 (length (shared_files cur d)) two in ground arith)
                | inr close ↦ le→leb _ _ close
              ])
      ],
    )
