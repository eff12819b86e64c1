-- ===== src/Providers/Artifacts/Sound.antt =====
-- What every sequence of operations of src/sot_graph/providers/artifacts.py keeps: each directory
-- passes the checks of `resolve`, and each pointer names a directory that is there.
use sotgraph.Prelude.{
  ◌≡◌, refl, sym, ap, ◌∙◌, subst, true, ◌&&◌, Option, none, some, Option-cases, Bool-cases, inl,
  inr, is_some,
}
use sotgraph.Prelude.Text.{Text, same, same-eq}
use sotgraph.Providers.Artifacts.Manifest.{Json, is_name}
use sotgraph.Prelude.Strip.{both}
use sotgraph.Providers.Artifacts.Files.{
  DigestDir, Disk, File, Place, root, put_pointer, put_dir, erase_pointer, is_regular_owned,
}
use sotgraph.Providers.Artifacts.{
  ArtifactDescriptor, Io, inspect, pointed, resolve, is_private_place, ensure_new_dir, mutation,
  handed_out, is_selected, unselect, uninstall_digest,
}
use sotgraph.Providers.Artifacts.Operations.{
  after, IsLike, ensure-IsLike, put_dir-Extends, ensure_private,
}
use sotgraph.Providers.Artifacts.Promoted.{resolve_through}

module _ (json_loads : Text → Option Json) (sha256 : Text → Text) (host : Option Text)
    (decode : Text → Option Text) where
  pub record IsSound (d : Disk) : Type 0 where
    pub dirs :
        (name digest : Text) (x : DigestDir)
        → d.digest_dirs name digest ≡ some x
        → (a : ArtifactDescriptor) × (inspect json_loads sha256 host name digest x ≡ some a)
    pub targets :
        (name : Text) (f : File)
        → d.pointers name ≡ some f
        → (digest : Text) × (x : DigestDir) × (pointed json_loads sha256 host decode f
            ≡ some digest)
          × (d.digest_dirs name digest ≡ some x)
    pub rooted :
        (name : Text) (f : File) → d.pointers name ≡ some f → is_private_place root d ≡ true

  IsSound-like :
      {d e : Disk}
      → IsLike d e
      → (is_private_place root d ≡ true → is_private_place root e ≡ true)
      → IsSound d
      → IsSound e
  IsSound-like like private s = record {
    dirs = λ n g x h. s.dirs n g x (subst (λ f. f n g ≡ some x) like.dirs h);
    targets = λ n f h.
        let (g, x, p, q) = s.targets n f (subst (λ t. t n ≡ some f) like.pointers h) in
        (g, x, p, subst (λ t. t n g ≡ some x) (sym like.dirs) q);
    rooted = λ n f h. private (s.rooted n f (subst (λ t. t n ≡ some f) like.pointers h));
  }

  pub IsSound-ensure :
      (io : Io) (p : Place) (d : Disk) → IsSound d → IsSound (ensure_new_dir io p d).0
  IsSound-ensure io p d s = IsSound-like (ensure-IsLike io p d) (ensure_private io p d) s

  pub IsSound-mutation : (io : Io) (d : Disk) → IsSound d → IsSound (mutation io d).0
  unfolding mutation
  IsSound-mutation io d s = IsSound-ensure io root d s

  -- A pointer to a directory that is there is written.
  pub IsSound-put_pointer :
      (name digest : Text) (f : File) (x : DigestDir) (d : Disk)
      → is_private_place root d ≡ true
      → pointed json_loads sha256 host decode f ≡ some digest
      → d.digest_dirs name digest ≡ some x
      → IsSound d
      → IsSound (put_pointer name f d)
  unfolding is_private_place
  IsSound-put_pointer name digest f x d private p q s = record {
    dirs = s.dirs;
    targets = λ n g h. elim (Bool-cases (same name n)) [
      | inl e ↦
          (let h' = rw e at h in
            let same_name : name ≡ n = same-eq _ _ e in
            (
              digest,
              x,
              subst (λ t. pointed json_loads sha256 host decode t ≡ some digest) (cc) p,
              subst (λ t. d.digest_dirs t digest ≡ some x) same_name q,
            ))
      | inr e ↦ s.targets n g (rw e at h)
    ];
    rooted = λ n g h. private;
  }

  IsSound-erase_pointer : (name : Text) (d : Disk) → IsSound d → IsSound (erase_pointer name d)
  unfolding is_private_place
  IsSound-erase_pointer name d s = record {
    dirs = s.dirs;
    targets = λ n f h. elim (Bool-cases (same name n)) [
      | inl e ↦ (let h' = rw e at h in cc)
      | inr e ↦ s.targets n f (rw e at h)
    ];
    rooted = λ n f h. elim (Bool-cases (same name n)) [
      | inl e ↦ (let h' = rw e at h in cc)
      | inr e ↦ s.rooted n f (rw e at h)
    ];
  }

  pub IsSound-put_dir :
      (name digest : Text) (x : DigestDir) (d : Disk) (a : ArtifactDescriptor)
      → d.digest_dirs name digest ≡ none
      → inspect json_loads sha256 host name digest x ≡ some a
      → IsSound d
      → IsSound (put_dir name digest x d)
  unfolding is_private_place
  IsSound-put_dir name digest x d a free seen s = record {
    dirs = λ n g y h. elim (Bool-cases (same name n && same digest g)) [
      | inl e ↦
          let (i, j) = both _ _ e in
          let p : name ≡ n = same-eq _ _ i in
          let q : digest ≡ g = same-eq _ _ j in
          let h' = rw e at h in
          let r : x ≡ y = cc in
          (
            a,
            subst (λ t. inspect json_loads sha256 host n g t ≡ some a) r
                (subst (λ t. inspect json_loads sha256 host t g x ≡ some a) p
                  (subst (λ t. inspect json_loads sha256 host name t x ≡ some a) q seen)),
          )
      | inr e ↦ s.dirs n g y (rw e at h)
    ];
    targets = λ n f h.
        let (g, y, p, q) = s.targets n f h in
        (g, y, p, put_dir-Extends name digest x d free n g y q);
    rooted = λ n f h. s.rooted n f h;
  }

  unselect-IsSound :
      (io : Io) (name : Text) (d : Disk) (o : Option ArtifactDescriptor) (f : Option File)
      → IsSound d
      → IsSound (after (unselect json_loads sha256 host decode io name d o f))
  unselect-IsSound io name d none f s = s
  unselect-IsSound io name d (some a) none s = s
  unselect-IsSound io name d (some a) (some f) s =
      elim (Bool-cases (is_regular_owned f && io.unlinks)) [
        | inl e ↦ rw e (IsSound-erase_pointer name d s)
        | inr e ↦ rw e s
      ]

  pub uninstall_digest-IsSound :
      (io : Io) (name : Text) (d : Disk) (o : Option Text)
      → IsSound d
      → IsSound (after (uninstall_digest json_loads sha256 host decode io name d o))
  uninstall_digest-IsSound io name d none s = s
  uninstall_digest-IsSound io name d (some digest) s =
      elim (Bool-cases (
        is_some (
          is_selected json_loads sha256 host decode digest
            (resolve json_loads sha256 host decode name d)))) [
              | inr e ↦ rw e s
              | inl e ↦ elim (Bool-cases (mutation io d).1) [
                | inr h ↦ rw (e, h) (IsSound-mutation io d s)
                | inl h ↦
                    rw (e, h)
                      (unselect-IsSound io name (mutation io d).0 _ _ (IsSound-mutation io d s))
              ]
            ]

  pub resolve-IsSound :
      (name : Text) (d : Disk)
      → is_name name ≡ true
      → IsSound d
      → (r : Option ArtifactDescriptor) × (resolve json_loads sha256 host decode name d ≡ some r)
        × (is_some r ≡ is_some (d.pointers name))
  resolve-IsSound name d n s = elim (Option-cases (d.pointers name)) [
    | inl e ↦ (none, (unfold resolve in rw (n, e) refl), rw e refl)
    | inr (f, e) ↦
        let (g, x, p, q) = s.targets name f e in
        let (a, seen) = s.dirs name g x q in
        (
          some a,
          resolve_through json_loads sha256 host decode name g d f x n (s.rooted name f e) e p q
              ∙ ap (handed_out json_loads sha256 host decode) seen,
          rw e refl,
        )
  ]
