-- ===== src/Providers/Artifacts/Kept.antt =====
-- What no operation of src/sot_graph/providers/artifacts.py loses.
use sotgraph.Prelude.{
  ◌≡◌, refl, sym, ◌∙◌, subst, false, not, ◌&&◌, ◌||◌, Option, none, some, is_some, Option-cases,
  Bool-cases, inl, inr,
}
use sotgraph.Prelude.Text.{Text}
use sotgraph.Providers.Artifacts.Manifest.{Json, ArtifactManifest, is_name}
use sotgraph.Providers.Artifacts.Files.{
  DigestDir, Disk, File, staging, pointing, store, put_dir, is_regular_owned,
}
use sotgraph.Providers.Artifacts.{
  ArtifactDescriptor, Outcome, failed, Io, mutation, ensure_new_dir, resolve, is_selected, unselect,
  uninstall_digest, uninstall, flip, promote_digest, promote,
}
use sotgraph.Providers.Artifacts.Importing.{
  Source, rename, plant, stage, install, verified, import_manifest, import_artifact, is_copied,
  is_usable,
}
use sotgraph.Providers.Artifacts.Operations.{
  Operation, perform, importing, promoting, uninstalling, after, is_done, Extends, Extends-IsLike,
  IsLike, IsLike-refl, IsLike-trans, ensure-IsLike, mutation-IsLike, put_dir-Extends,
}

-- Directories are kept, and pointers unless the operation succeeds.
pub record IsKept (d : Disk) (o : Outcome ArtifactDescriptor) : Type 0 where
  pub dirs : Extends d (after o)
  pub pointers : is_done o ≡ false → (after o).pointers ≡ d.pointers

IsKept-failed : {d e : Disk} → IsLike d e → IsKept d (failed e)
IsKept-failed h = record { dirs = Extends-IsLike h; pointers = λ _. h.pointers }

IsKept-after : {d e : Disk} (o : Outcome ArtifactDescriptor) → IsLike d e → IsKept e o → IsKept d o
IsKept-after o h k = record {
  dirs = λ n g x i. k.dirs n g x (Extends-IsLike h n g x i);
  pointers = λ f. k.pointers f ∙ h.pointers;
}

module _ (json_loads : Text → Option Json) (sha256 : Text → Text) (host : Option Text) where
  flip-IsKept :
      (io : Io) (name digest : Text) (d : Disk) (o : Option ArtifactDescriptor)
      → IsKept d (flip json_loads sha256 host io name digest d o)
  flip-IsKept io name digest d none = IsKept-failed (IsLike-refl d)
  flip-IsKept io name digest d (some a) =
      let like = ensure-IsLike io pointing d in
      elim (Bool-cases ((ensure_new_dir io pointing d).1 && io.writes_pointer && io.replaces)) [
        | inl e ↦ rw e (record { dirs = Extends-IsLike like; pointers = λ f. cc })
        | inr e ↦ rw e (IsKept-failed like)
      ]

  promote_digest-IsKept :
      (io : Io) (name : Text) (d : Disk) (o : Option Text)
      → IsKept d (promote_digest json_loads sha256 host io name d o)
  promote_digest-IsKept io name d none = IsKept-failed (IsLike-refl d)
  promote_digest-IsKept io name d (some digest) = elim (Bool-cases (is_name name)) [
    | inr e ↦ rw e (IsKept-failed (IsLike-refl d))
    | inl e ↦ elim (Bool-cases (mutation io d).1) [
      | inl h ↦
          rw (e, h)
            (IsKept-after _ (mutation-IsLike io d) (flip-IsKept io name digest (mutation io d).0 _))
      | inr h ↦ rw (e, h) (IsKept-failed (mutation-IsLike io d))
    ]
  ]

  module _ (decode : Text → Option Text) where
    unselect-IsKept :
        (io : Io) (name : Text) (d : Disk) (o : Option ArtifactDescriptor) (f : Option File)
        → IsKept d (unselect json_loads sha256 host decode io name d o f)
    unselect-IsKept io name d none f = IsKept-failed (IsLike-refl d)
    unselect-IsKept io name d (some a) none = IsKept-failed (IsLike-refl d)
    unselect-IsKept io name d (some a) (some f) =
        elim (Bool-cases (is_regular_owned f && io.unlinks)) [
          | inl e ↦ rw e (record { dirs = λ n g x h. h; pointers = λ f. cc })
          | inr e ↦ rw e (IsKept-failed (IsLike-refl d))
        ]

    uninstall_digest-IsKept :
        (io : Io) (name : Text) (d : Disk) (o : Option Text)
        → IsKept d (uninstall_digest json_loads sha256 host decode io name d o)
    uninstall_digest-IsKept io name d none = IsKept-failed (IsLike-refl d)
    uninstall_digest-IsKept io name d (some digest) =
        elim (Bool-cases (
          is_some (
            is_selected json_loads sha256 host decode digest
              (resolve json_loads sha256 host decode name d)))) [
                | inr e ↦ rw e (IsKept-failed (IsLike-refl d))
                | inl e ↦ elim (Bool-cases (mutation io d).1) [
                  | inl h ↦
                      rw (e, h)
                        (IsKept-after _ (mutation-IsLike io d)
                          (unselect-IsKept io name (mutation io d).0 _ _))
                  | inr h ↦ rw (e, h) (IsKept-failed (mutation-IsLike io d))
                ]
              ]

  module _ (manifest_bytes : ArtifactManifest → Text) where
    rename-IsKept :
        (io : Io) (m : ArtifactManifest) (d : Disk)
        → IsKept d (rename json_loads sha256 host manifest_bytes io m d)
    rename-IsKept io m d =
        elim (Bool-cases (is_some (d.digest_dirs m.name m.digest) || not io.renames)) [
          | inl e ↦ rw e (IsKept-failed (IsLike-refl d))
          | inr e ↦ elim (Option-cases (d.digest_dirs m.name m.digest)) [
            | inl free ↦
                rw e
                  (record { dirs = put_dir-Extends m.name m.digest _ d free; pointers = λ f. cc })
            | inr (x, there) ↦ (let e' = rw there at e in cc)
          ]
        ]

    planted-IsKept :
        (io : Io) (m : ArtifactManifest) (d : Disk) (p : Option DigestDir)
        → d.digest_dirs m.name m.digest ≡ none
        → IsKept d (rename json_loads sha256 host manifest_bytes io m (plant m d p))
    planted-IsKept io m d none free = rename-IsKept io m d
    planted-IsKept io m d (some x) free =
        let k = rename-IsKept io m (put_dir m.name m.digest x d) in
        record {
          dirs = λ n g y h. k.dirs n g y (put_dir-Extends m.name m.digest x d free n g y h);
          pointers = k.pointers;
        }

    stage-IsKept :
        (io : Io) (m : ArtifactManifest) (d : Disk)
        → d.digest_dirs m.name m.digest ≡ none
        → IsKept d (stage json_loads sha256 host manifest_bytes io m d)
    unfolding stage
    stage-IsKept io m d free =
        let one = ensure-IsLike io staging d in
        let d₁ = (ensure_new_dir io staging d).0 in
        let two = IsLike-trans one (ensure-IsLike io (store m.name) d₁) in
        let d₂ = (ensure_new_dir io (store m.name) d₁).0 in
        let still : d₂.digest_dirs m.name m.digest ≡ none =
          subst (λ f. f m.name m.digest ≡ none) (sym two.dirs) free in
        elim (Bool-cases
          ((ensure_new_dir io staging d).1 && is_copied json_loads sha256 host io m)) [
            | inr e ↦ rw e (IsKept-failed one)
            | inl e ↦ elim (Bool-cases (ensure_new_dir io (store m.name) d₁).1) [
              | inr h ↦ rw (e, h) (IsKept-failed two)
              | inl h ↦ rw (e, h) (IsKept-after _ two (planted-IsKept io m d₂ io.planted still))
            ]
          ]

    verified-IsKept :
        (d : Disk) (o : Option ArtifactDescriptor)
        → IsKept d (verified json_loads sha256 host manifest_bytes d o)
    verified-IsKept d none = IsKept-failed (IsLike-refl d)
    verified-IsKept d (some a) = record { dirs = λ n g x h. h; pointers = λ f. cc }

    install-IsKept :
        (io : Io) (m : ArtifactManifest) (d : Disk) (o : Option DigestDir)
        → d.digest_dirs m.name m.digest ≡ o
        → IsKept d (install json_loads sha256 host manifest_bytes io m d o)
    install-IsKept io m d none free = stage-IsKept io m d free
    install-IsKept io m d (some x) there = verified-IsKept d _

    import_manifest-IsKept :
        (io : Io) (source : Option Source) (d : Disk) (o : Option ArtifactManifest)
        → IsKept d (import_manifest json_loads sha256 host manifest_bytes io source d o)
    import_manifest-IsKept io source d none = IsKept-failed (IsLike-refl d)
    import_manifest-IsKept io source d (some m) = elim (Bool-cases (is_usable source)) [
      | inr e ↦ rw e (IsKept-failed (IsLike-refl d))
      | inl e ↦ elim (Bool-cases (mutation io d).1) [
        | inr h ↦ rw (e, h) (IsKept-failed (mutation-IsLike io d))
        | inl h ↦
            rw (e, h)
              (IsKept-after _ (mutation-IsLike io d) (install-IsKept io m (mutation io d).0 _ refl))
      ]
    ]

    module _ (decode : Text → Option Text) where
      -- Whatever the system answers, and whether or not the operation succeeds: the directory of an
      -- artifact that is there stays as it is, an uninstalled one included. An operation that fails
      -- leaves every pointer as it was.
      pub perform-IsKept :
          (op : Operation) (d : Disk)
          → IsKept d (perform json_loads sha256 host manifest_bytes decode op d)
      unfolding perform import_artifact promote uninstall
      perform-IsKept (importing io s b) d = import_manifest-IsKept io s d _
      perform-IsKept (promoting io name value) d = promote_digest-IsKept io name d _
      perform-IsKept (uninstalling io name value) d = uninstall_digest-IsKept decode io name d _
