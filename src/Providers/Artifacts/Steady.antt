-- ===== src/Providers/Artifacts/Steady.antt =====
-- Every operation of src/sot_graph/providers/artifacts.py keeps the store sound.
use sotgraph.Prelude.{
  ◌≡◌, refl, sym, subst, true, not, ◌&&◌, ◌||◌, Option, none, some, List, [], ◌∷◌, ◌++◌, All,
  Option-cases, Bool-cases, inl, inr, is_some,
}
use sotgraph.Prelude.Text.{Text, same, same_refl}
use sotgraph.Providers.Compatibility.{normalize_sha256_digest}
use sotgraph.Providers.Artifacts.Manifest.{
  Json, object, Value, ArtifactManifest, is_name, parse, as_dict, manifest_bytes,
}
use sotgraph.Providers.Artifacts.Digests.{IsDigest, normalize-IsDigest}
use sotgraph.Prelude.Strip.{both}
use sotgraph.Providers.Artifacts.Pinned.{IsPinned, parse-IsPinned, parse-manifest_bytes}
use sotgraph.Providers.Artifacts.Files.{DigestDir, Disk, root, pointing, staging, store}
use sotgraph.Providers.Artifacts.{
  ArtifactDescriptor, Io, describe, read_installed_manifest, is_intact, verify_installed, inspect,
  resolve, is_private_place, ensure_new_dir, mutation, flip, promote_digest, promote, uninstall,
}
use sotgraph.Providers.Artifacts.Importing.{
  Source, rename, stage, install, verified, import_manifest, import_artifact, staged_dir, is_copied,
  is_usable,
}
use sotgraph.Providers.Artifacts.Operations.{
  Operation, importing, promoting, uninstalling, perform, run, after, IsAlone, ensure-IsLike,
  ensure_private, mutation_private,
}
use sotgraph.Providers.Artifacts.Promoted.{
  DecodesAscii, pointed-pointer_file, same_manifest_refl, found_promotable,
}
use sotgraph.Providers.Artifacts.Sound.{
  IsSound, IsSound-ensure, IsSound-mutation, IsSound-put_pointer, IsSound-put_dir,
  uninstall_digest-IsSound, resolve-IsSound,
}

module _ (json_loads : Text → Option Json) (sha256 : Text → Text) (host : Option Text)
    (decode : Text → Option Text) where
  abbrev Sound : Disk → Type 0
  Sound = IsSound json_loads sha256 host decode

  module _ (ascii : DecodesAscii decode) where
    flip-IsSound :
        (io : Io) (name digest : Text) (d : Disk) (o : Option ArtifactDescriptor)
        → IsDigest digest
        → is_private_place root d ≡ true
        → ((a : ArtifactDescriptor)
            → o ≡ some a
            → (x : DigestDir) × (d.digest_dirs name digest ≡ some x))
        → Sound d
        → Sound (after (flip json_loads sha256 host io name digest d o))
    flip-IsSound io name digest d none g private there s = s
    flip-IsSound io name digest d (some a) g private there s =
        let (x, found) = there a refl in
        let d' = (ensure_new_dir io pointing d).0 in
        let s' = IsSound-ensure json_loads sha256 host decode io pointing d s in
        elim (Bool-cases ((ensure_new_dir io pointing d).1 && io.writes_pointer && io.replaces)) [
          | inl e ↦ rw e (
              IsSound-put_pointer json_loads sha256 host decode name digest _ x d'
                (ensure_private io pointing d private)
                (pointed-pointer_file json_loads sha256 host decode ascii digest g)
                (subst (λ f. f name digest ≡ some x) (sym (ensure-IsLike io pointing d).dirs) found)
                s')
          | inr e ↦ rw e s'
        ]

    promote_digest-IsSound :
        (io : Io) (name value : Text) (d : Disk) (o : Option Text)
        → normalize_sha256_digest value ≡ o
        → Sound d
        → Sound (after (promote_digest json_loads sha256 host io name d o))
    promote_digest-IsSound io name value d none n s = s
    promote_digest-IsSound io name value d (some digest) n s = elim (Bool-cases (is_name name)) [
      | inr e ↦ rw e s
      | inl e ↦ elim (Bool-cases (mutation io d).1) [
        | inr h ↦ rw (e, h) (IsSound-mutation json_loads sha256 host decode io d s)
        | inl h ↦
            rw (e, h)
              (flip-IsSound io name digest (mutation io d).0 _ (normalize-IsDigest value digest n)
                (mutation_private io d h)
                (λ a f.
                  let (x, there, _) = found_promotable json_loads sha256 host name digest _ a f in
                  (x, there))
                (IsSound-mutation json_loads sha256 host decode io d s))
      ]
    ]

    module _ (json_dumps : List (Text × Value) → Text)
        (read_back : (m : ArtifactManifest)
          → json_loads (json_dumps (as_dict m) ++ (10 ∷ [])) ≡ some (object (as_dict m))) where
      staged-inspect :
          (io : Io) (m : ArtifactManifest)
          → IsPinned host m
          → is_copied json_loads sha256 host io m ≡ true
          → inspect json_loads sha256 host m.name m.digest
              (staged_dir json_loads sha256 host (manifest_bytes json_dumps) io m)
            ≡ some (describe json_loads sha256 host m)
      unfolding inspect verify_installed is_copied read_installed_manifest is_intact
      staged-inspect io m p c =
          let parsed = parse-manifest_bytes json_loads json_dumps host m (read_back m) p in
          let r = same_manifest_refl json_loads sha256 host m in
          let n = same_refl m.name in
          let g = same_refl m.digest in
          let (before, _) = both _ (io.writes_manifest) c in
          let (_, hash) = both _ (same (sha256 io.content) m.digest) before in
          rw (parsed, n, g, parsed, r, hash) refl

      rename-IsSound :
          (io : Io) (m : ArtifactManifest) (d : Disk)
          → IsPinned host m
          → is_copied json_loads sha256 host io m ≡ true
          → Sound d
          → Sound (after (rename json_loads sha256 host (manifest_bytes json_dumps) io m d))
      rename-IsSound io m d p c s =
          elim (Bool-cases (is_some (d.digest_dirs m.name m.digest) || not io.renames)) [
            | inl e ↦ rw e s
            | inr e ↦ elim (Option-cases (d.digest_dirs m.name m.digest)) [
              | inl free ↦ rw e (
                  IsSound-put_dir json_loads sha256 host decode m.name m.digest _ d _ free
                    (staged-inspect io m p c) s)
              | inr (x, there) ↦ (let e' = rw there at e in cc)
            ]
          ]

      stage-IsSound :
          (io : Io) (m : ArtifactManifest) (d : Disk)
          → io.planted ≡ none
          → IsPinned host m
          → Sound d
          → Sound (after (stage json_loads sha256 host (manifest_bytes json_dumps) io m d))
      unfolding stage
      stage-IsSound io m d alone p s =
          let d₁ = (ensure_new_dir io staging d).0 in
          let s₁ = IsSound-ensure json_loads sha256 host decode io staging d s in
          let s₂ = IsSound-ensure json_loads sha256 host decode io (store m.name) d₁ s₁ in
          elim (Bool-cases
            ((ensure_new_dir io staging d).1 && is_copied json_loads sha256 host io m)) [
              | inr e ↦ rw e s₁
              | inl e ↦ elim (Bool-cases (ensure_new_dir io (store m.name) d₁).1) [
                | inr h ↦ rw (e, h) s₂
                | inl h ↦ rw (e, h, alone) (rename-IsSound io m _ p (both _ _ e).1 s₂)
              ]
            ]

      verified-IsSound :
          (d : Disk) (o : Option ArtifactDescriptor)
          → Sound d
          → Sound (after (verified json_loads sha256 host (manifest_bytes json_dumps) d o))
      verified-IsSound d none s = s
      verified-IsSound d (some a) s = s

      install-IsSound :
          (io : Io) (m : ArtifactManifest) (d : Disk) (o : Option DigestDir)
          → io.planted ≡ none
          → IsPinned host m
          → Sound d
          → Sound (after (install json_loads sha256 host (manifest_bytes json_dumps) io m d o))
      install-IsSound io m d none alone p s = stage-IsSound io m d alone p s
      install-IsSound io m d (some x) alone p s = verified-IsSound d _ s

      import_manifest-IsSound :
          (io : Io) (source : Option Source) (b : Text) (d : Disk) (o : Option ArtifactManifest)
          → parse json_loads host b ≡ o
          → io.planted ≡ none
          → Sound d
          → Sound (
              after
                (import_manifest json_loads sha256 host (manifest_bytes json_dumps) io source d o))
      import_manifest-IsSound io source b d none e alone s = s
      import_manifest-IsSound io source b d (some m) e alone s =
          elim (Bool-cases (is_usable source)) [
            | inr u ↦ rw u s
            | inl u ↦ elim (Bool-cases (mutation io d).1) [
              | inr h ↦ rw (u, h) (IsSound-mutation json_loads sha256 host decode io d s)
              | inl h ↦
                  rw (u, h)
                    (install-IsSound io m _ _ alone (parse-IsPinned json_loads host b m e)
                      (IsSound-mutation json_loads sha256 host decode io d s))
            ]
          ]

      -- Every operation keeps the store sound, whether it succeeds or fails, as long as no process
      -- that ignores the lock puts a directory where one is being installed.
      pub perform-IsSound :
          (op : Operation) (d : Disk)
          → IsAlone op
          → Sound d
          → Sound (after (perform json_loads sha256 host (manifest_bytes json_dumps) decode op d))
      unfolding perform import_artifact promote uninstall
      perform-IsSound (importing io source b) d alone s =
          import_manifest-IsSound io source b d _ refl alone s
      perform-IsSound (promoting io name value) d alone s =
          promote_digest-IsSound io name value d _ refl s
      perform-IsSound (uninstalling io name value) d alone s =
          uninstall_digest-IsSound json_loads sha256 host decode io name d _ s

      run-IsSound :
          (ops : List Operation) (d : Disk)
          → All IsAlone ops
          → Sound d
          → Sound (run json_loads sha256 host (manifest_bytes json_dumps) decode ops d)
      unfolding run
      run-IsSound [] d alone s = s
      run-IsSound (op ∷ ops) d (one, rest) s = run-IsSound ops _ rest (perform-IsSound op d one s)

      -- From a sound store, such as an empty one: however imports, promotions and uninstalls follow
      -- one another and whatever the system answers, each well-formed name can be resolved, with an
      -- artifact if it has a pointer and none if it has not, as long as no process that ignores the
      -- lock puts a directory where one is being installed.
      pub resolve-run :
          (ops : List Operation) (d : Disk) (name : Text)
          → All IsAlone ops
          → Sound d
          → is_name name ≡ true
          → (r : Option ArtifactDescriptor) × (resolve json_loads sha256 host decode name
                (run json_loads sha256 host (manifest_bytes json_dumps) decode ops d)
              ≡ some r)
            × (is_some r
                ≡ is_some (
                    (run json_loads sha256 host (manifest_bytes json_dumps) decode ops d).pointers
                      name))
      resolve-run ops d name alone s n =
          resolve-IsSound json_loads sha256 host decode name _ n (run-IsSound ops d alone s)
