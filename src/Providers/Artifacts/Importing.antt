-- ===== src/Providers/Artifacts/Importing.antt =====
-- `ArtifactStore.import_artifact` of src/sot_graph/providers/artifacts.py: a binary is staged, compared
-- with its manifest and moved to the path of its digest.
use sotgraph.Prelude.{
  Bool, true, false, not, ◌&&◌, ◌||◌, Option, none, some, [], ◌==◌, length, is_some, if◌then◌else◌,
}
use sotgraph.Prelude.Text.{Text, same}
use sotgraph.Providers.Artifacts.Manifest.{Json, ArtifactManifest, parse}
use sotgraph.Providers.Artifacts.Files.{
  Kind, folder, regular, DigestDir, staging, store, Disk, put_dir,
}
use sotgraph.Providers.Artifacts.{
  ArtifactDescriptor, Outcome, done, failed, Io, ensure_new_dir, mutation, verify_installed,
  describe,
}

-- lstat of the source
pub record Source : Type 0 where
  pub kind : Kind
  pub owned : Bool

abbrev pub is_source : Source → Bool
is_source s = elim s.kind [ regular ↦ s.owned | _ ↦ false ]

abbrev pub is_usable : Option Source → Bool
is_usable none = false
is_usable (some s) = is_source s

abbrev pub plant : ArtifactManifest → Disk → Option DigestDir → Disk
plant m d none = d
plant m d (some x) = put_dir m.name m.digest x d

module _ (json_loads : Text → Option Json) (sha256 : Text → Text)
    (host_platform : Option Text) where
  -- What was copied from the source is what the manifest pins.
  unfoldable pub is_copied : Io → ArtifactManifest → Bool
  is_copied io m =
      io.stages
      && io.opens_source
      && io.same_source
      && io.reads_source
      && length io.content == io.size
      && same (sha256 io.content) m.digest
      && io.writes_manifest

  module _ (manifest_bytes : ArtifactManifest → Text) where
    abbrev pub staged_dir : Io → ArtifactManifest → DigestDir
    staged_dir io m = record {
      kind = folder;
      owned = true;
      private = true;
      manifest =
          some (record { kind = regular; owned = true; readable = true; bytes = manifest_bytes m });
      artifact =
          some (record { kind = regular; owned = true; readable = true; bytes = io.content });
      strays = [];
    }

    -- The second look at the place, and the rename.
    abbrev pub rename : Io → ArtifactManifest → Disk → Outcome ArtifactDescriptor
    rename io m d =
        if is_some (d.digest_dirs m.name m.digest) || not io.renames
        then failed d
        else done (describe json_loads sha256 host_platform m)
            (put_dir m.name m.digest (staged_dir io m) d)

    unfoldable pub stage : Io → ArtifactManifest → Disk → Outcome ArtifactDescriptor
    unfolding ensure_new_dir is_copied
    stage io m d =
        let (d₁, made) = ensure_new_dir io staging d in
        let (d₂, made') = ensure_new_dir io (store m.name) d₁ in
        if made && is_copied io m
        then (if made' then rename io m (plant m d₂ io.planted) else failed d₂)
        else failed d₁

    abbrev pub verified : Disk → Option ArtifactDescriptor → Outcome ArtifactDescriptor
    verified d none = failed d
    verified d (some a) = done a d

    abbrev pub install :
        Io → ArtifactManifest → Disk → Option DigestDir → Outcome ArtifactDescriptor
    install io m d (some x) = verified d (verify_installed json_loads sha256 host_platform x m)
    install io m d none = stage io m d

    abbrev pub import_manifest :
        Io → Option Source → Disk → Option ArtifactManifest → Outcome ArtifactDescriptor
    import_manifest io source d none = failed d
    import_manifest io source d (some m) =
        if is_usable source
        then (let (d', entered) = mutation io d in
            if entered then install io m d' (d'.digest_dirs m.name m.digest) else failed d')
        else failed d

    unfoldable pub import_artifact : Io → Option Source → Text → Disk → Outcome ArtifactDescriptor
    unfolding mutation stage verify_installed
    import_artifact io source manifest_data d =
        import_manifest io source d (parse json_loads host_platform manifest_data)
