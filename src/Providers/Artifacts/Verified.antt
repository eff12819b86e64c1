-- ===== src/Providers/Artifacts/Verified.antt =====
-- What src/sot_graph/providers/artifacts.py has checked of an artifact that it hands out.
use sotgraph.Prelude.{
  ◌≡◌, refl, sym, ◌∙◌, subst, true, false, Option, none, some, List, [], ◌∷◌, nonempty,
  Option-cases, Bool-cases, inl, inr, arith,
}
use sotgraph.Prelude.Text.{Text, same-eq}
use sotgraph.Providers.Artifacts.Manifest.{Json, ArtifactManifest, is_name}
use sotgraph.Providers.Artifacts.Files.{DigestDir, Disk, File, is_private, is_regular_owned, root}
use sotgraph.Providers.Artifacts.{
  ArtifactDescriptor, read_installed_manifest, has_digest, verify_installed, inspect, pointed,
  resolve, resolve_pointer, handed_out, inspect_found, is_private_place,
}

module _ (json_loads : Text → Option Json) (sha256 : Text → Text) (host : Option Text) where
  -- The directory is private and holds the executable of the digest, and nothing but its manifest.
  pub record IsVerified (digest : Text) (x : DigestDir) : Type 0 where
    pub private : is_private x ≡ true
    pub alone : x.strays ≡ []
    pub executable : File
    pub there : x.artifact ≡ some executable
    pub kept : is_regular_owned executable ≡ true
    pub hashed : sha256 executable.bytes ≡ digest

  pub file-intact :
      (digest : Text) (o : Option File)
      → has_digest json_loads sha256 host digest o ≡ true
      → (f : File) × (o ≡ some f) × (is_regular_owned f ≡ true) × (sha256 f.bytes ≡ digest)
  file-intact digest none h = cc
  file-intact digest (some f) h = (f, refl, ground arith, same-eq _ _ (ground arith))

  strays_none : (xs : List Text) → nonempty xs ≡ false → xs ≡ []
  strays_none [] h = refl
  strays_none (x ∷ xs) h = cc

  pub verify-IsVerified :
      (x : DigestDir) (m : ArtifactManifest) (a : ArtifactDescriptor)
      → verify_installed json_loads sha256 host x m ≡ some a
      → IsVerified m.digest x × (a.name ≡ m.name) × (a.digest ≡ m.digest)
  unfolding verify_installed
  verify-IsVerified x m a h =
      elim (Option-cases (read_installed_manifest json_loads sha256 host x)) [
        | inl e ↦ (let h' = rw e at h in cc)
        | inr (i, e) ↦
            let h' = rw e at h in
            let (f, there, kept, hashed) = file-intact m.digest x.artifact (ground arith) in
            (
              record {
                private = ground arith;
                alone = strays_none x.strays (ground arith);
                executable = f;
                there = there;
                kept = kept;
                hashed = hashed;
              },
              ground arith,
              ground arith,
            )
      ]

  pub inspect-IsVerified :
      (name digest : Text) (x : DigestDir) (a : ArtifactDescriptor)
      → inspect json_loads sha256 host name digest x ≡ some a
      → IsVerified digest x × (a.name ≡ name) × (a.digest ≡ digest)
  unfolding inspect
  inspect-IsVerified name digest x a h =
      elim (Option-cases (read_installed_manifest json_loads sha256 host x)) [
        | inl e ↦ (let h' = rw e at h in cc)
        | inr (m, e) ↦
            let h' = rw e at h in
            let found : verify_installed json_loads sha256 host x m ≡ some a = ground arith in
            let pin : m.digest ≡ digest = same-eq _ _ (ground arith) in
            let named : m.name ≡ name = same-eq _ _ (ground arith) in
            let (v, n, g) = verify-IsVerified x m a found in
            (subst (λ t. IsVerified t x) pin v, n ∙ named, g ∙ pin)
      ]

  module _ (decode : Text → Option Text) where
    -- What a look through the pointer of a name has met.
    pub record IsResolved (name : Text) (d : Disk) (a : ArtifactDescriptor) (f : File)
        : Type 0 where
      pub named : is_name name ≡ true
      pub rooted : is_private_place root d ≡ true
      pub digest : Text
      pub pointing : pointed json_loads sha256 host decode f ≡ some digest
      pub dir : DigestDir
      pub found : d.digest_dirs name digest ≡ some dir
      pub inspected : inspect json_loads sha256 host name digest dir ≡ some a

    found-IsResolved :
        (name : Text) (d : Disk) (a : ArtifactDescriptor) (f : File) (digest : Text)
        → is_name name ≡ true
        → is_private_place root d ≡ true
        → pointed json_loads sha256 host decode f ≡ some digest
        → (o : Option DigestDir) → d.digest_dirs name digest ≡ o
        → handed_out json_loads sha256 host decode
            (inspect_found json_loads sha256 host decode name digest o)
          ≡ some (some a)
        → IsResolved name d a f
    found-IsResolved name d a f digest n r p none e h = cc
    found-IsResolved name d a f digest n r p (some x) e h = record {
      named = n;
      rooted = r;
      digest = digest;
      pointing = p;
      dir = x;
      found = e;
      inspected = ground arith;
    }

    pointer-IsResolved :
        (name : Text) (d : Disk) (a : ArtifactDescriptor)
        → is_name name ≡ true
        → (o : Option File) → resolve_pointer json_loads sha256 host decode name d o ≡ some (some a)
        → (f : File) × (o ≡ some f) × IsResolved name d a f
    pointer-IsResolved name d a n none h = cc
    pointer-IsResolved name d a n (some f) h =
        elim (Option-cases (pointed json_loads sha256 host decode f)) [
          | inl e ↦ (let h' = rw e at h in ground arith)
          | inr (digest, e) ↦
              (let h' = rw e at h in
                (
                  f,
                  refl,
                  found-IsResolved name d a f digest n (ground arith) e _ refl (ground arith),
                ))
        ]

    pub resolve-IsResolved :
        (name : Text) (d : Disk) (a : ArtifactDescriptor)
        → resolve json_loads sha256 host decode name d ≡ some (some a)
        → (f : File) × (d.pointers name ≡ some f) × IsResolved name d a f
    unfolding resolve
    resolve-IsResolved name d a h = elim (Bool-cases (is_name name)) [
      | inl n ↦ pointer-IsResolved name d a n (d.pointers name) (rw n at h)
      | inr n ↦ (let h' = rw n at h in cc)
    ]

    -- Whatever stands on the disk: an artifact that is handed out for a name has that name, and its
    -- directory is private and holds only a manifest and an executable, which is a regular file of
    -- the user whose bytes have the digest of the artifact.
    pub resolve-IsVerified :
        (name : Text) (d : Disk) (a : ArtifactDescriptor)
        → resolve json_loads sha256 host decode name d ≡ some (some a)
        → (a.name ≡ name)
          × ((x : DigestDir) × (d.digest_dirs name a.digest ≡ some x) × IsVerified a.digest x)
    resolve-IsVerified name d a h =
        let (f, e, r) = resolve-IsResolved name d a h in
        let (v, n, g) = inspect-IsVerified name r.digest r.dir a r.inspected in
        (
          n,
          (
            r.dir,
            subst (λ t. d.digest_dirs name t ≡ some r.dir) (sym g) r.found,
            subst (λ t. IsVerified t r.dir) (sym g) v,
          ),
        )
