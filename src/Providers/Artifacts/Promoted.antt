-- ===== src/Providers/Artifacts/Promoted.antt =====
-- What `resolve` of src/sot_graph/providers/artifacts.py answers after `promote`.
use sotgraph.Prelude.{
  ℕ, ◌≡◌, refl, sym, ap, ◌∙◌, subst, Bool, true, false, ◌&&◌, Option, none, some, [], ◌∷◌, ◌++◌,
  all, leb, nonempty, Option-cases, Bool-cases, inl, inr, arith, if◌then◌else◌,
}
use sotgraph.Prelude.Text.{Text, same-eq, same_refl}
use sotgraph.Providers.Compatibility.{normalize_sha256_digest}
use sotgraph.Providers.Artifacts.Manifest.{
  Json, ArtifactManifest, same_manifest, is_name, is_small_hex,
}
use sotgraph.Providers.Artifacts.Digests.{IsDigest, normalize-IsDigest, normalize-line}
use sotgraph.Prelude.Strip.{all-append, all_mono}
use sotgraph.Providers.Artifacts.Files.{DigestDir, Disk, File, root, pointing, put_pointer}
use sotgraph.Providers.Artifacts.{
  ArtifactDescriptor, done, Io, read_installed_manifest, is_intact, verify_installed, inspect,
  pointed, resolve, promotable, is_private_place, ensure_new_dir, mutation, flip, found_dir,
  promote_digest, promote, pointer_file, handed_out,
}
use sotgraph.Providers.Artifacts.Operations.{
  IsLike, IsLike-trans, mutation-IsLike, ensure-IsLike, ensure_private, mutation_private,
  pointer_private,
}

abbrev is_ascii : ℕ → Bool
is_ascii c = leb c 127

-- Bytes below 128 are decoded to themselves.
abbrev pub DecodesAscii : (Text → Option Text) → Type 0
DecodesAscii decode = (t : Text) → all is_ascii t ≡ true → decode t ≡ some t

hex-ascii : (c : ℕ) → is_small_hex c ≡ true → is_ascii c ≡ true
hex-ascii c h = ground arith

module _ (json_loads : Text → Option Json) (sha256 : Text → Text) (host : Option Text) where
  pub same_manifest_refl : (m : ArtifactManifest) → same_manifest m m ≡ true
  same_manifest_refl m = ground (
    arith,
    same_refl m.name,
    same_refl m.digest,
    same_refl m.platform,
    same_refl m.protocol,
    same_refl m.engine_commit,
  )

  -- Of what `promote` accepts, `resolve` refuses exactly what has other entries.
  pub inspect-promotable :
      (name digest : Text) (x : DigestDir) (a : ArtifactDescriptor)
      → promotable json_loads sha256 host name digest x ≡ some a
      → (inspect json_loads sha256 host name digest x
          ≡ (if nonempty x.strays then none else some a))
        × (a.digest ≡ digest)
  unfolding inspect verify_installed promotable
  inspect-promotable name digest x a h =
      elim (Option-cases (read_installed_manifest json_loads sha256 host x)) [
        | inl e ↦ (let h' = rw e at h in cc)
        | inr (m, e) ↦
            let h' = rw e at h in
            let pin : m.digest ≡ digest = same-eq _ _ (ground arith) in
            let r = same_manifest_refl m in
            let intact : is_intact json_loads sha256 host m.digest x ≡ true =
              subst (λ t. is_intact json_loads sha256 host t x ≡ true) (sym pin) (ground arith) in
            (rw (e, e) (ground arith), ground arith)
      ]

  -- The disk before the pointer is written.
  abbrev pub entered_disk : Io → Disk → Disk
  entered_disk io d = (ensure_new_dir io pointing (mutation io d).0).0

  pub entered-IsLike : (io : Io) (d : Disk) → IsLike d (entered_disk io d)
  entered-IsLike io d = IsLike-trans (mutation-IsLike io d) (ensure-IsLike io pointing _)

  -- What a promotion has met.
  pub record IsPromoted (io : Io) (name value : Text) (d : Disk) (a : ArtifactDescriptor) (e : Disk)
      : Type 0 where
    pub digest : Text
    pub normal : normalize_sha256_digest value ≡ some digest
    pub named : is_name name ≡ true
    pub entered : (mutation io d).1 ≡ true
    pub dir : DigestDir
    pub found : d.digest_dirs name digest ≡ some dir
    pub accepted : promotable json_loads sha256 host name digest dir ≡ some a
    pub flipped :
        e ≡ put_pointer name (pointer_file json_loads sha256 host digest) (entered_disk io d)

  pub found_promotable :
      (name digest : Text) (o : Option DigestDir) (a : ArtifactDescriptor)
      → found_dir json_loads sha256 host name digest o ≡ some a
      → (x : DigestDir) × (o ≡ some x) × (promotable json_loads sha256 host name digest x ≡ some a)
  found_promotable name digest none a h = cc
  found_promotable name digest (some x) a h = (x, refl, h)

  flip_done :
      (io : Io) (name digest : Text) (d : Disk) (o : Option ArtifactDescriptor)
      (a : ArtifactDescriptor) (e : Disk)
      → flip json_loads sha256 host io name digest d o ≡ done a e
      → (o ≡ some a)
        × (e
            ≡ put_pointer name
                (pointer_file json_loads sha256 host digest)
                (ensure_new_dir io pointing d).0)
  flip_done io name digest d none a e h = cc
  flip_done io name digest d (some b) a e h =
      elim (Bool-cases ((ensure_new_dir io pointing d).1 && io.writes_pointer && io.replaces)) [
        | inl y ↦ (let h' = rw y at h in (ap some (cc), cc))
        | inr n ↦ (let h' = rw n at h in cc)
      ]

  digest-IsPromoted :
      (io : Io) (name value : Text) (d : Disk) (a : ArtifactDescriptor) (e : Disk) (o : Option Text)
      → normalize_sha256_digest value ≡ o
      → promote_digest json_loads sha256 host io name d o ≡ done a e
      → IsPromoted io name value d a e
  digest-IsPromoted io name value d a e none n h = cc
  digest-IsPromoted io name value d a e (some digest) n h = elim (Bool-cases (is_name name)) [
    | inr z ↦ (let h' = rw z at h in cc)
    | inl y ↦ elim (Bool-cases (mutation io d).1) [
      | inr z ↦ (let h' = rw (y, z) at h in cc)
      | inl entered ↦
          let (o, f) = flip_done io name digest (mutation io d).0 _ a e (rw (y, entered) at h) in
          let (x, there, accepted) = found_promotable name digest _ a o in
          record {
            digest = digest;
            normal = n;
            named = y;
            entered = entered;
            dir = x;
            found = subst (λ g. g name digest ≡ some x) (mutation-IsLike io d).dirs there;
            accepted = accepted;
            flipped = f;
          }
    ]
  ]

  pub promote-IsPromoted :
      (io : Io) (name value : Text) (d : Disk) (a : ArtifactDescriptor) (e : Disk)
      → promote json_loads sha256 host io name value d ≡ done a e
      → IsPromoted io name value d a e
  unfolding promote
  promote-IsPromoted io name value d a e h = digest-IsPromoted io name value d a e _ refl h

  -- A look through a pointer to a directory that is there.
  pub resolve_through :
      (decode : Text → Option Text) (name digest : Text) (d : Disk) (f : File) (x : DigestDir)
      → is_name name ≡ true
      → is_private_place root d ≡ true
      → d.pointers name ≡ some f
      → pointed json_loads sha256 host decode f ≡ some digest
      → d.digest_dirs name digest ≡ some x
      → resolve json_loads sha256 host decode name d
        ≡ handed_out json_loads sha256 host decode (inspect json_loads sha256 host name digest x)
  unfolding resolve
  resolve_through decode name digest d f x n r p q i = rw (n, p, r, q, i) refl

  module _ (decode : Text → Option Text) (ascii : DecodesAscii decode) where
    pub pointed-pointer_file :
        (digest : Text)
        → IsDigest digest
        → pointed json_loads sha256 host decode (pointer_file json_loads sha256 host digest)
          ≡ some digest
    unfolding pointed
    pointed-pointer_file digest d =
        let plain : all is_ascii (digest ++ (10 ∷ [])) ≡ true =
          all-append is_ascii digest (10 ∷ [])
          ∙ ap (λ b. b && true) (all_mono _ _ hex-ascii digest d.hex) in
        rw (ascii _ plain) (normalize-line digest d)

    handed_if :
        (b : Bool) (a : ArtifactDescriptor)
        → handed_out json_loads sha256 host decode (if b then none else some a)
          ≡ (if b then none else some (some a))
    handed_if true a = refl
    handed_if false a = refl

    -- After a promotion the name resolves to the promoted artifact, unless its directory holds
    -- other entries than the manifest and the executable: then the promotion has succeeded, and the
    -- name cannot be resolved.
    pub resolve-promote :
        (io : Io) (name value : Text) (d : Disk) (a : ArtifactDescriptor) (e : Disk)
        → promote json_loads sha256 host io name value d ≡ done a e
        → (x : DigestDir) × (d.digest_dirs name a.digest ≡ some x)
          × (resolve json_loads sha256 host decode name e
              ≡ (if nonempty x.strays then none else some (some a)))
    resolve-promote io name value d a e h =
        let p = promote-IsPromoted io name value d a e h in
        let (seen, pin) = inspect-promotable name p.digest p.dir a p.accepted in
        let like = entered-IsLike io d in
        let there : e.pointers name ≡ some (pointer_file json_loads sha256 host p.digest) =
          ap (λ t. t.pointers name) p.flipped ∙ rw (same_refl name) refl in
        let dirs : e.digest_dirs name p.digest ≡ some p.dir =
          ap (λ t. t.digest_dirs name p.digest) p.flipped
          ∙ subst (λ g. g name p.digest ≡ some p.dir) (sym like.dirs) p.found in
        let private : is_private_place root e ≡ true =
          subst (λ t. is_private_place root t ≡ true) (sym p.flipped)
            (pointer_private name _ _
              (ensure_private io pointing _ (mutation_private io d p.entered))) in
        (
          p.dir,
          subst (λ t. d.digest_dirs name t ≡ some p.dir) (sym pin) p.found,
          resolve_through decode name p.digest e _ p.dir p.named private there
                (pointed-pointer_file p.digest (normalize-IsDigest value p.digest p.normal)) dirs
              ∙ ap (handed_out json_loads sha256 host decode) seen
              ∙ handed_if (nonempty p.dir.strays) a,
        )
