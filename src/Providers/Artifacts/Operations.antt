-- ===== src/Providers/Artifacts/Operations.antt =====
-- The operations of src/sot_graph/providers/artifacts.py in any order, and what every one of them
-- leaves alone.
use sotgraph.Prelude.{
  ◌≡◌, refl, sym, ◌∙◌, subst, Bool, true, false, ◌&&◌, Option, none, some, List, [], ◌∷◌,
  Bool-cases, inl, inr, arith,
}
use sotgraph.Prelude.Text.{Text, same, same-eq}
use sotgraph.Providers.Artifacts.Manifest.{Json, ArtifactManifest}
use sotgraph.Providers.Artifacts.Files.{
  DigestDir, Disk, File, Folder, Place, root, put_dir, put_folder, put_pointer, fresh_folder,
  same_place,
}
use sotgraph.Prelude.Strip.{both}
use sotgraph.Providers.Artifacts.{
  is_private_place, ArtifactDescriptor, Outcome, done, failed, Io, mutation, ensure_found,
  ensure_new_dir, uninstall, promote,
}
use sotgraph.Providers.Artifacts.Importing.{Source, import_artifact}

pub data Operation : Type 0 where
  importing : Io → Option Source → Text → Operation
  promoting uninstalling : Io → Text → Text → Operation

abbrev pub after : Outcome ArtifactDescriptor → Disk
after (done a d) = d
after (failed d) = d

abbrev pub is_done : Outcome ArtifactDescriptor → Bool
is_done (done a d) = true
is_done (failed d) = false

-- No process that ignores the lock makes a directory meanwhile.
abbrev pub IsAlone : Operation → Type 0
IsAlone (importing io source b) = io.planted ≡ none
IsAlone (promoting io name value) = Unit
IsAlone (uninstalling io name value) = Unit

module _ (json_loads : Text → Option Json) (sha256 : Text → Text) (host : Option Text)
    (manifest_bytes : ArtifactManifest → Text) (decode : Text → Option Text) where
  unfoldable pub perform : Operation → Disk → Outcome ArtifactDescriptor
  unfolding import_artifact promote uninstall
  perform (importing io source manifest) d =
      import_artifact json_loads sha256 host manifest_bytes io source manifest d
  perform (promoting io name value) d = promote json_loads sha256 host io name value d
  perform (uninstalling io name value) d = uninstall json_loads sha256 host decode io name value d

  unfoldable pub run : List Operation → Disk → Disk
  unfolding perform
  run [] d = d
  run (op ∷ ops) d = run ops (after (perform op d))

-- No directory of an artifact is changed or removed.
abbrev pub Extends : Disk → Disk → Type 0
Extends d e =
    (name digest : Text) (x : DigestDir)
    → d.digest_dirs name digest ≡ some x
    → e.digest_dirs name digest ≡ some x

-- Everything but the directories that are made on demand is the same.
pub record IsLike (d e : Disk) : Type 0 where
  pub dirs : e.digest_dirs ≡ d.digest_dirs
  pub pointers : e.pointers ≡ d.pointers
  pub real : e.root_is_real ≡ d.root_is_real

pub IsLike-refl : (d : Disk) → IsLike d d
IsLike-refl d = record { dirs = refl; pointers = refl; real = refl }

pub IsLike-trans : {d e f : Disk} → IsLike d e → IsLike e f → IsLike d f
IsLike-trans h k = record {
  dirs = k.dirs ∙ h.dirs;
  pointers = k.pointers ∙ h.pointers;
  real = k.real ∙ h.real;
}

pub Extends-IsLike : {d e : Disk} → IsLike d e → Extends d e
Extends-IsLike h name digest x k = subst (λ f. f name digest ≡ some x) (sym h.dirs) k

ensure_found-IsLike :
    (io : Io) (p : Place) (d : Disk) (o : Option Folder) → IsLike d (ensure_found io p d o).0
ensure_found-IsLike io p d (some f) = IsLike-refl d
ensure_found-IsLike io p d none = ground arith

pub ensure-IsLike : (io : Io) (p : Place) (d : Disk) → IsLike d (ensure_new_dir io p d).0
unfolding ensure_new_dir
ensure-IsLike io p d = ensure_found-IsLike io p d (d.folders p)

pub mutation-IsLike : (io : Io) (d : Disk) → IsLike d (mutation io d).0
unfolding mutation
mutation-IsLike io d = ensure-IsLike io root d

pub put_dir-Extends :
    (name digest : Text) (x : DigestDir) (d : Disk)
    → d.digest_dirs name digest ≡ none
    → Extends d (put_dir name digest x d)
put_dir-Extends name digest x d h n g y k = elim (Bool-cases (same name n && same digest g)) [
  | inr e ↦ rw e k
  | inl e ↦
      let p : name ≡ n = same-eq _ _ (ground arith) in
      let q : digest ≡ g = same-eq _ _ (ground arith) in
      let h' : d.digest_dirs n g ≡ none =
        subst (λ a. d.digest_dirs a g ≡ none) p (subst (λ b. d.digest_dirs name b ≡ none) q h) in
      cc
]

fresh_private :
    (p : Place) (d : Disk)
    → is_private_place root d ≡ true
    → is_private_place root (put_folder p fresh_folder d) ≡ true
unfolding is_private_place
fresh_private p d h = elim (Bool-cases (same_place p root)) [ inl e ↦ rw e refl | inr e ↦ rw e h ]

root_private :
    (io : Io) (d : Disk) (o : Option Folder)
    → d.folders root ≡ o
    → (ensure_found io root d o).1 ≡ true
    → is_private_place root (ensure_found io root d o).0 ≡ true
unfolding is_private_place
root_private io d (some f) e h = rw e h
root_private io d none e h = elim (Bool-cases (io.makes root)) [
  | inl y ↦ rw y refl
  | inr n ↦ (let h' = rw n at h in cc)
]

found_private :
    (io : Io) (p : Place) (d : Disk) (o : Option Folder)
    → is_private_place root d ≡ true
    → is_private_place root (ensure_found io p d o).0 ≡ true
found_private io p d (some f) h = h
found_private io p d none h = elim (Bool-cases (io.makes p)) [
  | inl y ↦ rw y (fresh_private p d h)
  | inr n ↦ rw n h
]

pub pointer_private :
    (name : Text) (f : File) (d : Disk)
    → is_private_place root d ≡ true
    → is_private_place root (put_pointer name f d) ≡ true
unfolding is_private_place
pointer_private name f d h = h

pub ensure_private :
    (io : Io) (p : Place) (d : Disk)
    → is_private_place root d ≡ true
    → is_private_place root (ensure_new_dir io p d).0 ≡ true
unfolding ensure_new_dir
ensure_private io p d h = found_private io p d (d.folders p) h

pub mutation_private :
    (io : Io) (d : Disk) → (mutation io d).1 ≡ true → is_private_place root (mutation io d).0 ≡ true
unfolding mutation ensure_new_dir
mutation_private io d h = root_private io d (d.folders root) refl (both _ _ (both _ _ h).0).0
