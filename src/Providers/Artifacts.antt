-- ===== src/Providers/Artifacts.antt =====
-- src/sot_graph/providers/artifacts.py: the store of provider binaries, on strings as code points.
-- `none` and `failed` are an ArtifactRejected or any other exception.
pub mod Manifest
pub mod Files
pub mod Importing
mod Verified
mod Digests
mod Pinned
mod Operations
mod Kept
mod Promoted
mod Sound
mod Steady
mod Tests
use sotgraph.Prelude.{
  ℕ, Bool, true, false, not, ◌&&◌, ◌||◌, Option, none, some, List, [], ◌∷◌, ◌++◌, ◌==◌, length,
  nonempty, is_some, if◌then◌else◌,
}
use sotgraph.Prelude.Text.{Text, codes, same, strip}
use sotgraph.Providers.Compatibility.{normalize_sha256_digest}
use sotgraph.Providers.Artifacts.Manifest.{Json, ArtifactManifest, is_name, parse, same_manifest}
use sotgraph.Providers.Artifacts.Files.{
  Kind, link, folder, regular, other, File, Folder, DigestDir, Place, root, staging, pointing,
  store, Disk, put_folder, put_dir, put_pointer, erase_pointer, is_private, is_folder_private,
  is_regular_owned, is_read, fresh_folder,
}

pub record ArtifactDescriptor : Type 0 where
  pub name : Text
  pub digest : Text
  pub platform : Text
  pub protocol : Text
  pub engine_commit : Text

pub data Outcome (A : Type 0) : Type 0 where
  done : A → Disk → Outcome A
  failed : Disk → Outcome A

-- What the operating system answers during one call, and the source as it is read.
pub record Io : Type 0 where
  pub makes : Place → Bool
  pub secures : Place → Bool
  pub locks : Bool
  pub stages : Bool
  pub opens_source : Bool
  pub same_source : Bool
  pub reads_source : Bool
  pub content : Text
  pub size : ℕ
  pub writes_manifest : Bool
  -- a directory that a process without the lock makes meanwhile
  pub planted : Option DigestDir
  pub renames : Bool
  pub writes_pointer : Bool
  pub replaces : Bool
  pub unlinks : Bool

abbrev pub is_private_folder : Option Folder → Bool
is_private_folder none = false
is_private_folder (some f) = is_folder_private f

unfoldable pub is_private_place : Place → Disk → Bool
is_private_place p d = is_private_folder (d.folders p)

abbrev pub ensure_found : Io → Place → Disk → Option Folder → Disk × Bool
ensure_found io p d (some f) = (d, is_folder_private f)
ensure_found io p d none =
    if io.makes p then (put_folder p fresh_folder d, io.secures p) else (d, false)

-- `_ensure_new_dir`: the disk after it, and whether it returned.
unfoldable pub ensure_new_dir : Io → Place → Disk → Disk × Bool
ensure_new_dir io p d = ensure_found io p d (d.folders p)

-- The entry of `_mutation`, up to the lock.
unfoldable pub mutation : Io → Disk → Disk × Bool
unfolding ensure_new_dir
mutation io d =
    let (d', made) = ensure_new_dir io root d in (d', made && d'.root_is_real && io.locks)

module _ (json_loads : Text → Option Json) (sha256 : Text → Text)
    (host_platform : Option Text) where
  abbrev pub describe : ArtifactManifest → ArtifactDescriptor
  describe m = record {
    name = m.name;
    digest = m.digest;
    platform = m.platform;
    protocol = m.protocol;
    engine_commit = m.engine_commit;
  }

  abbrev pub read_manifest : Option File → Option ArtifactManifest
  read_manifest none = none
  read_manifest (some f) = if is_read f then parse json_loads host_platform f.bytes else none

  unfoldable pub read_installed_manifest : DigestDir → Option ArtifactManifest
  read_installed_manifest x = read_manifest x.manifest

  -- The executable is a regular file of the user, and has the digest.
  abbrev pub has_digest : Text → Option File → Bool
  has_digest digest none = false
  has_digest digest (some f) = is_regular_owned f && f.readable && same (sha256 f.bytes) digest

  unfoldable pub is_intact : Text → DigestDir → Bool
  is_intact digest x = has_digest digest x.artifact

  abbrev pub verify_against :
      DigestDir → ArtifactManifest → Option ArtifactManifest → Option ArtifactDescriptor
  verify_against x m none = none
  verify_against x m (some installed) =
      if is_private x
        && not (nonempty x.strays)
        && same_manifest installed m
        && is_intact m.digest x
      then some (describe m)
      else none

  unfoldable pub verify_installed : DigestDir → ArtifactManifest → Option ArtifactDescriptor
  unfolding read_installed_manifest is_intact
  verify_installed x m = verify_against x m (read_installed_manifest x)

  -- The checks of `resolve` on the directory that the pointer names.
  abbrev pub inspect_as :
      Text → Text → DigestDir → Option ArtifactManifest → Option ArtifactDescriptor
  inspect_as name digest x none = none
  inspect_as name digest x (some m) =
      if is_private x && same m.name name && same m.digest digest
      then verify_installed x m
      else none

  unfoldable pub inspect : Text → Text → DigestDir → Option ArtifactDescriptor
  unfolding read_installed_manifest verify_installed
  inspect name digest x = inspect_as name digest x (read_installed_manifest x)

  module _ (decode : Text → Option Text) where
    -- The digest that a pointer holds.
    abbrev pub digest_in : Option Text → Option Text
    digest_in none = none
    digest_in (some raw) = normalize_sha256_digest (strip raw)

    unfoldable pub pointed : File → Option Text
    pointed f = if is_read f then digest_in (decode f.bytes) else none

    abbrev pub inspect_found : Text → Text → Option DigestDir → Option ArtifactDescriptor
    inspect_found name digest none = none
    inspect_found name digest (some x) = inspect name digest x

    abbrev pub handed_out : Option ArtifactDescriptor → Option (Option ArtifactDescriptor)
    handed_out none = none
    handed_out (some a) = some (some a)

    abbrev pub resolve_digest : Text → Disk → Option Text → Option (Option ArtifactDescriptor)
    resolve_digest name d none = none
    resolve_digest name d (some digest) =
        handed_out (inspect_found name digest (d.digest_dirs name digest))

    abbrev pub resolve_pointer : Text → Disk → Option File → Option (Option ArtifactDescriptor)
    resolve_pointer name d none = some none
    resolve_pointer name d (some f) =
        if is_private_place root d then resolve_digest name d (pointed f) else none

    unfoldable pub resolve : Text → Disk → Option (Option ArtifactDescriptor)
    unfolding pointed inspect is_private_place
    resolve name d = if is_name name then resolve_pointer name d (d.pointers name) else none

    abbrev pub is_selected : Text → Option (Option ArtifactDescriptor) → Option ArtifactDescriptor
    is_selected digest none = none
    is_selected digest (some none) = none
    is_selected digest (some (some a)) = if same a.digest digest then some a else none

    -- The pointer is removed; the directory stays.
    abbrev pub unselect :
        Io → Text → Disk → Option ArtifactDescriptor → Option File → Outcome ArtifactDescriptor
    unselect io name d none f = failed d
    unselect io name d (some a) none = failed d
    unselect io name d (some a) (some f) =
        if is_regular_owned f && io.unlinks then done a (erase_pointer name d) else failed d

    abbrev pub uninstall_digest : Io → Text → Disk → Option Text → Outcome ArtifactDescriptor
    uninstall_digest io name d none = failed d
    uninstall_digest io name d (some digest) =
        if is_some (is_selected digest (resolve name d))
        then (let (d', entered) = mutation io d in
            if entered
            then unselect io name d' (is_selected digest (resolve name d')) (d'.pointers name)
            else failed d')
        else failed d

    unfoldable pub uninstall : Io → Text → Text → Disk → Outcome ArtifactDescriptor
    unfolding mutation resolve
    uninstall io name value d = uninstall_digest io name d (normalize_sha256_digest value)

  abbrev pub pointer_file : Text → File
  pointer_file digest = record {
    kind = regular;
    owned = true;
    readable = true;
    bytes = digest ++ (10 ∷ []);
  }

  -- What `promote` checks of a directory; it does not list its entries.
  abbrev pub promotable_as :
      Text → Text → DigestDir → Option ArtifactManifest → Option ArtifactDescriptor
  promotable_as name digest x none = none
  promotable_as name digest x (some m) =
      if is_private x && same m.name name && same m.digest digest && is_intact digest x
      then some (describe m)
      else none

  unfoldable pub promotable : Text → Text → DigestDir → Option ArtifactDescriptor
  unfolding read_installed_manifest is_intact
  promotable name digest x = promotable_as name digest x (read_installed_manifest x)

  abbrev pub flip : Io → Text → Text → Disk → Option ArtifactDescriptor → Outcome ArtifactDescriptor
  flip io name digest d none = failed d
  flip io name digest d (some a) =
      let (d', made) = ensure_new_dir io pointing d in
      if made && io.writes_pointer && io.replaces
      then done a (put_pointer name (pointer_file digest) d')
      else failed d'

  abbrev pub found_dir : Text → Text → Option DigestDir → Option ArtifactDescriptor
  found_dir name digest none = none
  found_dir name digest (some x) = promotable name digest x

  abbrev pub promote_digest : Io → Text → Disk → Option Text → Outcome ArtifactDescriptor
  promote_digest io name d none = failed d
  promote_digest io name d (some digest) =
      if is_name name
      then (let (d', entered) = mutation io d in
          if entered
          then flip io name digest d' (found_dir name digest (d'.digest_dirs name digest))
          else failed d')
      else failed d

  unfoldable pub promote : Io → Text → Text → Disk → Outcome ArtifactDescriptor
  unfolding mutation promotable ensure_new_dir
  promote io name value d = promote_digest io name d (normalize_sha256_digest value)
