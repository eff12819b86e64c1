-- ===== src/Providers/Artifacts/Tests.antt =====
-- Runs of the store of src/sot_graph/providers/artifacts.py, and its theorems at them, with an encoding
-- of manifests that is read back.
use sotgraph.Prelude.{
  ℕ, zero, suc, ◌≡◌, refl, ap, ◌∙◌, true, Option, none, some, List, [], ◌∷◌, ◌++◌, is_some, pos,
  if◌then◌else◌, nonempty,
}
use sotgraph.Prelude.Text.{Text, codes}
use sotgraph.Providers.Compatibility.{normalize_sha256_digest}
use sotgraph.Providers.Artifacts.Manifest.{
  Json, object, Value, int, string, ArtifactManifest, as_dict, manifest_bytes, parse, is_name,
}
use sotgraph.Prelude.Options.{◌>>=◌}
use sotgraph.Providers.Artifacts.Files.{Disk, DigestDir, regular}
use sotgraph.Providers.Artifacts.{ArtifactDescriptor, done, Io, resolve, promote}
use sotgraph.Providers.Artifacts.Operations.{
  Operation, importing, promoting, uninstalling, perform, run, after,
}
use sotgraph.Providers.Artifacts.Verified.{IsVerified, resolve-IsVerified}
use sotgraph.Providers.Artifacts.Kept.{IsKept, perform-IsKept}
use sotgraph.Providers.Artifacts.Promoted.{resolve-promote}
use sotgraph.Providers.Artifacts.Sound.{IsSound}
use sotgraph.Providers.Artifacts.Steady.{resolve-run}

-- A text, ended by a zero.
abbrev put_text : Text → Text → Text
put_text [] rest = 0 ∷ rest
put_text (c ∷ cs) rest = suc c ∷ put_text cs rest

abbrev put_entry : Text × Value → Text → Text
put_entry (k, string v) rest = put_text k (put_text [] (put_text v rest))
put_entry (k, int (pos n)) rest = put_text k (put_text (0 ∷ []) (put_text (n ∷ []) rest))
put_entry (k, v) rest = rest

abbrev dumps : List (Text × Value) → Text
dumps [] = []
dumps (e ∷ es) = put_entry e (dumps es)

abbrev extend : ℕ → List Text → List Text
extend c [] = []
extend c (t ∷ ts) = (c ∷ t) ∷ ts

abbrev texts : Text → List Text
texts [] = []
texts (zero ∷ cs) = [] ∷ texts cs
texts (suc c ∷ cs) = extend c (texts cs)

abbrev entries : List Text → List (Text × Value)
entries (k ∷ [] ∷ v ∷ rest) = (k, string v) ∷ entries rest
entries (k ∷ (t ∷ ts) ∷ (n ∷ ns) ∷ rest) = (k, int (pos n)) ∷ entries rest
entries _ = []

abbrev loads : Text → Option Json
loads s = some (object (entries (texts s)))

texts-put : (t rest : Text) → texts (put_text t rest) ≡ t ∷ texts rest
texts-put [] rest = refl
texts-put (c ∷ cs) rest = ap (extend c) (texts-put cs rest)

put-append : (t rest s : Text) → put_text t rest ++ s ≡ put_text t (rest ++ s)
put-append [] rest s = refl
put-append (c ∷ cs) rest s = ap (λ u. suc c ∷ u) (put-append cs rest s)

texts-put_append : (t rest s : Text) → texts (put_text t rest ++ s) ≡ t ∷ texts (rest ++ s)
texts-put_append t rest s = ap texts (put-append t rest s) ∙ texts-put t (rest ++ s)

read_string :
    (k v rest s : Text)
    → entries (texts (put_entry (k, string v) rest ++ s))
      ≡ (k, string v) ∷ entries (texts (rest ++ s))
read_string k v rest s = ap entries (
    texts-put_append k (put_text [] (put_text v rest)) s
    ∙ ap (λ ts. k ∷ [] ∷ ts) (texts-put_append v rest s))

read_int :
    (k : Text) (n : ℕ) (rest s : Text)
    → entries (texts (put_entry (k, int (pos n)) rest ++ s))
      ≡ (k, int (pos n)) ∷ entries (texts (rest ++ s))
read_int k n rest s = ap entries (texts-put_append k (put_text (0 ∷ []) (put_text (n ∷ []) rest)) s)

read_back :
    (m : ArtifactManifest) → loads (dumps (as_dict m) ++ (10 ∷ [])) ≡ some (object (as_dict m))
read_back m =
    ap (λ es. some (object es))
      (read_string _ _ _ _
        ∙ ap (λ es. (codes "digest", string m.digest) ∷ es)
            (read_string _ _ _ _
              ∙ ap (λ es. (codes "engine_commit", string m.engine_commit) ∷ es)
                  (read_string _ _ _ _
                    ∙ ap (λ es. (codes "name", string m.name) ∷ es)
                        (read_string _ _ _ _
                          ∙ ap (λ es. (codes "platform", string m.platform) ∷ es)
                              (read_string _ _ _ _
                                ∙ ap (λ es. (codes "protocol", string m.protocol) ∷ es)
                                    (read_int _ _ [] (10 ∷ [])))))))

abbrev pinned : Text
pinned = codes "aaaaaaaaaaaaaaaaaaaaaaaaaaaaaaaaaaaaaaaaaaaaaaaaaaaaaaaaaaaaaaaa"

abbrev hash : Text → Text
hash bytes = pinned

abbrev here : Option Text
here = some (codes "linux-x86_64")

abbrev decoded : Text → Option Text
decoded t = some t

abbrev cbm : ArtifactManifest
cbm = record {
  schema_version = 1;
  name = codes "cbm";
  digest = pinned;
  platform = codes "linux-x86_64";
  protocol = codes "artifacts-v1";
  engine_commit = codes "abcdef0";
}

abbrev smooth : Io
smooth = record {
  makes = λ p. true;
  secures = λ p. true;
  locks = true;
  stages = true;
  opens_source = true;
  same_source = true;
  reads_source = true;
  content = 7 ∷ [];
  size = 1;
  writes_manifest = true;
  planted = none;
  renames = true;
  writes_pointer = true;
  replaces = true;
  unlinks = true;
}

abbrev empty : Disk
empty = record {
  folders = λ p. none;
  root_is_real = true;
  digest_dirs = λ n g. none;
  pointers = λ n. none;
}

abbrev import_it : Operation
import_it =
    importing smooth (some (record { kind = regular; owned = true })) (manifest_bytes dumps cbm)

abbrev promote_it : Operation
promote_it = promoting smooth (codes "cbm") pinned

abbrev stored : List Operation → Disk
stored ops = run loads hash here (manifest_bytes dumps) decoded ops empty

abbrev handed : ArtifactDescriptor
handed = record {
  name = codes "cbm";
  digest = pinned;
  platform = codes "linux-x86_64";
  protocol = codes "artifacts-v1";
  engine_commit = codes "abcdef0";
}

resolved :
    resolve loads hash here decoded (codes "cbm") (stored (import_it ∷ promote_it ∷ []))
    ≡ some (some handed)
unfolding resolve run manifest_bytes parse ◌>>=◌ normalize_sha256_digest
resolved = refl

abbrev both_run : Disk
both_run = stored (import_it ∷ promote_it ∷ [])

resolve-IsVerified_example :
    (handed.name ≡ codes "cbm")
    × ((x : DigestDir) × (both_run.digest_dirs (codes "cbm") handed.digest ≡ some x)
        × IsVerified loads hash here handed.digest x)
resolve-IsVerified_example =
    resolve-IsVerified loads hash here decoded (codes "cbm") both_run handed resolved

-- A promotion of what is not there.
perform-IsKept_example :
    IsKept empty (perform loads hash here (manifest_bytes dumps) decoded promote_it empty)
perform-IsKept_example =
    perform-IsKept loads hash here (manifest_bytes dumps) decoded promote_it empty

-- Somebody has put a file into the directory of the artifact.
abbrev littered : Disk
littered =
    let d = stored (import_it ∷ []) in
    record d {
      digest_dirs = λ n g. elim (d.digest_dirs n g) [
        | none ↦ none
        | some x ↦ some (record x { strays = codes "notes" ∷ [] })
      ];
    }

littered_promoted :
    promote loads hash here smooth (codes "cbm") pinned littered
    ≡ done handed (after (promote loads hash here smooth (codes "cbm") pinned littered))
unfolding promote run manifest_bytes parse ◌>>=◌ normalize_sha256_digest
littered_promoted = refl

resolve-promote_example :
    (x : DigestDir) × (littered.digest_dirs (codes "cbm") handed.digest ≡ some x)
    × (resolve loads hash here decoded
          (codes "cbm")
          (after (promote loads hash here smooth (codes "cbm") pinned littered))
        ≡ (if nonempty x.strays then none else some (some handed)))
resolve-promote_example =
    resolve-promote loads hash here decoded (λ t h. refl) smooth (codes "cbm") pinned littered
      handed _ littered_promoted

littered_unresolved :
    resolve loads hash here decoded
      (codes "cbm")
      (after (promote loads hash here smooth (codes "cbm") pinned littered))
    ≡ none
unfolding resolve promote run manifest_bytes parse ◌>>=◌ normalize_sha256_digest
littered_unresolved = refl

empty-IsSound : IsSound loads hash here decoded empty
empty-IsSound = record {
  dirs = λ n g x h. absurd (cc h);
  targets = λ n f h. absurd (cc h);
  rooted = λ n f h. cc;
}

cbm_named : is_name (codes "cbm") ≡ true
unfolding is_name
cbm_named = refl

abbrev three : List Operation
three = import_it ∷ promote_it ∷ uninstalling smooth (codes "cbm") pinned ∷ []

resolve-run_example :
    (r : Option ArtifactDescriptor) × (resolve loads hash here decoded (codes "cbm") (stored three)
      ≡ some r)
    × (is_some r ≡ is_some ((stored three).pointers (codes "cbm")))
resolve-run_example =
    resolve-run loads hash here decoded (λ t h. refl) dumps read_back three empty (codes "cbm")
      (refl, (tt, (tt, tt))) empty-IsSound cbm_named
