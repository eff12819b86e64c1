-- ===== src/Providers/Artifacts/Manifest.antt =====
-- `ArtifactManifest.parse` of src/sot_graph/providers/artifacts.py, over what `json.loads` returns.
use sotgraph.Prelude.{
  ℕ, Bool, false, ◌&&◌, ◌||◌, Option, none, some, List, [], ◌∷◌, ◌++◌, ◌==◌, ℤ, pos, leb, all, any,
  length, if◌then◌else◌,
}
use sotgraph.Prelude.Options.{◌>>=◌, ◌>>◌, guard}
use sotgraph.Prelude.Text.{Text, codes, same, strip, lower}
use sotgraph.Providers.Compatibility.{normalize_sha256_digest}

pub data Value : Type 0 where
  int : ℤ → Value
  string : Text → Value
  others : Value

pub data Json : Type 0 where
  object : List (Text × Value) → Json
  no_object : Json

pub record ArtifactManifest : Type 0 where
  pub schema_version : ℕ
  pub name : Text
  pub digest : Text
  pub platform : Text
  pub protocol : Text
  pub engine_commit : Text

abbrev pub protocol_version : Text
protocol_version = codes "artifacts-v1"

abbrev is_lower_or_digit : ℕ → Bool
is_lower_or_digit c = (leb b'a' c && leb c b'z') || (leb b'0' c && leb c b'9')

abbrev is_name_code : ℕ → Bool
is_name_code c = is_lower_or_digit c || c == b'.' || c == b'_' || c == b'-'

-- `_NAME_RE`
unfoldable pub is_name : Text → Bool
is_name [] = false
is_name (c ∷ cs) = is_lower_or_digit c && all is_name_code cs && leb (length cs) 63

abbrev pub is_small_hex : ℕ → Bool
is_small_hex c = (leb b'0' c && leb c b'9') || (leb b'a' c && leb c b'f')

-- `_COMMIT_RE`
unfoldable pub is_commit : Text → Bool
is_commit s = all is_small_hex s && leb 7 (length s) && leb (length s) 64

abbrev pub manifest_keys : List Text
manifest_keys =
    codes "schema_version"
    ∷ codes "name"
    ∷ codes "digest"
    ∷ codes "platform"
    ∷ codes "protocol"
    ∷ codes "engine_commit"
    ∷ []

abbrev pub get : Text → List (Text × Value) → Option Value
get k [] = none
get k ((j, v) ∷ rest) = let later = get k rest in if same j k then some v else later

abbrev pub has_key : Text → List (Text × Value) → Bool
has_key k = any (λ e. same e.0 k)

-- The keys are exactly those of a manifest.
unfoldable pub is_exact : List (Text × Value) → Bool
is_exact fs = all (λ e. any (same e.0) manifest_keys) fs && all (λ k. has_key k fs) manifest_keys

abbrev pub string_of : Option Value → Option Text
string_of (some (string s)) = some s
string_of _ = none

abbrev pub is_version : Option Value → Bool
is_version (some (int (pos n))) = n == 1
is_version _ = false

unfoldable pub parse_fields : Option Text → List (Text × Value) → Option ArtifactManifest
unfolding is_name is_commit
parse_fields host fs = do
  guard (is_version (get (codes "schema_version") fs))
  name ← string_of (get (codes "name") fs)
  guard (is_name name)
  commit ← string_of (get (codes "engine_commit") fs)
  guard (is_commit (lower (strip commit)))
  value ← string_of (get (codes "digest") fs)
  digest ← normalize_sha256_digest value
  platform ← string_of (get (codes "platform") fs)
  here ← host
  guard (same platform here)
  protocol ← string_of (get (codes "protocol") fs)
  guard (same protocol protocol_version)
  some (record {
    schema_version = 1;
    name = name;
    digest = digest;
    platform = platform;
    protocol = protocol;
    engine_commit = lower (strip commit);
  })

abbrev pub parse_json : Option Text → Option Json → Option ArtifactManifest
parse_json host none = none
parse_json host (some no_object) = none
parse_json host (some (object fs)) = if is_exact fs then parse_fields host fs else none

unfoldable pub parse : (Text → Option Json) → Option Text → Text → Option ArtifactManifest
unfolding parse_fields is_exact
parse json_loads host bytes = parse_json host (json_loads bytes)

abbrev pub same_manifest : ArtifactManifest → ArtifactManifest → Bool
same_manifest a b =
    a.schema_version == b.schema_version
    && same a.name b.name
    && same a.digest b.digest
    && same a.platform b.platform
    && same a.protocol b.protocol
    && same a.engine_commit b.engine_commit

-- The entries in the order of their keys.
abbrev pub as_dict : ArtifactManifest → List (Text × Value)
as_dict m =
    (codes "digest", string m.digest)
    ∷ (codes "engine_commit", string m.engine_commit)
    ∷ (codes "name", string m.name)
    ∷ (codes "platform", string m.platform)
    ∷ (codes "protocol", string m.protocol)
    ∷ (codes "schema_version", int (pos m.schema_version))
    ∷ []

unfoldable pub manifest_bytes : (List (Text × Value) → Text) → ArtifactManifest → Text
manifest_bytes json_dumps m = json_dumps (as_dict m) ++ (10 ∷ [])
