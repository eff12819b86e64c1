-- ===== src/Providers/Artifacts/Pinned.antt =====
-- `ArtifactManifest.parse` and `manifest_bytes` of src/sot_graph/providers/artifacts.py undo one
-- another.
use sotgraph.Prelude.{
  ◌≡◌, refl, sym, ap, ◌∙◌, subst, true, Option, none, some, List, [], ◌∷◌, ◌++◌, all, ◌==◌,
  Bool-cases, inl, inr, arith,
}
use sotgraph.Prelude.Text.{Text, same, same-eq, same_refl, strip, lower}
use sotgraph.Providers.Artifacts.Digests.{
  IsDigest, normalize-IsDigest, normalize_normal, lower_small, hex-space,
}
use sotgraph.Prelude.Strip.{strip_none, all_mono}
use sotgraph.Providers.Artifacts.Manifest.{
  Json, object, no_object, Value, ArtifactManifest, is_name, is_commit, is_small_hex, is_exact,
  protocol_version, parse_fields, parse_json, parse, as_dict, manifest_bytes,
}
use sotgraph.Prelude.Options.{◌>>=◌, >>=-eq-some, some_injective, guard_lem}

pub record IsPinned (host : Option Text) (m : ArtifactManifest) : Type 0 where
  pub schema : m.schema_version ≡ 1
  pub named : is_name m.name ≡ true
  pub commit : is_commit m.engine_commit ≡ true
  pub digest : IsDigest m.digest
  pub here : host ≡ some m.platform
  pub protocol : m.protocol ≡ protocol_version

fields-IsPinned :
    (host : Option Text) (fs : List (Text × Value)) (m : ArtifactManifest)
    → parse_fields host fs ≡ some m
    → IsPinned host m
unfolding parse_fields
fields-IsPinned host fs m h =
    let (_, _, h₁) = >>=-eq-some _ _ h in
    let (name, _, h₂) = >>=-eq-some _ _ h₁ in
    let (_, named, h₃) = >>=-eq-some _ _ h₂ in
    let (commit, _, h₄) = >>=-eq-some _ _ h₃ in
    let (_, hash, h₅) = >>=-eq-some _ _ h₄ in
    let (value, _, h₆) = >>=-eq-some _ _ h₅ in
    let (digest, normal, h₇) = >>=-eq-some _ _ h₆ in
    let (platform, _, h₈) = >>=-eq-some _ _ h₇ in
    let (here, hosted, h₉) = >>=-eq-some _ _ h₈ in
    let (_, there, h₁₀) = >>=-eq-some _ _ h₉ in
    let (protocol, _, h₁₁) = >>=-eq-some _ _ h₁₀ in
    let (_, spoken, h₁₂) = >>=-eq-some _ _ h₁₁ in
    let p : platform ≡ here = same-eq _ _ (guard_lem _ _ there) in
    let q : protocol ≡ protocol_version = same-eq _ _ (guard_lem _ _ spoken) in
    let r : ArtifactManifest = record {
      schema_version = 1;
      name = name;
      digest = digest;
      platform = platform;
      protocol = protocol;
      engine_commit = lower (strip commit);
    } in
    let made : r ≡ m = some_injective r m h₁₂ in
    subst (IsPinned host) made (record {
      schema = refl;
      named = guard_lem _ _ named;
      commit = guard_lem _ _ hash;
      digest = normalize-IsDigest value digest normal;
      here = hosted ∙ ap some (sym p);
      protocol = q;
    })

json-IsPinned :
    (host : Option Text) (o : Option Json) (m : ArtifactManifest)
    → parse_json host o ≡ some m
    → IsPinned host m
json-IsPinned host none m h = cc
json-IsPinned host (some (object fs)) m h = elim (Bool-cases (is_exact fs)) [
  | inl e ↦ fields-IsPinned host fs m (rw e at h)
  | inr e ↦ (let h' = rw e at h in cc)
]
json-IsPinned host (some no_object) m h = cc

pub parse-IsPinned :
    (json_loads : Text → Option Json) (host : Option Text) (b : Text) (m : ArtifactManifest)
    → parse json_loads host b ≡ some m
    → IsPinned host m
unfolding parse
parse-IsPinned json_loads host b m h = json-IsPinned host (json_loads b) m h

commit-hex : (t : Text) → is_commit t ≡ true → all is_small_hex t ≡ true
unfolding is_commit
commit-hex t h = ground arith

pinned-fields :
    (host : Option Text) (m : ArtifactManifest)
    → IsPinned host m
    → parse_fields host (as_dict m) ≡ some m
unfolding parse_fields ◌>>=◌
pinned-fields host m p =
    let hex = commit-hex m.engine_commit p.commit in
    let schema = p.schema in
    let stripped = strip_none m.engine_commit (all_mono _ _ hex-space m.engine_commit hex) in
    let commit : lower (strip m.engine_commit) ≡ m.engine_commit =
      ap lower stripped ∙ lower_small m.engine_commit hex in
    let normal = normalize_normal m.digest p.digest in
    let here = p.here in
    let there = same_refl m.platform in
    let spoken : same m.protocol protocol_version ≡ true =
      subst (λ t. same m.protocol t ≡ true) p.protocol (same_refl m.protocol) in
    let ver : m.schema_version == 1 ≡ true = ground arith in
    rw (ver, p.named, commit, p.commit, normal, here, there, spoken)
      (ap (λ n. some (record m { schema_version = n })) (sym schema))

pub parse-manifest_bytes :
    (json_loads : Text → Option Json) (json_dumps : List (Text × Value) → Text) (host : Option Text)
    (m : ArtifactManifest)
    → json_loads (json_dumps (as_dict m) ++ (10 ∷ [])) ≡ some (object (as_dict m))
    → IsPinned host m
    → parse json_loads host (manifest_bytes json_dumps m) ≡ some m
unfolding parse manifest_bytes is_exact
parse-manifest_bytes json_loads json_dumps host m read p = rw read (pinned-fields host m p)
