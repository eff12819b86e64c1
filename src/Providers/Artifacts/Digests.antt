-- ===== src/Providers/Artifacts/Digests.antt =====
-- The normal form of a SHA-256 digest (`normalize_sha256_digest`), and `str.strip` on it.
use mathlib.Core.List.{reverse, reverse-append}
use sotgraph.Prelude.{
  ℕ, suc, ◌≡◌, refl, ap, ◌∙◌, subst, true, not, ◌&&◌, some, [], ◌∷◌, ◌++◌, length, all, ◌==◌,
  equal_numbers, Bool-cases, inl, inr, arith,
}
use sotgraph.Prelude.Strip.{all_mono, both, drop-reverse, strip_none}
use sotgraph.Prelude.Text.{Text, strip, drop_while, is_space, lower, lower_code}
use sotgraph.Providers.Compatibility.{normalize_sha256_digest, is_hex, bare_digest}
use sotgraph.Providers.Artifacts.Manifest.{is_small_hex}

pub record IsDigest (t : Text) : Type 0 where
  pub hex : all is_small_hex t ≡ true
  pub long : length t ≡ 64

lower-hex : (c : ℕ) → is_hex c ≡ true → is_small_hex (lower_code c) ≡ true
lower-hex c h = ground arith

lower-all : (t : Text) → all is_hex t ≡ true → all is_small_hex (lower t) ≡ true
lower-all [] h = refl
lower-all (c ∷ cs) h =
    let k = lower-all cs (ground arith) in let l = lower-hex c (ground arith) in rw (l, k)

length-lower : (t : Text) → length (lower t) ≡ length t
length-lower [] = refl
length-lower (c ∷ cs) = ap suc (length-lower cs)

pub normalize-IsDigest : (v t : Text) → normalize_sha256_digest v ≡ some t → IsDigest t
unfolding normalize_sha256_digest
normalize-IsDigest v t h =
    let d = bare_digest (strip v) in
    elim (Bool-cases (all is_hex d && length d == 64)) [
      | inr e ↦ (let h' = rw e at h in cc)
      | inl e ↦
          let h' = rw e at h in
          let (hex, long) = both _ _ e in
          subst IsDigest (cc)
            (record { hex = lower-all d hex; long = length-lower d ∙ equal_numbers _ _ long })
    ]

pub lower_small : (t : Text) → all is_small_hex t ≡ true → lower t ≡ t
lower_small [] h = refl
lower_small (c ∷ cs) h = ground (arith, lower_small cs)

-- The file of a pointer ends in a line break.
pub strip_newline :
    (c : ℕ) (t : Text)
    → all (λ d. not (is_space d)) (c ∷ t) ≡ true
    → strip ((c ∷ t) ++ (10 ∷ [])) ≡ c ∷ t
strip_newline c t h =
    let first : drop_while is_space ((c ∷ t) ++ (10 ∷ [])) ≡ (c ∷ t) ++ (10 ∷ []) = ground arith in
    ap (λ u. reverse (drop_while is_space (reverse u))) first
    ∙ ap (λ u. reverse (drop_while is_space u)) (reverse-append (c ∷ t) (10 ∷ []))
    ∙ drop-reverse (c ∷ t) h

pub hex-space : (c : ℕ) → is_small_hex c ≡ true → not (is_space c) ≡ true
hex-space c h = ground arith

hex-hex : (c : ℕ) → is_small_hex c ≡ true → is_hex c ≡ true
hex-hex c h = ground arith

bare_small : (t : Text) → all is_small_hex t ≡ true → bare_digest t ≡ t
bare_small [] h = refl
bare_small (c ∷ cs) h = ground arith

-- A digest in normal form is left as it is.
pub normalize_normal : (t : Text) → IsDigest t → normalize_sha256_digest t ≡ some t
unfolding normalize_sha256_digest
normalize_normal t d =
    let stripped : strip t ≡ t = strip_none t (all_mono _ _ hex-space t d.hex) in
    let bare : bare_digest (strip t) ≡ t = ap bare_digest stripped ∙ bare_small t d.hex in
    let hex : all is_hex t ≡ true = all_mono _ _ hex-hex t d.hex in
    let long = d.long in let kept = lower_small t d.hex in rw bare (ground arith)

digest_line : (t : Text) → IsDigest t → strip (t ++ (10 ∷ [])) ≡ t
digest_line [] d = absurd (let h = d.long in ground arith)
digest_line (c ∷ cs) d = strip_newline c cs (all_mono _ _ hex-space (c ∷ cs) d.hex)

pub normalize-line :
    (t : Text) → IsDigest t → normalize_sha256_digest (strip (t ++ (10 ∷ []))) ≡ some t
normalize-line t d = rw (digest_line t d) (normalize_normal t d)
