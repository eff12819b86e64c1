-- ===== src/Assurance/State/Reasons.antt =====
-- The reason codes beside the status of src/sot_graph/assurance/state.py.
use sotgraph.Prelude.{
  ◌<◌, ◌≡◌, ◌↔◌, refl, sym, ap, Bool, true, false, List, [], ◌∷◌, ◌++◌, String, arith, nonempty,
  if◌then◌else◌, length, length-append,
}
use mathlib.Core.List.{append-nil, append_assoc}
use sotgraph.Assurance.State.{
  Status, assured_within_scope, partial, conflicted, stale, unverifiable, abstained, severity,
  ReasonCode, truncation, transitive_truncated, AssuranceFacts, Collected, emit, emit_sources,
  reduce, identity_reason, IdentityStatus, unique, not_found, ambiguous, finish, collect_scope,
  collect_truncation, collect_evidence, decide,
}
use sotgraph.Assurance.State.Spec.{top, top-append, severity-reduce}

data IsFailing : Status → Type 0 where
  partial_fails : IsFailing partial
  conflicted_fails : IsFailing conflicted
  stale_fails : IsFailing stale
  unverifiable_fails : IsFailing unverifiable
  abstained_fails : IsFailing abstained

ruleset failing =
    (partial_fails, conflicted_fails, stale_fails, unverifiable_fails, abstained_fails)

severity_pos : {s : Status} → IsFailing s → 0 < severity s
severity_pos partial_fails = omega arith
severity_pos conflicted_fails = omega arith
severity_pos stale_fails = omega arith
severity_pos unverifiable_fails = omega arith
severity_pos abstained_fails = omega arith

-- A code for each candidate, and no candidate that assures.
record Paired (c : Collected) : Type 0 where
  counted : length c.reasons ≡ length c.candidates
  grave : nonempty c.candidates ≡ true → 0 < top c.candidates

abbrev start : Collected
start = record { reasons = []; candidates = [] }

start-Paired : Paired start
start-Paired = record { counted = refl; grave = λ e. cc }

emit-Paired :
    (b : Bool) (r : ReasonCode) (s : Status) (c : Collected)
    → IsFailing s
    → Paired c
    → Paired (emit b r s c)
unfolding emit
emit-Paired false r s c e h = h
emit-Paired true r s c e h = record {
  counted =
      omega
        (arith, h.counted, length-append c.reasons (r ∷ []), length-append c.candidates (s ∷ []));
  grave = λ n. omega (arith, top-append c.candidates (s ∷ []), severity_pos e);
}

emit_sources-Paired :
    (sources : List String) (c : Collected) → Paired c → Paired (emit_sources sources c)
unfolding emit_sources
emit_sources-Paired [] c h = h
emit_sources-Paired (s ∷ rest) c h =
    emit_sources-Paired rest (emit true (truncation s) partial c)
      (emit-Paired true (truncation s) partial c partial_fails h)

if-Paired : (b : Bool) (c d : Collected) → Paired c → Paired d → Paired (if b then c else d)
if-Paired true c d h k = h
if-Paired false c d h k = k

-- The capped collections that a list of codes names, in order.
abbrev pub named : List ReasonCode → List String
named [] = []
named (truncation s ∷ rs) = s ∷ named rs
named (_ ∷ rs) = named rs

named-append : (rs qs : List ReasonCode) → named (rs ++ qs) ≡ named rs ++ named qs
named-append [] qs = refl
named-append (truncation s ∷ rs) qs = ap (◌∷◌ s) (named-append rs qs)
named-append (_ ∷ rs) qs = named-append rs qs

named-emit :
    (b : Bool) (r : ReasonCode) (s : Status) (c : Collected)
    → named (emit b r s c).reasons ≡ named c.reasons ++ (if b then named (r ∷ []) else [])
unfolding emit
named-emit false r s c = rw append-nil
named-emit true r s c = named-append c.reasons (r ∷ [])

named-identity_reason : (i : IdentityStatus) → named (identity_reason i ∷ []) ≡ []
named-identity_reason unique = refl
named-identity_reason not_found = refl
named-identity_reason ambiguous = refl

if_same {ℓ} : {A : Type ℓ} (b : Bool) (x : A) → (if b then x else x) ≡ x
if_same true x = refl
if_same false x = refl

named-emit_sources :
    (sources : List String) (c : Collected)
    → named (emit_sources sources c).reasons ≡ named c.reasons ++ sources
unfolding emit_sources emit
named-emit_sources [] c = rw append-nil
named-emit_sources (s ∷ rest) c =
    rw (named-emit_sources rest (emit true (truncation s) partial c), named-append)
      (append_assoc (named c.reasons) (s ∷ []) rest)

named_sources :
    (sources : List String) (b : Bool) (c : Collected)
    → named
        (if nonempty sources
          then emit_sources sources c
          else emit b transitive_truncated partial c).reasons
      ≡ named c.reasons ++ sources
named_sources [] b c = simp (named-emit, if_same)
named_sources (s ∷ rest) b c = named-emit_sources (s ∷ rest) c

-- With as many codes as candidates, no code is dropped by the early return.
finish-reasons : (c : Collected) → Paired c → (finish c).reason_codes ≡ c.reasons
unfolding finish
finish-reasons c h = ground (arith, h.counted)

reduce-assured :
    (ss : List Status)
    → (nonempty ss ≡ true → 0 < top ss)
    → reduce ss ≡ assured_within_scope
    → ss ≡ []
reduce-assured [] g e = refl
reduce-assured (s ∷ ss) g e =
    absurd (omega (arith, g refl, severity-reduce (s ∷ ss), ap severity e))

length-nil : {A B : Type 0} (rs : List A) (ss : List B) → length rs ≡ length ss → rs ≡ [] → ss ≡ []
length-nil rs [] h e = refl
length-nil rs (s ∷ ss) h e = absurd (omega (arith, ap length e))

finish-assured_iff :
    (c : Collected) → Paired c → ((finish c).status ≡ assured_within_scope) ↔ (c.reasons ≡ [])
unfolding finish reduce
finish-assured_iff c h = (
  λ e. length-nil c.candidates c.reasons (sym h.counted) (reduce-assured c.candidates h.grave e),
  λ e. rw (length-nil c.reasons c.candidates h.counted e),
)

module _ {F : Type 0} (below : F → F → Bool) (f : AssuranceFacts F) where
  pairing :
      (c : Collected)
      → Paired c
      → Paired (collect_evidence below f (collect_truncation below f (collect_scope below f c)))
  unfolding collect_scope collect_truncation collect_evidence
  pairing c h = search (failing, emit-Paired, emit_sources-Paired, if-Paired) depth 20

  named-collect_scope : (c : Collected) → named (collect_scope below f c).reasons ≡ named c.reasons
  unfolding collect_scope
  named-collect_scope c = simp (named-emit, named-identity_reason, if_same, append-nil)

  named-collect_truncation :
      (c : Collected)
      → named (collect_truncation below f c).reasons ≡ named c.reasons ++ f.truncation_sources
  unfolding collect_truncation
  named-collect_truncation c = named_sources f.truncation_sources f.truncated c

  named-collect_evidence :
      (c : Collected) → named (collect_evidence below f c).reasons ≡ named c.reasons
  unfolding collect_evidence
  named-collect_evidence c = simp (named-emit, if_same, append-nil)

  -- The reason codes name exactly the collections that were cut, in the order they were reported.
  pub named-decide : named (decide below f).reason_codes ≡ f.truncation_sources
  unfolding decide
  named-decide =
      rw (finish-reasons _ (pairing start start-Paired))
        (simp (named-collect_evidence, named-collect_truncation, named-collect_scope))

  -- A verdict is assured exactly when no reason code is given.
  pub decide-assured_iff :
      ((decide below f).status ≡ assured_within_scope) ↔ ((decide below f).reason_codes ≡ [])
  unfolding decide
  decide-assured_iff =
      rw (finish-reasons _ (pairing start start-Paired))
        (finish-assured_iff _ (pairing start start-Paired))
