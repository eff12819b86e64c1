-- ===== src/Storage/Freshness/Background.antt =====
-- `spawn_background_reconcile` of src/sot_graph/freshness.py, with the lock file as its state. Times are
-- milliseconds; the log, and calls that overlap, are left out.
use mathlib.Core.List.{append-nil}
use sotgraph.Prelude.Strip.{both}
use sotgraph.Prelude.{
  ltb→lt, lt→ltb, leb→le, le→leb, ◌<◌, ◌≤◌, ◌+◌, sym, ◌∙◌, ℕ, ◌-◌, ◌*◌, ◌≡◌, refl, ap, Bool, true,
  false, ◌&&◌, Option, none, some, List, [], ◌∷◌, ◌++◌, leb, ltb, All, Bool-cases, inl, inr,
  if◌then◌else◌, arith,
}
use sotgraph.Prelude.Options.{some_injective}

pub data LockFile : Type 0 where
  -- no file, one that cannot be read, no JSON, or a text that is no number where a number belongs
  unusable : LockFile
  -- JSON that is no object, or an object with a list or an object where a number belongs
  misshapen : LockFile
  holder : (pid started : ℕ) → LockFile

-- One call: the time, the processes that run, and what the system answers.
pub record Launch : Type 0 where
  pub now : ℕ
  pub is_alive : ℕ → Bool
  pub opens_log : Bool
  pub child : Option ℕ
  pub writes_lock : Bool

-- The lock file after a call, the process launched, and the answer, missing where the call raises.
pub record Reply : Type 0 where
  pub lock : LockFile
  pub launched : List ℕ
  pub answer : Option Bool

abbrev pub lock_ttl : ℕ
lock_ttl = 180 * 1000

abbrev pub is_busy : Launch → ℕ → ℕ → Bool
is_busy l pid started =
    ltb 0 pid && leb started l.now && ltb (l.now - started) lock_ttl && l.is_alive pid

abbrev pub launch_child : Launch → LockFile → Option ℕ → Reply
launch_child l lock none = record { lock = lock; launched = []; answer = some false }
launch_child l lock (some pid) =
    if l.writes_lock
    then record { lock = holder pid l.now; launched = pid ∷ []; answer = some true }
    else record { lock = lock; launched = pid ∷ []; answer = some false }

abbrev pub launch : Launch → LockFile → Reply
launch l lock =
    if l.opens_log
    then launch_child l lock l.child
    else record { lock = lock; launched = []; answer = some false }

unfoldable pub spawn_background_reconcile : Launch → LockFile → Reply
spawn_background_reconcile l unusable = launch l unusable
spawn_background_reconcile l misshapen = record { lock = misshapen; launched = []; answer = none }
spawn_background_reconcile l (holder pid started) =
    if is_busy l pid started
    then record { lock = holder pid started; launched = []; answer = some false }
    else launch l (holder pid started)

-- Calls one after another: all the processes that they launch.
unfoldable pub run_calls : List Launch → LockFile → List ℕ
unfolding spawn_background_reconcile
run_calls [] lock = []
run_calls (l ∷ ls) lock =
    let r = spawn_background_reconcile l lock in r.launched ++ run_calls ls r.lock

-- A later call, made less than three minutes after the lock was taken, while its holder runs.
pub record IsSoon (pid started : ℕ) (l : Launch) : Type 0 where
  pub is_process : 0 < pid
  pub is_later : started ≤ l.now
  pub is_young : l.now < started + 180000
  pub runs : l.is_alive pid ≡ true

is_busy-IsSoon :
    (l : Launch) (pid started : ℕ) → is_busy l pid started ≡ true → IsSoon pid started l
is_busy-IsSoon l pid started e =
    let (r, d) = both _ (l.is_alive pid) e in
    let (t, c) = both _ (ltb (l.now - started) lock_ttl) r in
    let (a, b) = both (ltb 0 pid) (leb started l.now) t in
    let later = leb→le started l.now b in
    let gap = ltb→lt (l.now - started) lock_ttl c in
    record { is_process = ltb→lt 0 pid a; is_later = later; is_young = omega arith; runs = d }

IsSoon-is_busy :
    (l : Launch) (pid started : ℕ) → IsSoon pid started l → is_busy l pid started ≡ true
IsSoon-is_busy l pid started g =
    let gap : l.now - started < lock_ttl = omega (arith, g.is_later, g.is_young) in
    rw
      (
        lt→ltb 0 pid g.is_process,
        le→leb started l.now g.is_later,
        lt→ltb (l.now - started) lock_ttl gap,
        g.runs,
      )
      refl

held-none :
    (pid started : ℕ) (ls rest : List Launch)
    → All (IsSoon pid started) ls
    → run_calls (ls ++ rest) (holder pid started) ≡ run_calls rest (holder pid started)
unfolding run_calls spawn_background_reconcile
held-none pid started [] rest g = refl
held-none pid started (l ∷ ls) rest (g, gs) =
    rw (IsSoon-is_busy l pid started g) (held-none pid started ls rest gs)

-- A call that is able to launch a process.
pub record IsAble (l : Launch) (pid : ℕ) : Type 0 where
  pub opens : l.opens_log ≡ true
  pub starts : l.child ≡ some pid

able-launches :
    (l : Launch) (lock : LockFile) (pid : ℕ) → IsAble l pid → (launch l lock).launched ≡ pid ∷ []
able-launches l lock pid a = elim (Bool-cases l.writes_lock) [
  | inl w ↦ simp (a.opens, a.starts, w) refl
  | inr w ↦ simp (a.opens, a.starts, w) refl
]

freed-launches :
    (k : Launch) (pid started next : ℕ)
    → IsAble k next
    → ¬ IsSoon pid started k
    → run_calls (k ∷ []) (holder pid started) ≡ next ∷ []
unfolding run_calls spawn_background_reconcile
freed-launches k pid started next a n = elim (Bool-cases (is_busy k pid started)) [
  | inl b ↦ absurd (n (is_busy-IsSoon k pid started b))
  | inr b ↦ rw b (ap (λ xs. xs ++ []) (able-launches k (holder pid started) next a))
]

-- What a call that answers yes has done.
pub record IsLaunched (l : Launch) (pid : ℕ) (r : Reply) : Type 0 where
  pub locks : r.lock ≡ holder pid l.now
  pub launches : r.launched ≡ pid ∷ []

child-IsLaunched :
    (l : Launch) (lock : LockFile) (pid : ℕ) (o : Option ℕ)
    → o ≡ some pid
    → (launch_child l lock o).answer ≡ some true
    → IsLaunched l pid (launch_child l lock o)
child-IsLaunched l lock pid none e a = ground arith
child-IsLaunched l lock pid (some q) e a = elim (Bool-cases l.writes_lock) [
  | inl w ↦
      let k = some_injective q pid e in
      rw w (record { locks = ap (λ n. holder n l.now) k; launches = ap (λ n. n ∷ []) k })
  | inr w ↦ let f = some_injective false true (rw w at a) in ground arith
]

launch-IsLaunched :
    (l : Launch) (lock : LockFile) (pid : ℕ)
    → l.child ≡ some pid
    → (launch l lock).answer ≡ some true
    → IsLaunched l pid (launch l lock)
launch-IsLaunched l lock pid e a = elim (Bool-cases l.opens_log) [
  | inl o ↦ simp (o) (child-IsLaunched l lock pid l.child e (rw o at a))
  | inr o ↦ let f = some_injective false true (rw o at a) in ground arith
]

spawn-IsLaunched :
    (l : Launch) (lock : LockFile) (pid : ℕ)
    → l.child ≡ some pid
    → (spawn_background_reconcile l lock).answer ≡ some true
    → IsLaunched l pid (spawn_background_reconcile l lock)
unfolding spawn_background_reconcile
spawn-IsLaunched l unusable pid e a = launch-IsLaunched l unusable pid e a
spawn-IsLaunched l misshapen pid e a = ground arith
spawn-IsLaunched l (holder p s) pid e a = elim (Bool-cases (is_busy l p s)) [
  | inl b ↦ let f = some_injective false true (rw b at a) in ground arith
  | inr b ↦ rw b (launch-IsLaunched l (holder p s) pid e (rw b at a))
]

-- After a call that launched a process and answered yes: calls made later, less than three minutes
-- after it, while that process, whose id is positive, runs, launch no other. The first call after
-- these that is able to launch a process, and is made when one of these conditions fails (the process
-- has ended, three minutes have passed, or the clock was set back), does launch one.
pub run_calls-once :
    (l : Launch) (ls : List Launch) (lock : LockFile) (pid : ℕ)
    → l.child ≡ some pid
    → (spawn_background_reconcile l lock).answer ≡ some true
    → All (IsSoon pid l.now) ls
    → (run_calls (l ∷ ls) lock ≡ pid ∷ [])
      × ((k : Launch) (next : ℕ)
          → IsAble k next
          → ¬ IsSoon pid l.now k
          → run_calls (l ∷ (ls ++ (k ∷ []))) lock ≡ pid ∷ next ∷ [])
unfolding run_calls
run_calls-once l ls lock pid e a g =
    let k = spawn-IsLaunched l lock pid e a in
    (
      rw (k.locks, k.launches)
          (ap (λ xs. pid ∷ xs)
            (ap (λ xs. run_calls xs (holder pid l.now)) (sym (append-nil ls))
              ∙ held-none pid l.now ls [] g)),
      λ j next able late.
          rw (k.locks, k.launches)
            (ap (λ xs. pid ∷ xs)
              (held-none pid l.now ls (j ∷ []) g ∙ freed-launches j pid l.now next able late)),
    )
