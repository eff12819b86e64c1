-- ===== src/Storage/Lock/Owned.antt =====
-- Every locked inode of src/sot_graph/locking.py is in the registry of its process, or about to be.
use sotgraph.Prelude.{
  ℕ, suc, ◌-◌, ◌≡◌, ◌≢◌, refl, subst, Bool, true, false, ◌||◌, Option, none, some, ◌==◌, ltb,
  Bool-cases, Option-cases, inl, inr, arith,
}
use sotgraph.Storage.Lock.{
  HeldLock, Process, Machine, Attempt, opened, flocked, set_proc, set_flock, reset, owns, open_path,
  enter, begin, try_acquire, guards_live_path, verify_path, leave, release,
}
use sotgraph.Storage.Lock.Steps.{
  new_process, start, Step, enters, tries, verifies, leaves, forks, unlinks, replaces, Reach,
  started, next,
}
use sotgraph.Storage.Lock.Invariant.{MayTry, Inv}
use sotgraph.Storage.Lock.Exclusion.{Reach-Inv}

abbrev held_on : ℕ → Option HeldLock → Bool
held_on i none = false
held_on i (some h) = h.fd == i

abbrev tried_on : ℕ → Option Attempt → Bool
tried_on i none = false
tried_on i (some (opened t j)) = false
tried_on i (some (flocked t j)) = j == i

abbrev Uses : ℕ → ℕ → Process → Type 0
Uses p i pr = (pr.registry_pid ≡ p) × ((held_on i pr.held || tried_on i pr.attempt) ≡ true)

-- An inode that is locked is in its process's registry, or about to be.
abbrev pub Owned : Machine → Type 0
Owned m = (i p : ℕ) → m.flock i ≡ some p → Uses p i (m.procs p)

start-Owned : Owned start
start-Owned i p e = cc

set_proc-Owned :
    (m : Machine) (pid : ℕ) (pr : Process)
    → ((i : ℕ) → m.flock i ≡ some pid → Uses pid i pr)
    → ((i q : ℕ) → q ≢ pid → m.flock i ≡ some q → Uses q i (m.procs q))
    → Owned (set_proc pid pr m)
set_proc-Owned m pid pr g others i q e = elim (Bool-cases (q == pid)) [
  | inl s ↦
      let same : pid ≡ q = ground arith in rw s (subst (λ r. Uses r i pr) same (g i (ground arith)))
  | inr d ↦ rw d (others i q (λ same. ground arith) e)
]

module _ (pid thread : ℕ) (m : Machine) (owned : Owned m) where
  reset-Uses : (i : ℕ) → m.flock i ≡ some pid → Uses pid i (reset pid (m.procs pid))
  reset-Uses i e =
      let (r, u) = owned i pid e in
      let same : (m.procs pid).registry_pid == pid ≡ true = ground arith in rw same (r, u)

  open_path-Owned :
      (pr : Process) (path : Option ℕ)
      → pr.held ≡ none
      → pr.attempt ≡ none
      → ((i : ℕ) → m.flock i ≡ some pid → Uses pid i pr)
      → Owned (open_path pid thread m pr path)
  open_path-Owned pr (some i) h a u =
      set_proc-Owned m pid _ (λ j e. let v = (u j e).1 in absurd (ground arith))
        (λ j q _ e. owned j q e)
  open_path-Owned pr none h a u =
      set_proc-Owned (record m { path = some m.fresh; fresh = suc m.fresh }) pid _
        (λ j e. let v = (u j e).1 in absurd (ground arith)) (λ j q _ e. owned j q e)

  enter-Owned :
      (pr : Process) (held : Option HeldLock)
      → pr.held ≡ held
      → pr.attempt ≡ none
      → ((i : ℕ) → m.flock i ≡ some pid → Uses pid i pr)
      → Owned (enter pid thread m pr held)
  enter-Owned pr none h a u = open_path-Owned pr m.path h a u
  enter-Owned pr (some k) h a u = elim (Bool-cases (owns pid thread k)) [
    | inl o ↦ rw o (
        set_proc-Owned m pid _ (λ j e. let (r, v) = u j e in (r, ground arith))
          (λ j q _ e. owned j q e))
    | inr o ↦ rw o (set_proc-Owned m pid pr u (λ j q _ e. owned j q e))
  ]

  begin-Owned : (m.procs pid).attempt ≡ none → Owned (begin pid thread m)
  unfolding begin
  begin-Owned free = enter-Owned (reset pid (m.procs pid)) _ refl (ground arith) reset-Uses

  try_acquire-Owned :
      (i : ℕ)
      → (m.procs pid).attempt ≡ some (opened thread i)
      → (m.procs pid).registry_pid ≡ pid
      → (m.procs pid).held ≡ none
      → Owned (try_acquire pid thread i m)
  unfolding try_acquire
  try_acquire-Owned i a r h = elim (Option-cases (m.flock i)) [
    | inr (q, taken) ↦ rw taken (
        set_proc-Owned m pid _ (λ j e. let v = (owned j pid e).1 in absurd (ground arith))
          (λ j q _ e. owned j q e))
    | inl free ↦ rw free (
        set_proc-Owned (set_flock i (some pid) m) pid _
          (λ j e. (r, let v = owned j pid in ground arith))
          (λ j q other e. owned j q (ground arith)))
  ]

  verify_path-Owned :
      (i : ℕ)
      → (m.procs pid).attempt ≡ some (flocked thread i)
      → (m.procs pid).registry_pid ≡ pid
      → (m.procs pid).held ≡ none
      → Owned (verify_path pid thread i m)
  unfolding verify_path
  verify_path-Owned i a r h = elim (Bool-cases (guards_live_path i m)) [
    | inl live ↦ rw live (
        set_proc-Owned m pid _ (λ j e. let v = (owned j pid e).1 in (r, ground arith))
          (λ j q _ e. owned j q e))
    | inr dead ↦ rw dead (
        set_proc-Owned (set_flock i none m) pid _
          (λ j e. let v = owned j pid in absurd (ground arith))
          (λ j q other e. owned j q (ground arith)))
  ]

  leave-Owned :
      (pr : Process) (held : Option HeldLock) (m' : Machine)
      → pr.held ≡ held
      → pr.attempt ≡ none
      → ((i : ℕ) → m.flock i ≡ some pid → Uses pid i pr)
      → leave pid thread m pr held ≡ some m'
      → Owned m'
  leave-Owned pr none m' h a u k =
      let same : set_proc pid pr m ≡ m' = ground arith in
      subst Owned same (set_proc-Owned m pid pr u (λ j q _ e. owned j q e))
  leave-Owned pr (some l) m' h a u k = elim (Bool-cases (owns pid thread l)) [
    | inr o ↦ (let k' = rw o at k in cc)
    | inl o ↦ elim (Bool-cases (ltb 1 l.depth)) [
      | inl more ↦
          let same : set_proc pid (record pr { held = some (record l { depth = l.depth - 1 }) }) m
              ≡ m' =
            ground arith in
          subst Owned same (
            set_proc-Owned m pid (record pr { held = some (record l { depth = l.depth - 1 }) })
              (λ j e. let (r, v) = u j e in (r, ground arith)) (λ j q _ e. owned j q e))
      | inr last ↦
          let same : set_proc pid (record pr { held = none }) (set_flock l.fd none m) ≡ m' =
            ground arith in
          subst Owned same (
            set_proc-Owned (set_flock l.fd none m) pid (record pr { held = none })
              (λ j e. let v = u j in absurd (ground arith))
              (λ j q other e. owned j q (ground arith)))
    ]
  ]

  release-Owned :
      (m' : Machine) → (m.procs pid).attempt ≡ none → release pid thread m ≡ some m' → Owned m'
  unfolding release
  release-Owned m' free k =
      leave-Owned (reset pid (m.procs pid)) _ m' refl (ground arith) reset-Uses k

fork-Owned :
    (m : Machine) (parent child : ℕ)
    → Owned m
    → m.procs child ≡ new_process child
    → Owned (set_proc child (m.procs parent) m)
fork-Owned m parent child owned new =
    set_proc-Owned m child _
      (λ j e. let v = subst (Uses child j) new (owned j child e) in absurd (ground arith))
      (λ j q _ e. owned j q e)

tried :
    (m : Machine) (pid : ℕ) (a : Attempt)
    → Inv m
    → (m.procs pid).attempt ≡ some a
    → MayTry m.flock pid (m.procs pid).registry_pid (m.procs pid).held (some a)
tried m pid a inv e =
    subst (MayTry m.flock pid (m.procs pid).registry_pid (m.procs pid).held) e (inv pid).1

Step-Owned : {m m' : Machine} → Step m m' → Inv m → Owned m → Owned m'
Step-Owned {m} (enters pid thread free) inv o = begin-Owned pid thread m o free
Step-Owned {m} (tries pid thread i e) inv o =
    let (r, h) = tried m pid (opened thread i) inv e in try_acquire-Owned pid thread m o i e r h
Step-Owned {m} (verifies pid thread i e) inv o =
    let (r, h, _) = tried m pid (flocked thread i) inv e in verify_path-Owned pid thread m o i e r h
Step-Owned {m} {m'} (leaves pid thread _ free e) inv o = release-Owned pid thread m o m' free e
Step-Owned {m} (forks parent child ne new free) inv o = fork-Owned m parent child o new
Step-Owned (unlinks free) inv o = o
Step-Owned (replaces free) inv o = o

pub Reach-Owned : {m : Machine} → Reach m → Owned m
Reach-Owned started = start-Owned
Reach-Owned (next r s) = Step-Owned s (Reach-Inv r) (Reach-Owned r)
