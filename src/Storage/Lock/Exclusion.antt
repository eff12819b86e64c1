-- ===== src/Storage/Lock/Exclusion.antt =====
-- One writer at a time, for every interleaving of Storage/Lock/Steps (src/sot_graph/locking.py).
use sotgraph.Prelude.{
  ℕ, suc, ◌-◌, ◌≡◌, ◌≢◌, inl, inr, refl, sym, subst, true, false, Option, none, some, ltb,
  Bool-cases, Option-cases, arith,
}
use sotgraph.Storage.Lock.{
  HeldLock, Process, Machine, Attempt, opened, flocked, set_proc, set_flock, reset, owns, open_path,
  enter, begin, try_acquire, guards_live_path, verify_path, leave, release, holds,
}
use sotgraph.Storage.Lock.Steps.{
  Step, enters, tries, verifies, leaves, forks, unlinks, replaces, Reach, started, next,
}
use sotgraph.Storage.Lock.Invariant.{
  HasLock, MayTry, Inv, start-Inv, HasLock-take, IsGood-take, set_proc-Inv, reset-IsGood,
  HasLock-create, MayTry-none,
}

module _ (pid thread : ℕ) (m : Machine) (inv : Inv m) where
  open_path-Inv :
      (pr : Process) (path : Option ℕ)
      → pr.held ≡ none
      → pr.registry_pid ≡ pid
      → m.path ≡ path
      → Inv (open_path pid thread m pr path)
  open_path-Inv pr (some i) e r named =
      set_proc-Inv m pid _ (λ _. subst (HasLock m.flock m.path pid) (sym e) tt, (r, e))
        (λ q _. inv q)
  open_path-Inv pr none e r missing =
      set_proc-Inv (record m { path = some m.fresh; fresh = suc m.fresh }) pid _
        (λ _. subst (HasLock m.flock (some m.fresh) pid) (sym e) tt, (r, e))
        (λ q _. (
          λ k.
              HasLock-create m.flock m.path (some m.fresh) q (m.procs q).held missing ((inv q).0 k),
          (inv q).1,
        ))

  enter-Inv :
      (pr : Process) (held : Option HeldLock)
      → pr.held ≡ held
      → pr.attempt ≡ none
      → pr.registry_pid ≡ pid
      → HasLock m.flock m.path pid held
      → Inv (enter pid thread m pr held)
  enter-Inv pr (some h) e a r (l, p) = elim (Bool-cases (owns pid thread h)) [
    | inl o ↦ rw o (
        set_proc-Inv m pid _ (λ _. (l, p), MayTry-none m.flock pid pr.registry_pid _ pr.attempt a)
          (λ q _. inv q))
    | inr o ↦ rw o (
        set_proc-Inv m pid pr
          (
            λ _. subst (HasLock m.flock m.path pid) (sym e) (l, p),
            MayTry-none m.flock pid pr.registry_pid pr.held pr.attempt a,
          )
          (λ q _. inv q))
  ]
  enter-Inv pr none e a r h = open_path-Inv pr m.path e r refl

  begin-Inv : (m.procs pid).attempt ≡ none → Inv (begin pid thread m)
  unfolding begin
  begin-Inv free =
      let (h, a, r) = reset-IsGood m.flock m.path pid (m.procs pid) free (inv pid) in
      enter-Inv (reset pid (m.procs pid)) _ refl a r h

  tried :
      (i : ℕ) (a : Attempt)
      → (m.procs pid).attempt ≡ some a
      → MayTry m.flock pid (m.procs pid).registry_pid (m.procs pid).held (some a)
  tried i a e =
      subst (MayTry m.flock pid (m.procs pid).registry_pid (m.procs pid).held) e (inv pid).1

  try_acquire-Inv :
      (i : ℕ) → (m.procs pid).attempt ≡ some (opened thread i) → Inv (try_acquire pid thread i m)
  unfolding try_acquire
  try_acquire-Inv i e =
      let (r, n) = tried i (opened thread i) e in
      elim (Option-cases (m.flock i)) [
        | inr (q, taken) ↦ rw taken (set_proc-Inv m pid _ ((inv pid).0, tt) (λ q _. inv q))
        | inl free ↦ rw free (
            set_proc-Inv (set_flock i (some pid) m) pid _
              (
                λ k.
                    HasLock-take m.flock m.path pid i (some pid) (m.procs pid).held (λ p. cc)
                      ((inv pid).0 k),
                (r, n, ground arith),
              )
              (λ q _. IsGood-take m.flock m.path q i (some pid) (m.procs q) (λ p. cc) (inv q)))
      ]

  verify_path-Inv :
      (i : ℕ) → (m.procs pid).attempt ≡ some (flocked thread i) → Inv (verify_path pid thread i m)
  unfolding verify_path
  verify_path-Inv i e =
      let (r, n, own) = tried i (flocked thread i) e in
      elim (Bool-cases (guards_live_path i m)) [
        | inl live ↦ rw live (set_proc-Inv m pid _ (λ _. (own, ground arith), tt) (λ q _. inv q))
        | inr dead ↦ rw dead (
            set_proc-Inv (set_flock i none m) pid _
              (λ _. subst (HasLock _ m.path pid) (sym n) tt, tt)
              (λ q other.
                IsGood-take m.flock m.path q i none (m.procs q) (λ p. other (ground arith))
                  (inv q)))
      ]

  leave-Inv :
      (pr : Process) (held : Option HeldLock) (m' : Machine)
      → pr.held ≡ held
      → pr.attempt ≡ none
      → pr.registry_pid ≡ pid
      → HasLock m.flock m.path pid held
      → leave pid thread m pr held ≡ some m'
      → Inv m'
  leave-Inv pr none m' e a r h k =
      let same : set_proc pid pr m ≡ m' = ground arith in
      subst Inv same (
        set_proc-Inv m pid pr
          (
            λ _. subst (HasLock m.flock m.path pid) (sym e) tt,
            MayTry-none m.flock pid pr.registry_pid pr.held pr.attempt a,
          )
          (λ q _. inv q))
  leave-Inv pr (some h) m' e a r (l, p) k = elim (Bool-cases (owns pid thread h)) [
    | inr o ↦ (let k' = rw o at k in cc)
    | inl o ↦ elim (Bool-cases (ltb 1 h.depth)) [
      | inl more ↦
          let same : set_proc pid (record pr { held = some (record h { depth = h.depth - 1 }) }) m
              ≡ m' =
            ground arith in
          subst Inv same (
            set_proc-Inv m pid (record pr { held = some (record h { depth = h.depth - 1 }) })
              (λ _. (l, p), MayTry-none m.flock pid pr.registry_pid _ pr.attempt a) (λ q _. inv q))
      | inr last ↦
          let same : set_proc pid (record pr { held = none }) (set_flock h.fd none m) ≡ m' =
            ground arith in
          subst Inv same (
            set_proc-Inv (set_flock h.fd none m) pid (record pr { held = none })
              (λ _. tt, MayTry-none _ pid pr.registry_pid none pr.attempt a)
              (λ q other.
                IsGood-take m.flock m.path q h.fd none (m.procs q) (λ p. other (ground arith))
                  (inv q)))
    ]
  ]

  release-Inv :
      (m' : Machine) → (m.procs pid).attempt ≡ none → release pid thread m ≡ some m' → Inv m'
  unfolding release
  release-Inv m' free k =
      let (h, a, r) = reset-IsGood m.flock m.path pid (m.procs pid) free (inv pid) in
      leave-Inv (reset pid (m.procs pid)) _ m' refl a r h k

module _ (m : Machine) (inv : Inv m) where
  fork-Inv :
      (parent child : ℕ)
      → (m.procs parent).registry_pid ≢ child
      → (m.procs parent).attempt ≡ none
      → Inv (set_proc child (m.procs parent) m)
  fork-Inv parent child ne free =
      set_proc-Inv m child (m.procs parent)
        (λ k. absurd (ne k), MayTry-none m.flock child _ _ (m.procs parent).attempt free)
        (λ q _. inv q)

  no_holder : (p : ℕ) → holds p m ≡ false → (m.procs p).registry_pid ≡ p → (m.procs p).held ≡ none
  no_holder p h r = elim (Option-cases (m.procs p).held) [ inl e ↦ e | inr (k, e) ↦ ground arith ]

  relabel-Inv :
      (path : Option ℕ) (fresh : ℕ)
      → ((p : ℕ) → holds p m ≡ false)
      → Inv (record m { path = path; fresh = fresh })
  relabel-Inv path fresh none_holds p =
      (λ r. subst (HasLock m.flock path p) (sym (no_holder p (none_holds p) r)) tt, (inv p).1)

Step-Inv : {m m' : Machine} → Step m m' → Inv m → Inv m'
Step-Inv {m} (enters pid thread free) inv = begin-Inv pid thread m inv free
Step-Inv {m} (tries pid thread i e) inv = try_acquire-Inv pid thread m inv i e
Step-Inv {m} (verifies pid thread i e) inv = verify_path-Inv pid thread m inv i e
Step-Inv {m} {m'} (leaves pid thread _ free e) inv = release-Inv pid thread m inv m' free e
Step-Inv {m} (forks parent child ne new free) inv = fork-Inv m inv parent child ne free
Step-Inv {m} (unlinks free) inv = relabel-Inv m inv none m.fresh free
Step-Inv {m} (replaces free) inv = relabel-Inv m inv (some m.fresh) (suc m.fresh) free

pub Reach-Inv : {m : Machine} → Reach m → Inv m
Reach-Inv started = start-Inv
Reach-Inv (next r s) = Step-Inv s (Reach-Inv r)

HasLock-of_holds :
    (m : Machine) (p : ℕ)
    → Inv m
    → holds p m ≡ true
    → (i : ℕ) × (m.flock i ≡ some p) × (m.path ≡ some i)
HasLock-of_holds m p inv h = elim (Option-cases (m.procs p).held) [
  | inl e ↦ absurd (ground arith)
  | inr (k, e) ↦
      (let (locked, named) = subst (HasLock m.flock m.path p) e ((inv p).0 (ground arith)) in
        (k.fd, locked, named))
]

one_holder : (m : Machine) (p q : ℕ) → Inv m → holds p m ≡ true → holds q m ≡ true → p ≡ q
one_holder m p q inv hp hq =
    let (i, fi, pi) = HasLock-of_holds m p inv hp in
    let (j, fj, pj) = HasLock-of_holds m q inv hq in ground arith

-- However threads, processes and forks interleave, where no process ends and none forks with an
-- attempt under way, and whatever happens to the file while nobody has the lock: while one process
-- has the lock, no other process has it.
pub Reach-exclusive :
    (m : Machine) (p q : ℕ) → Reach m → holds p m ≡ true → p ≢ q → holds q m ≡ false
Reach-exclusive m p q r hp other = elim (Bool-cases (holds q m)) [
  | inl hq ↦ absurd (other (one_holder m p q (Reach-Inv r) hp hq))
  | inr e ↦ e
]
