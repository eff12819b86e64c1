-- ===== src/Storage/Lock/Progress.antt =====
-- No lock is left behind, so a thread that finds the lock free gets it (src/sot_graph/locking.py).
use sotgraph.Prelude.{
  ℕ, suc, ◌≡◌, refl, sym, ap, ◌∙◌, subst, true, false, ◌&&◌, Option, none, some, is_some, ◌==◌,
  Bool-cases, Option-cases, inl, inr, arith,
}
use sotgraph.Storage.Lock.{
  Process, Machine, opened, flocked, set_proc, set_flock, reset, open_path, enter, begin,
  try_acquire, guards_live_path, verify_path, run_try, run_verify, try_turn, verify_turn,
  acquire_turn, holds,
}
use sotgraph.Storage.Lock.Steps.{Reach}
use sotgraph.Storage.Lock.Owned.{Owned, Reach-Owned}

-- A machine that no process uses.
abbrev pub Idle : Machine → Type 0
Idle m = (p : ℕ) → (holds p m ≡ false) × ((m.procs p).attempt ≡ none)

Idle-flock : (m : Machine) → Owned m → Idle m → (i : ℕ) → m.flock i ≡ none
Idle-flock m owned idle i = elim (Option-cases (m.flock i)) [
  | inl e ↦ e
  | inr (p, e) ↦
      (let (r, u) = owned i p e in
        let (h, a) = idle p in
        elim (Option-cases (m.procs p).held) [
          | inl none_held ↦ absurd (ground arith)
          | inr (k, some_held) ↦ absurd (ground arith)
        ])
]

set_proc_self : (m : Machine) (p : ℕ) (pr : Process) → (set_proc p pr m).procs p ≡ pr
set_proc_self m p pr = let s : p == p ≡ true = ground arith in rw s refl

verify_live :
    (pid thread i : ℕ) (m : Machine)
    → guards_live_path i m ≡ true
    → (m.procs pid).registry_pid ≡ pid
    → holds pid (verify_path pid thread i m) ≡ true
unfolding verify_path
verify_live pid thread i m live r =
    let s : pid == pid ≡ true = ground arith in
    let t : (m.procs pid).registry_pid == pid ≡ true = ground arith in rw live (rw s (rw t refl))

module _ (pid thread i : ℕ) (m : Machine) (free : m.flock i ≡ none) (named : m.path ≡ some i)
    (r : (m.procs pid).registry_pid ≡ pid) where
  to_lock : Process
  to_lock = record (m.procs pid) { attempt = some (flocked thread i) }

  locked : Machine
  locked = set_proc pid to_lock (set_flock i (some pid) m)

  try_free : try_acquire pid thread i m ≡ locked
  unfolding try_acquire locked to_lock
  try_free = rw free refl

  verify_free : holds pid (verify_turn pid locked) ≡ true
  unfolding locked to_lock
  verify_free =
      let here : locked.procs pid ≡ to_lock =
        set_proc_self (set_flock i (some pid) m) pid to_lock in
      let mine : (locked.procs pid).registry_pid ≡ pid = ap (λ pr. pr.registry_pid) here ∙ r in
      let live : guards_live_path i locked ≡ true = rw named (ground arith) in
      subst (λ a. holds pid (run_verify pid locked a) ≡ true) (ap (λ pr. pr.attempt) (sym here))
        (verify_live pid thread i locked live mine)

  -- A turn that opens a free inode takes the lock, where the path still names the inode.
  take_free :
      (m.procs pid).attempt ≡ some (opened thread i)
      → holds pid (verify_turn pid (try_turn pid m)) ≡ true
  take_free a =
      subst (λ x. holds pid (verify_turn pid (run_try pid m x)) ≡ true) (sym a)
        (subst (λ n. holds pid (verify_turn pid n) ≡ true) (sym try_free) verify_free)

module _ (pid thread : ℕ) (m : Machine) (pr : Process) (free : (i : ℕ) → m.flock i ≡ none)
    (r : pr.registry_pid ≡ pid) where
  open_free :
      (path : Option ℕ)
      → m.path ≡ path
      → holds pid (verify_turn pid (try_turn pid (open_path pid thread m pr path))) ≡ true
  open_free (some i) e =
      let here = set_proc_self m pid (record pr { attempt = some (opened thread i) }) in
      take_free pid thread i (set_proc pid (record pr { attempt = some (opened thread i) }) m)
        (free i) e (ap (λ p. p.registry_pid) here ∙ r) (ap (λ p. p.attempt) here)
  open_free none e =
      let here =
        set_proc_self (record m { path = some m.fresh; fresh = suc m.fresh }) pid
          (record pr { attempt = some (opened thread m.fresh) }) in
      take_free pid thread m.fresh (open_path pid thread m pr none) (free m.fresh) refl
        (ap (λ p. p.registry_pid) here ∙ r) (ap (λ p. p.attempt) here)

reset-empty :
    (pid : ℕ) (pr : Process)
    → (pr.registry_pid == pid && is_some pr.held) ≡ false
    → ((reset pid pr).held ≡ none) × ((reset pid pr).registry_pid ≡ pid)
reset-empty pid pr h = elim (Bool-cases (pr.registry_pid == pid)) [
  | inr e ↦ rw e (refl, refl)
  | inl e ↦
      (let h' = rw e at h in
        rw e (elim (Option-cases pr.held) [
          | inl n ↦ (n, ground arith)
          | inr (k, s) ↦ absurd (ground arith)
        ]))
]

-- Where no process has the lock or tries to get it, the next turn of any thread gets it.
pub acquire_turn_succeeds :
    (m : Machine) (pid thread : ℕ) → Reach m → Idle m → holds pid (acquire_turn pid thread m) ≡ true
unfolding acquire_turn begin
acquire_turn_succeeds m pid thread reach idle =
    let (empty, r) = reset-empty pid (m.procs pid) (idle pid).0 in
    subst
      (λ h.
        holds pid (verify_turn pid (try_turn pid (enter pid thread m (reset pid (m.procs pid)) h)))
        ≡ true)
      (sym empty)
      (open_free pid thread m (reset pid (m.procs pid)) (Idle-flock m (Reach-Owned reach) idle) r
        m.path refl)
