-- ===== src/Storage/Lock/Nesting.antt =====
-- Nested and foreign use of a lock that a process has (src/sot_graph/locking.py).
use sotgraph.Prelude.{
  ℕ, suc, ◌-◌, ◌≡◌, refl, sym, ap, ◌∙◌, subst, true, false, none, some, ◌==◌, ltb, ◌≤◌,
  if◌then◌else◌, Bool-cases, inl, inr, arith,
}
use sotgraph.Storage.Lock.{
  HeldLock, Process, Machine, set_proc, reset, owns, enter, begin, leave, release,
}

set_proc-at :
    (m : Machine) (p : ℕ) (pr : Process)
    → pr ≡ m.procs p
    → (q : ℕ) → (if q == p then pr else m.procs q) ≡ m.procs q
set_proc-at m p pr e q = elim (Bool-cases (q == p)) [
  | inl s ↦ (let same : p ≡ q = ground arith in rw s (e ∙ ap m.procs same))
  | inr d ↦ rw d refl
]

set_proc_idem : (m : Machine) (p : ℕ) (pr : Process) → pr ≡ m.procs p → set_proc p pr m ≡ m
set_proc_idem m p pr e = λ i. record m { procs = λ q. set_proc-at m p pr e q i }

set_proc-twice-at :
    (m : Machine) (p : ℕ) (pr pr' : Process)
    → (q : ℕ)
    → (if q == p then pr else if q == p then pr' else m.procs q)
      ≡ (if q == p then pr else m.procs q)
set_proc-twice-at m p pr pr' q = elim (Bool-cases (q == p)) [
  | inl s ↦ rw s refl
  | inr d ↦ rw d refl
]

set_proc-twice :
    (m : Machine) (p : ℕ) (pr pr' : Process) → set_proc p pr (set_proc p pr' m) ≡ set_proc p pr m
set_proc-twice m p pr pr' = λ i. record m { procs = λ q. set_proc-twice-at m p pr pr' q i }

module _ (pid thread : ℕ) (m : Machine) (h : HeldLock) (r : (m.procs pid).registry_pid ≡ pid)
    (e : (m.procs pid).held ≡ some h) where
  reset-own : reset pid (m.procs pid) ≡ m.procs pid
  reset-own = let s : (m.procs pid).registry_pid == pid ≡ true = ground arith in rw s refl

  -- What a thread that does not own the lock does to it: to acquire waits, and to release is an
  -- error.
  pub begin-foreign :
      owns pid thread h ≡ false → (begin pid thread m ≡ m) × (release pid thread m ≡ none)
  unfolding begin release
  begin-foreign o = (
    subst (λ pr. enter pid thread m pr pr.held ≡ m) (sym reset-own)
        (subst (λ x. enter pid thread m (m.procs pid) x ≡ m) (sym e)
          (rw o (set_proc_idem m pid (m.procs pid) refl))),
    subst (λ pr. leave pid thread m pr pr.held ≡ none) (sym reset-own)
        (subst (λ x. leave pid thread m (m.procs pid) x ≡ none) (sym e) (rw o refl)),
  )

  deeper : Process
  deeper = record (m.procs pid) { held = some (record h { depth = suc h.depth }) }

  begin-nested : owns pid thread h ≡ true → begin pid thread m ≡ set_proc pid deeper m
  unfolding begin deeper
  begin-nested o =
      subst (λ pr. enter pid thread m pr pr.held ≡ set_proc pid deeper m) (sym reset-own)
        (subst (λ x. enter pid thread m (m.procs pid) x ≡ set_proc pid deeper m) (sym e)
          (rw o refl))

  release-set_proc :
      owns pid thread h ≡ true
      → release pid thread (set_proc pid deeper m)
        ≡ leave pid thread (set_proc pid deeper m) deeper deeper.held
  unfolding release deeper
  release-set_proc o =
      let s : pid == pid ≡ true = ground arith in
      let t : (m.procs pid).registry_pid == pid ≡ true = ground arith in rw s (rw t refl)

  -- To acquire a lock again and release it once leaves everything as it was: the lock is still held,
  -- as deep as before.
  pub begin-release :
      owns pid thread h ≡ true → 1 ≤ h.depth → release pid thread (begin pid thread m) ≡ some m
  unfolding deeper
  begin-release o d =
      subst (λ s. release pid thread s ≡ some m) (sym (begin-nested o))
        (release-set_proc o
          ∙ (let more : ltb 1 (suc h.depth) ≡ true = ground arith in
              let less : suc h.depth - 1 ≡ h.depth = ground arith in
              let same_depth : record (m.procs pid) {
                held = some (record h { depth = suc h.depth - 1 });
              }
                  ≡ record (m.procs pid) { held = some h } =
                λ i. record (m.procs pid) { held = some (record h { depth = less i }) } in
              rw o (
                rw more (
                  ap some (
                    set_proc-twice m pid _ deeper
                    ∙ set_proc_idem m pid _
                        (same_depth ∙ (λ i. record (m.procs pid) { held = sym e i })))))))
