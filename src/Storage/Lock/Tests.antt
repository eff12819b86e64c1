-- ===== src/Storage/Lock/Tests.antt =====
-- Runs of the lock of src/sot_graph/locking.py, and instances of what is proved about it.
use sotgraph.Prelude.{◌≡◌, refl, true, false, none, some, ◌==◌, if◌then◌else◌, arith}
use sotgraph.Storage.Lock.{HeldLock, Machine, begin, try_acquire, verify_path, acquire_turn, holds}
use sotgraph.Storage.Lock.Steps.{start, enters, tries, verifies, replaces, Reach, started, next}
use sotgraph.Storage.Lock.Exclusion.{Reach-exclusive}
use sotgraph.Storage.Lock.Progress.{acquire_turn_succeeds}

-- Thread 7 of process 1 gets the lock, and process 2 opens the file and does not.
abbrev contended : Machine
contended = try_acquire 2 9 0 (begin 2 9 (verify_path 1 7 0 (try_acquire 1 7 0 (begin 1 7 start))))

contended-Reach : Reach contended
unfolding begin try_acquire verify_path
contended-Reach =
    next
      (next (next (next (next started (enters 1 7 refl)) (tries 1 7 0 refl)) (verifies 1 7 0 refl))
        (enters 2 9 refl))
      (tries 2 9 0 refl)

contended-holds : holds 1 contended ≡ true
unfolding begin try_acquire verify_path
contended-holds = refl

Reach-exclusive_example : holds 2 contended ≡ false
Reach-exclusive_example =
    Reach-exclusive contended 1 2 contended-Reach contended-holds (ground arith)

abbrev taken : HeldLock
taken = record { fd = 4; owner_pid = 1; owner_thread = 7; depth = 2 }

-- The registry of process 1 has the lock on the file 4 twice.
abbrev nested : Machine
nested = record {
  path = some 4;
  fresh = 5;
  flock = λ i. if i == 4 then some 1 else none;
  procs =
      λ p. record { registry_pid = p; held = if p == 1 then some taken else none; attempt = none };
}

-- The file is there, and no process has opened it.
abbrev quiet : Machine
quiet = record start { path = some 0; fresh = 1 }

quiet-Reach : Reach quiet
quiet-Reach = next started (replaces (λ p. ground arith))

acquire_turn_succeeds_example : holds 3 (acquire_turn 3 5 quiet) ≡ true
acquire_turn_succeeds_example =
    acquire_turn_succeeds quiet 3 5 quiet-Reach (λ p. (ground arith, refl))
