-- ===== src/Storage/Lock/Steps.antt =====
-- How threads, processes and the file system interleave around src/sot_graph/locking.py.
use sotgraph.Prelude.{ℕ, suc, ◌≡◌, ◌≢◌, false, none, some}
use sotgraph.Storage.Lock.{
  Process, Machine, opened, flocked, set_proc, begin, try_acquire, verify_path, release, holds,
}

-- A process that has not run.
abbrev pub new_process : ℕ → Process
new_process pid = record { registry_pid = pid; held = none; attempt = none }

abbrev pub start : Machine
start = record { path = none; fresh = 0; flock = λ i. none; procs = new_process }

-- A step of a thread that has the guard of its process, a fork, whose child has a number that no
-- process had before, and the removal or replacement of the file by somebody else while no process
-- has the lock. A parent forks with no attempt under way, and no process ends.
pub data Step (m : Machine) : Machine → Type 0 where
  enters : (pid thread : ℕ) → (m.procs pid).attempt ≡ none → Step m (begin pid thread m)
  tries :
      (pid thread i : ℕ)
      → (m.procs pid).attempt ≡ some (opened thread i)
      → Step m (try_acquire pid thread i m)
  verifies :
      (pid thread i : ℕ)
      → (m.procs pid).attempt ≡ some (flocked thread i)
      → Step m (verify_path pid thread i m)
  leaves :
      (pid thread : ℕ) (m' : Machine)
      → (m.procs pid).attempt ≡ none
      → release pid thread m ≡ some m'
      → Step m m'
  forks :
      (parent child : ℕ)
      → (m.procs parent).registry_pid ≢ child
      → m.procs child ≡ new_process child
      → (m.procs parent).attempt ≡ none
      → Step m (set_proc child (m.procs parent) m)
  unlinks : ((pid : ℕ) → holds pid m ≡ false) → Step m (record m { path = none })
  replaces :
      ((pid : ℕ) → holds pid m ≡ false)
      → Step m (record m { path = some m.fresh; fresh = suc m.fresh })

pub data Reach : Machine → Type 0 where
  started : Reach start
  next : {m m' : Machine} → Reach m → Step m m' → Reach m'
