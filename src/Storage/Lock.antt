-- ===== src/Storage/Lock.antt =====
-- src/sot_graph/locking.py where `fcntl` is there, for one lock path. A process holds its registry's
-- entry for the path; the registry's guard is taken while an attempt is under way. `flock` says which
-- process has locked an inode, and a file descriptor is the inode that it names. A number that an
-- inode had is not given out again.
pub mod Steps
pub mod Invariant
pub mod Exclusion
pub mod Nesting
pub mod Owned
pub mod Progress
mod Tests
use sotgraph.Prelude.{
  ℕ, suc, ◌-◌, Bool, true, false, ◌&&◌, Option, none, some, is_some, ◌==◌, ltb, if◌then◌else◌,
}

pub record HeldLock : Type 0 where
  pub fd : ℕ
  pub owner_pid : ℕ
  pub owner_thread : ℕ
  pub depth : ℕ

-- Where a thread stands between `os.open` and the end of its turn: it has opened the file, or has
-- locked what it opened.
pub data Attempt : Type 0 where
  opened flocked : ℕ → ℕ → Attempt

pub record Process : Type 0 where
  pub registry_pid : ℕ
  pub held : Option HeldLock
  pub attempt : Option Attempt

pub record Machine : Type 0 where
  pub path : Option ℕ
  pub fresh : ℕ
  pub flock : ℕ → Option ℕ
  pub procs : ℕ → Process

abbrev pub set_proc : ℕ → Process → Machine → Machine
set_proc p pr m = record m { procs = λ q. if q == p then pr else m.procs q }

abbrev pub set_flock : ℕ → Option ℕ → Machine → Machine
set_flock i owner m = record m { flock = λ j. if j == i then owner else m.flock j }

-- `_reset_registry_after_fork`: the inherited descriptors are closed, which unlocks nothing, since
-- the parent has them too.
abbrev pub reset : ℕ → Process → Process
reset pid pr = if pr.registry_pid == pid then pr else record pr { registry_pid = pid; held = none }

abbrev pub owns : ℕ → ℕ → HeldLock → Bool
owns pid thread h = h.owner_pid == pid && h.owner_thread == thread

-- `os.open`, which makes the file where it is not there.
abbrev pub open_path : ℕ → ℕ → Machine → Process → Option ℕ → Machine
open_path pid thread m pr (some i) = set_proc pid (record pr { attempt = some (opened thread i) }) m
open_path pid thread m pr none =
    set_proc pid (record pr { attempt = some (opened thread m.fresh) })
      (record m { path = some m.fresh; fresh = suc m.fresh })

-- One turn of the loop of `acquire` up to `os.open`: the nested case, the wait for another thread,
-- or the file opened.
abbrev pub enter : ℕ → ℕ → Machine → Process → Option HeldLock → Machine
enter pid thread m pr none = open_path pid thread m pr m.path
enter pid thread m pr (some h) =
    if owns pid thread h
    then set_proc pid (record pr { held = some (record h { depth = suc h.depth }) }) m
    else set_proc pid pr m

unfoldable pub begin : ℕ → ℕ → Machine → Machine
begin pid thread m = enter pid thread m (reset pid (m.procs pid)) (reset pid (m.procs pid)).held

-- `_try_acquire`: without a wait, on the inode that was opened.
unfoldable pub try_acquire : ℕ → ℕ → ℕ → Machine → Machine
try_acquire pid thread i m =
    if is_some (m.flock i)
    then set_proc pid (record (m.procs pid) { attempt = none }) m
    else set_proc pid (record (m.procs pid) { attempt = some (flocked thread i) })
        (set_flock i (some pid) m)

-- `_fd_guards_live_path`
abbrev pub guards_live_path : ℕ → Machine → Bool
guards_live_path i m = elim m.path [ none ↦ false | some j ↦ i == j ]

-- The lock is entered in the registry, or given up where the path names another file by now.
unfoldable pub verify_path : ℕ → ℕ → ℕ → Machine → Machine
verify_path pid thread i m =
    if guards_live_path i m
    then set_proc pid
        (record (m.procs pid) {
          attempt = none;
          held = some (record { fd = i; owner_pid = pid; owner_thread = thread; depth = 1 });
        })
        m
    else set_proc pid (record (m.procs pid) { attempt = none }) (set_flock i none m)

abbrev pub run_try : ℕ → Machine → Option Attempt → Machine
run_try pid m none = m
run_try pid m (some (opened thread i)) = try_acquire pid thread i m
run_try pid m (some (flocked thread i)) = m

abbrev pub run_verify : ℕ → Machine → Option Attempt → Machine
run_verify pid m none = m
run_verify pid m (some (opened thread i)) = m
run_verify pid m (some (flocked thread i)) = verify_path pid thread i m

abbrev pub try_turn : ℕ → Machine → Machine
try_turn pid m = run_try pid m (m.procs pid).attempt

abbrev pub verify_turn : ℕ → Machine → Machine
verify_turn pid m = run_verify pid m (m.procs pid).attempt

-- A whole turn of the loop of `acquire`, in which no other process runs.
unfoldable pub acquire_turn : ℕ → ℕ → Machine → Machine
acquire_turn pid thread m = verify_turn pid (try_turn pid (begin pid thread m))

-- What `release` makes of the registry: the lock object has acquired before. `none` is the
-- RuntimeError of a thread that does not own the lock.
abbrev pub leave : ℕ → ℕ → Machine → Process → Option HeldLock → Option Machine
leave pid thread m pr none = some (set_proc pid pr m)
leave pid thread m pr (some h) =
    if owns pid thread h
    then some (
        if ltb 1 h.depth
        then set_proc pid (record pr { held = some (record h { depth = h.depth - 1 }) }) m
        else set_proc pid (record pr { held = none }) (set_flock h.fd none m))
    else none

unfoldable pub release : ℕ → ℕ → Machine → Option Machine
release pid thread m = leave pid thread m (reset pid (m.procs pid)) (reset pid (m.procs pid)).held

-- A process has the lock.
abbrev pub holds : ℕ → Machine → Bool
holds pid m = (m.procs pid).registry_pid == pid && is_some (m.procs pid).held
