-- ===== src/Storage/Lock/Invariant.antt =====
-- The invariant of the lock of src/sot_graph/locking.py, and how it survives a change of one process.
use sotgraph.Prelude.{
  ℕ, ◌≡◌, ◌≢◌, inl, inr, refl, sym, subst, Option, none, some, ◌==◌, if◌then◌else◌, Bool-cases,
  arith,
}
use sotgraph.Storage.Lock.{HeldLock, Process, Machine, Attempt, opened, flocked, set_proc, reset}
use sotgraph.Storage.Lock.Steps.{start}

-- The lock that a registry shows is the process's, and on the file that the path names.
abbrev pub HasLock : (ℕ → Option ℕ) → Option ℕ → ℕ → Option HeldLock → Type 0
HasLock flock path p none = Unit
HasLock flock path p (some h) = (flock h.fd ≡ some p) × (path ≡ some h.fd)

-- An attempt is made with an empty registry.
abbrev pub MayTry : (ℕ → Option ℕ) → ℕ → ℕ → Option HeldLock → Option Attempt → Type 0
MayTry flock p registry_pid held none = Unit
MayTry flock p registry_pid held (some (opened thread i)) = (registry_pid ≡ p) × (held ≡ none)
MayTry flock p registry_pid held (some (flocked thread i)) =
    (registry_pid ≡ p) × (held ≡ none) × (flock i ≡ some p)

abbrev pub IsGood : (ℕ → Option ℕ) → Option ℕ → ℕ → Process → Type 0
IsGood flock path p pr =
    (pr.registry_pid ≡ p → HasLock flock path p pr.held)
    × MayTry flock p pr.registry_pid pr.held pr.attempt

abbrev pub Inv : Machine → Type 0
Inv m = (p : ℕ) → IsGood m.flock m.path p (m.procs p)

pub start-Inv : Inv start
start-Inv p = (λ e. tt, tt)

-- A lock that is taken on a free inode, or given back by its process, is no one else's.
pub HasLock-take :
    (flock : ℕ → Option ℕ) (path : Option ℕ) (p i : ℕ) (owner : Option ℕ) (held : Option HeldLock)
    → flock i ≢ some p
    → HasLock flock path p held
    → HasLock (λ j. if j == i then owner else flock j) path p held
HasLock-take flock path p i owner none n h = tt
HasLock-take flock path p i owner (some k) n (h, e) = ground arith

MayTry-take :
    (flock : ℕ → Option ℕ) (p i : ℕ) (owner : Option ℕ) (reg : ℕ) (held : Option HeldLock)
    (attempt : Option Attempt)
    → flock i ≢ some p
    → MayTry flock p reg held attempt
    → MayTry (λ j. if j == i then owner else flock j) p reg held attempt
MayTry-take flock p i owner reg held none n h = tt
MayTry-take flock p i owner reg held (some (opened t j)) n h = h
MayTry-take flock p i owner reg held (some (flocked t j)) n h = ground arith

pub IsGood-take :
    (flock : ℕ → Option ℕ) (path : Option ℕ) (p i : ℕ) (owner : Option ℕ) (pr : Process)
    → flock i ≢ some p
    → IsGood flock path p pr
    → IsGood (λ j. if j == i then owner else flock j) path p pr
IsGood-take flock path p i owner pr n (h, k) = (
  λ e. HasLock-take flock path p i owner pr.held n (h e),
  MayTry-take flock p i owner pr.registry_pid pr.held pr.attempt n k,
)

-- One process and the locks of one inode change.
pub set_proc-Inv :
    (m : Machine) (pid : ℕ) (pr : Process)
    → IsGood m.flock m.path pid pr
    → ((q : ℕ) → q ≢ pid → IsGood m.flock m.path q (m.procs q))
    → Inv (set_proc pid pr m)
set_proc-Inv m pid pr g others q = elim (Bool-cases (q == pid)) [
  | inl e ↦
      let same : q ≡ pid = ground arith in
      rw e (subst (λ r. IsGood m.flock m.path r pr) (sym same) g)
  | inr e ↦ rw e (others q (λ same. ground arith))
]

pub reset-IsGood :
    (flock : ℕ → Option ℕ) (path : Option ℕ) (p : ℕ) (pr : Process)
    → pr.attempt ≡ none
    → IsGood flock path p pr
    → HasLock flock path p (reset p pr).held
      × ((reset p pr).attempt ≡ none)
      × ((reset p pr).registry_pid ≡ p)
reset-IsGood flock path p pr a (h, k) = elim (Bool-cases (pr.registry_pid == p)) [
  | inl e ↦ rw e (h (ground arith), a, ground arith)
  | inr e ↦ rw e (tt, a, refl)
]

-- Where the path names nothing no process has the lock, and a new file takes it from none.
pub HasLock-create :
    (flock : ℕ → Option ℕ) (path path' : Option ℕ) (p : ℕ) (held : Option HeldLock)
    → path ≡ none
    → HasLock flock path p held
    → HasLock flock path' p held
HasLock-create flock path path' p none e h = tt
HasLock-create flock path path' p (some k) e (h, h') = cc

pub MayTry-none :
    (flock : ℕ → Option ℕ) (p reg : ℕ) (held : Option HeldLock) (attempt : Option Attempt)
    → attempt ≡ none
    → MayTry flock p reg held attempt
MayTry-none flock p reg held none e = tt
MayTry-none flock p reg held (some a) e = cc
