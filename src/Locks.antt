-- ===== src/Locks.antt =====
-- xv6-public/spinlock.c: spin locks, and the nesting of pushcli and popcli, on several CPUs.
pub mod Count
pub mod Nesting
pub mod Reachable
use os_project.Prelude.{
  ℕ, zero, suc, ◌+◌, ◌-◌, ◌<◌, ◌≡◌, Bool, true, false, not, ◌&&◌, Option, none, some, ◌==◌,
  if◌then◌else◌, update,
}
use os_project.Prelude.Outcome.{Outcome, ok, panic, fault, ◌>>=◌, ◌>>◌, panic_if}

-- The interrupt flag of a CPU, and the fields of struct cpu for pushcli.
pub record Cpu : Type 0 where
  pub intr : Bool
  pub ncli : ℕ
  pub intena : Bool

-- struct spinlock, less its name and its stack. A CPU is its number, and none is a null pointer.
pub record Spinlock : Type 0 where
  pub locked : Bool
  pub cpu : Option ℕ

pub record System : Type 0 where
  pub cpus : ℕ → Cpu
  pub locks : ℕ → Spinlock

unfoldable pub pushcli : Cpu → Cpu
pushcli c = record {
  intr = false;
  ncli = c.ncli + 1;
  intena = if c.ncli == 0 then c.intr else c.intena;
}

unfoldable pub popcli : Cpu → Outcome Cpu
popcli c = do
  panic_if c.intr
  panic_if (c.ncli == 0)
  ok (
      if c.ncli - 1 == 0 && c.intena
      then record c { ncli = c.ncli - 1; intr = true }
      else record c { ncli = c.ncli - 1 })

abbrev pub is_cpu : ℕ → Option ℕ → Bool
is_cpu i none = false
is_cpu i (some j) = i == j

unfoldable pub holding : ℕ → Spinlock → Bool
holding i k = k.locked && is_cpu i k.cpu

-- initlock
abbrev pub free_lock : Spinlock
free_lock = record { locked = false; cpu = none }

-- acquire up to its loop
unfoldable pub acquire_enter : ℕ → ℕ → System → Outcome System
acquire_enter i l m = do
  let m1 = record m { cpus = update m.cpus i (pushcli (m.cpus i)) }
  panic_if (holding i (m1.locks l))
  ok m1

-- A round of the loop of acquire: xchg finds the lock taken, or takes it. lk->cpu is set with it; before, it is the
-- null pointer that release leaves, so no CPU takes itself for the holder.
unfoldable pub acquire_round : ℕ → ℕ → System → Option System
acquire_round i l m =
    if (m.locks l).locked
    then none
    else some (record m { locks = update m.locks l (record { locked = true; cpu = some i }) })

unfoldable pub release : ℕ → ℕ → System → Outcome System
release i l m = do
  panic_if (not (holding i (m.locks l)))
  let m1 = record m { locks = update m.locks l free_lock }
  c ← popcli (m1.cpus i)
  ok (record m1 { cpus = update m1.cpus i c })

-- The lock that each CPU waits for in acquire.
abbrev pub Waiting : Type 0
Waiting = ℕ → Option ℕ

-- A step of one CPU with one of the locks below `n`.
pub data Step (n : ℕ) : System → Waiting → System → Waiting → Type 0 where
  enters :
      (m m' : System) (w : Waiting) (i l : ℕ)
      → l < n
      → w i ≡ none
      → acquire_enter i l m ≡ ok m'
      → Step n m w m' (update w i (some l))
  takes :
      (m m' : System) (w : Waiting) (i l : ℕ)
      → l < n
      → w i ≡ some l
      → acquire_round i l m ≡ some m'
      → Step n m w m' (update w i none)
  leaves :
      (m m' : System) (w : Waiting) (i l : ℕ)
      → l < n
      → w i ≡ none
      → release i l m ≡ ok m'
      → Step n m w m' w

-- The machines that the CPUs reach together from `m`.
pub data Reach (n : ℕ) (m0 : System) (w0 : Waiting) : System → Waiting → Type 0 where
  start : Reach n m0 w0 m0 w0
  next :
      (m m' : System) (w w' : Waiting) → Reach n m0 w0 m w → Step n m w m' w' → Reach n m0 w0 m' w'
