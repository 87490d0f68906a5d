-- ===== src/Proc.antt =====
-- The process table of xv6-public/proc.c: `struct proc` and `struct tid` of proc.h, the tables
-- `ptable` and `ttable`, and the globals of proc.c, trap.c and set_cpu_share.c that go with them.
-- A pointer to a process is the number of its slot. `D` is the C type double.
pub mod Table
pub mod Sleep
pub mod Services
pub mod Alloc
pub mod Fork
pub mod Grow
pub mod Exit
pub mod Wait
pub use os_project.Prelude.{update}
use os_project.Prelude.{ℕ, ◌≡◌, Bool, true, false, Option, none, some, List, ◌==◌, if◌then◌else◌}
use os_project.Prelude.Int.{ℤ}

-- NPROC, NOFILE
abbrev pub nproc : ℕ
nproc = 64

abbrev pub nofile : ℕ
nofile = 16

-- enum procstate
pub data ProcState : Type 0 where
  unused embryo sleeping runnable running zombie : ProcState

abbrev pub state_code : ProcState → ℕ
state_code unused = 0
state_code embryo = 1
state_code sleeping = 2
state_code runnable = 3
state_code running = 4
state_code zombie = 5

-- p->state == s
abbrev pub state_eq : ProcState → ProcState → Bool
state_eq a b = state_code a == state_code b

-- `struct proc *`: `none` is the null pointer, `some i` is &ptable.proc[i].
abbrev pub Ptr : Type 0
Ptr = Option ℕ

abbrev pub ptr_eq : Ptr → Ptr → Bool
ptr_eq none none = true
ptr_eq (some a) (some b) = a == b
ptr_eq _ _ = false

-- What a process sleeps on: the `void *` is null, a process, or another kernel address.
pub data Chan : Type 0 where
  null : Chan
  proc : ℕ → Chan
  addr : ℕ → Chan

abbrev pub chan_eq : Chan → Chan → Bool
chan_eq null null = true
chan_eq (proc a) (proc b) = a == b
chan_eq (addr a) (addr b) = a == b
chan_eq _ _ = false

-- The cast of a process pointer to `void *`.
abbrev pub chan_of : Ptr → Chan
chan_of none = null
chan_of (some i) = proc i

-- The registers of `struct trapframe` that proc.c writes; the others are only copied.
pub record TrapFrame : Type 0 where
  pub eax : ℕ
  pub esp : ℕ
  pub eip : ℕ

-- struct proc. The flags hold 0 or 1. `context`, the saved kernel registers, has no field: it is
-- set up and used by the context switch alone.
pub record Proc (D : Type 0) : Type 0 where
  pub sz : ℕ
  pub pgdir : Option ℕ
  pub kstack : Option ℕ
  pub state : ProcState
  pub pid : ℕ
  pub parent : Ptr
  pub tf : TrapFrame
  pub chan : Chan
  pub killed : Bool
  pub ofile : List (Option ℕ)
  pub cwd : Option ℕ
  pub name : List ℕ
  pub priority : ℕ
  pub pticks : ℕ
  pub ptotalticks : ℕ
  pub is_mlfq : Bool
  pub share : D
  pub stride : D
  pub pass : D
  pub tid : ℕ
  pub retval : ℕ
  pub is_thread : Bool
  pub is_main_thread : Bool
  pub usz : ℕ
  pub is_there_exec : Bool
  pub cnt_thread : ℕ
  pub totalshare : ℤ

-- struct tid, an entry of `ttable`
pub record Tid : Type 0 where
  pub index : ℕ
  pub state : ProcState

-- The kernel's state that proc.c works on. `world` is the state of the other components: memory,
-- files, the log.
pub record Kernel (D W : Type 0) : Type 0 where
  pub procs : ℕ → Proc D
  pub tids : ℕ → Tid
  pub initproc : Ptr
  pub nextpid : ℕ
  pub nexttid : ℤ
  pub left_share : D
  pub mlfq_pass : D
  pub mlfq_stride : D
  pub mlfq_ticks : ℕ
  -- the counters of MLFQ_Scheduler, which all CPUs share: each an int, as its 32 bits
  pub checkpoint : ℕ
  pub levturn : ℕ
  -- c->proc, the process that the CPU runs
  pub cpu_proc : Ptr
  pub world : W

-- ptable.proc[i] = f(ptable.proc[i])
abbrev pub modify : {D W : Type 0} → ℕ → (Proc D → Proc D) → Kernel D W → Kernel D W
modify i f k = record k { procs = update k.procs i (f (k.procs i)) }
