-- ===== src/Syscall/Descriptors.antt =====
-- xv6-public/sysfile.c: the system calls on the open files of a process.
pub mod Buffer
use os_project.Prelude.{
  ℕ, zero, suc, ◌+◌, ◌-◌, Bool, true, false, Option, none, some, List, ltb, leb, ◌==◌,
  if◌then◌else◌, update,
}
use os_project.Prelude.Int.{ℤ, pos, negsuc}
use os_project.Prelude.Outcome.{Outcome, ok, panic, fault, ◌>>=◌}
use os_project.Pipe.{Pipe}
use os_project.Fs.{Volume}
use os_project.Fs.File.{Devices}
use os_project.Files.{File, Call, returned, asleep, filewrite, pfilewrite}
use os_project.Files.Read.{Read, fileread, pfileread, Stat, filestat}
use os_project.Files.Table.{Ftable, filedup, fileclose, Closing, nothing_more}
use os_project.Proc.{nofile}
use os_project.Syscall.{User, int_of, argint, argptr}

-- The process with its memory and its files, the table of open files, and the volume.
pub record Task : Type 0 where
  pub user : User
  pub ofile : ℕ → Option ℕ
  pub table : Ftable
  pub volume : Volume

-- The descriptor and the file of an argument.
abbrev pub open_at : Task → ℤ → Option (ℕ × ℕ)
open_at t (negsuc k) = none
open_at t (pos fd) =
    if leb nofile fd then none else elim (t.ofile fd) [ none ↦ none | some f ↦ some (fd, f) ]

unfoldable pub argfd : ℕ → Task → Option (ℕ × ℕ)
argfd n t = elim (argint n t.user) [ none ↦ none | some w ↦ open_at t (int_of w) ]

-- The loop of fdalloc from `fd` on.
unfoldable pub free_fd : ℕ → ℕ → (ℕ → Option ℕ) → Option ℕ
free_fd zero fd ofile = none
free_fd (suc count) fd ofile =
    let rest = free_fd count (fd + 1) ofile in elim (ofile fd) [ none ↦ some fd | some f ↦ rest ]

unfoldable pub fdalloc : ℕ → Task → Option (ℕ × Task)
fdalloc f t = elim (free_fd nofile 0 t.ofile) [
  | none ↦ none
  | some fd ↦ some (fd, record t { ofile = update t.ofile fd (some f) })
]

unfoldable pub sys_dup : Task → Outcome (Task × ℤ)
sys_dup t = elim (argfd 0 t) [
  | none ↦ ok (t, negsuc 0)
  | some (old, f) ↦ elim (fdalloc f t) [
    | none ↦ ok (t, negsuc 0)
    | some (fd, t') ↦ filedup f t'.table >>= λ table. ok (record t' { table = table }, pos fd)
  ]
]

-- The end of a call on the file `f`: its result, or the sleep on a pipe.
abbrev pub Ended : Type 0
Ended = Task × Option ℤ

abbrev pub refuse : Task → Outcome Ended
refuse t = ok (t, some (negsuc 0))

-- The memory from `p` on is the target of a read.
abbrev pub put_memory : ℕ → (ℕ → ℕ) → User → User
put_memory p dst u = record u { mem = λ a. if ltb a p then u.mem a else dst (a - p) }

abbrev pub end_read : ℕ → ℕ → Task → Call Read → Ended
end_read f p t (returned file v (dst, r)) =
    (record t { user = put_memory p dst t.user; table = update t.table f file; volume = v }, some r)
end_read f p t (asleep file v) = (record t { table = update t.table f file; volume = v }, none)

abbrev pub end_write : ℕ → Task → Call ℤ → Ended
end_write f t (returned file v r) = (record t { table = update t.table f file; volume = v }, some r)
end_write f t (asleep file v) = (record t { table = update t.table f file; volume = v }, none)

-- The count and the buffer of a read or a write, for `f` the file of argument 0.
abbrev pub with_buffer : Task → (ℕ → ℕ → ℕ → Outcome Ended) → Outcome Ended
with_buffer t body = elim (argfd 0 t) [
  | none ↦ refuse t
  | some (fd, f) ↦ elim (argint 2 t.user) [
    | none ↦ refuse t
    | some n ↦ elim (argptr 1 (int_of n) t.user) [ none ↦ refuse t | some p ↦ body f p n ]
  ]
]

unfoldable pub sys_read : Devices → Bool → List ((Pipe → Pipe) × Bool) → Task → Outcome Ended
sys_read devsw killed sleeps t = with_buffer t (λ f p n.
    fileread devsw killed sleeps (λ i. t.user.mem (p + i)) n (t.table f) t.volume >>= λ call.
    ok (end_read f p t call))

unfoldable pub sys_write : Devices → Bool → List ((Pipe → Pipe) × Bool) → Task → Outcome Ended
sys_write devsw killed sleeps t = with_buffer t (λ f p n.
    filewrite devsw killed sleeps (λ i. t.user.mem (p + i)) n (t.table f) t.volume >>= λ call.
    ok (end_write f t call))

unfoldable pub sys_pread : Devices → Bool → List ((Pipe → Pipe) × Bool) → Task → Outcome Ended
sys_pread devsw killed sleeps t = with_buffer t (λ f p n. elim (argint 3 t.user) [
  | none ↦ refuse t
  | some off ↦
      pfileread devsw killed sleeps (λ i. t.user.mem (p + i)) n off (t.table f) t.volume >>= λ call.
      ok (end_read f p t call)
])

unfoldable pub sys_pwrite : Devices → Bool → List ((Pipe → Pipe) × Bool) → Task → Outcome Ended
sys_pwrite devsw killed sleeps t = with_buffer t (λ f p n. elim (argint 3 t.user) [
  | none ↦ refuse t
  | some off ↦
      pfilewrite devsw killed sleeps (λ i. t.user.mem (p + i)) n off (t.table f) t.volume
      >>= λ call. ok (end_write f t call)
])

unfoldable pub sys_close : Task → Outcome (Task × Closing × ℤ)
sys_close t = elim (argfd 0 t) [
  | none ↦ ok (t, nothing_more, negsuc 0)
  | some (fd, f) ↦ fileclose f t.table >>= λ (r : Ftable × Closing).
      ok (record t { ofile = update t.ofile fd none; table = r.0 }, r.1, pos 0)
]
