-- ===== src/Tests/Fixtures.antt =====
-- A small process table, with shares in hundredths, and services that always succeed.
use os_project.Prelude.{ℕ, ◌+◌, true, false, none, some, [], ◌∷◌, ◌==◌, if◌then◌else◌}
use os_project.Prelude.Int.{ℤ, pos}
use os_project.Prelude.Outcome.{ok}
use os_project.Double.{Double}
use os_project.Double.Hundredths.{hundredths}
use os_project.Proc.{unused, runnable, zombie, null, Proc, Kernel}
use os_project.Proc.Services.{Services}

instance abbrev pub shares : Double ℤ
shares = hundredths

-- The world counts the calls that change it.
instance abbrev pub services : Services ℕ
services = record {
  kalloc = λ w. (some w, w + 1);
  kfree = λ p w. ok (w + 1);
  copyuvm = λ d n w. (some (w + 100), w + 1);
  freevm = λ d w. ok (w + 1);
  allocuvm = λ d old new w. ok (new, w + 1);
  deallocuvm = λ d old new w. ok (new, w + 1);
  copyout = λ d a b w. (true, w + 1);
  filedup = λ f w. ok (w + 1);
  fileclose = λ f w. ok (w + 1);
  idup = λ i w. w + 1;
  iput = λ i w. ok (w + 1);
  begin_op = λ w. w + 1;
  end_op = λ w. ok (w + 1);
}

abbrev pub empty_proc : Proc ℤ
empty_proc = record {
  sz = 0;
  pgdir = none;
  kstack = none;
  state = unused;
  pid = 0;
  parent = none;
  tf = record { eax = 0; esp = 0; eip = 0 };
  chan = null;
  killed = false;
  ofile = none ∷ none ∷ [];
  cwd = none;
  name = [];
  priority = 0;
  pticks = 0;
  ptotalticks = 0;
  is_mlfq = false;
  share = pos 0;
  stride = pos 0;
  pass = pos 0;
  tid = 0;
  retval = 0;
  is_thread = false;
  is_main_thread = false;
  usz = 0;
  is_there_exec = false;
  cnt_thread = 0;
  totalshare = pos 0;
}

-- A process of the MLFQ that can run.
abbrev pub worker : ℕ → ℕ → Proc ℤ
worker pid level = record empty_proc {
  state = runnable;
  pid = pid;
  is_mlfq = true;
  priority = level;
  is_main_thread = true;
  cnt_thread = 1;
  cwd = some 7;
  sz = 4096;
  ofile = some 3 ∷ none ∷ [];
}

-- A process with a share that can run.
abbrev pub sharer : ℕ → ℕ → Proc ℤ
sharer pid pass = record empty_proc {
  state = runnable;
  pid = pid;
  is_main_thread = true;
  cnt_thread = 1;
  share = pos 2000;
  stride = pos 500;
  pass = pos pass;
}

abbrev pub table : Proc ℤ → Proc ℤ → Proc ℤ → ℕ → Proc ℤ
table a b c i = if i == 0 then a else if i == 1 then b else if i == 2 then c else empty_proc

abbrev pub kernel : (ℕ → Proc ℤ) → Kernel ℤ ℕ
kernel procs = record {
  procs = procs;
  tids = λ i. record { index = i; state = unused };
  initproc = some 0;
  nextpid = 10;
  nexttid = pos 0;
  left_share = pos 10000;
  mlfq_pass = pos 0;
  mlfq_stride = pos 100;
  mlfq_ticks = 0;
  checkpoint = 0;
  levturn = 0;
  cpu_proc = none;
  world = 0;
}

-- Three processes of the MLFQ, at levels 1, 0 and 0.
abbrev pub queued : Kernel ℤ ℕ
queued = kernel (table (worker 1 1) (worker 2 0) (worker 3 0))

-- Two processes with shares, whose passes have the same whole part, and one of the MLFQ.
abbrev pub shared : Kernel ℤ ℕ
shared = record (kernel (table (sharer 1 590) (sharer 2 550) (worker 3 0))) {
  left_share = pos 6000;
  mlfq_pass = pos 900;
}

-- A process in slot 1, a child of init, and its thread in slot 2.
abbrev pub creator : Proc ℤ
creator = record (worker 5 0) { parent = some 0 }

abbrev pub thread : Proc ℤ
thread = record (worker 5 0) { parent = some 1; tid = 1; is_thread = true; is_main_thread = false }

abbrev pub threaded : Kernel ℤ ℕ
threaded = kernel (table (worker 1 0) creator thread)

-- The same after both have exited.
abbrev pub ended : Kernel ℤ ℕ
ended = kernel (
    table (worker 1 0) (record creator { state = zombie; cwd = none })
      (record thread { state = zombie; cwd = none }))
