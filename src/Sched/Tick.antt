-- ===== src/Sched/Tick.antt =====
-- What a clock tick does to the running process: the end of `trap` and MLFQ_Check in
-- xv6-public/trap.c, and sys_yield and sys_getlev in sysproc.c.
pub mod Levels
use os_project.Prelude.{
  ℕ, zero, suc, ◌+◌, ◌-◌, ◌%◌, ◌^◌, ◌≤◌, ◌<◌, ◌≡◌, refl, Bool, true, false, ◌&&◌, arith, ltb, leb,
  ◌==◌, if◌then◌else◌,
}
use os_project.Proc.{nproc, runnable, running, state_eq, Proc, Kernel, update, modify}
use os_project.Proc.Sleep.{yield}

-- timeQuantumPerQ; the array has three entries, and no level is over 2
abbrev pub time_quantum : ℕ → ℕ
time_quantum zero = 1
time_quantum (suc zero) = 2
time_quantum _ = 4

-- timeAllotmentPerQ, read at level 0 and 1 only
abbrev pub time_allotment : ℕ → ℕ
time_allotment zero = 5
time_allotment _ = 10

module _ {D : Type 0} where
  -- the two counters of the process, which a tick moves on
  unfoldable pub count_tick : Proc D → Proc D
  count_tick p = record p { pticks = p.pticks + 1; ptotalticks = p.ptotalticks + 1 }

  -- whether MLFQ_Check makes the process yield
  abbrev pub quantum_used : Proc D → Bool
  quantum_used p = leb (time_quantum p.priority) p.pticks

  -- the writes of MLFQ_Check to the process before it yields
  unfoldable pub next_level : Proc D → Proc D
  next_level p =
      if ltb p.priority 2 && leb (time_allotment p.priority) p.ptotalticks
      then record p { pticks = 0; ptotalticks = 0; priority = p.priority + 1 }
      else record p { pticks = 0 }

  module _ {W : Type 0} where
    -- MLFQ_Check, up to its yield; the Boolean says whether it yields.
    unfoldable pub mlfq_check : ℕ → Kernel D W → Kernel D W × Bool
    unfolding next_level yield
    mlfq_check cur k =
        if quantum_used (k.procs cur)
        then (yield cur (modify cur next_level k), true)
        else (k, false)

    -- MLFQ_ticks++, on a uint
    abbrev pub count_mlfq : Kernel D W → Kernel D W
    count_mlfq k = record k { mlfq_ticks = (k.mlfq_ticks + 1) % 2 ^ 32 }

    -- The end of trap on a timer interrupt, for the process in slot `cur`.
    unfoldable pub timer_tick : ℕ → Kernel D W → Kernel D W × Bool
    unfolding mlfq_check count_tick
    timer_tick cur k =
        if state_eq (k.procs cur).state running
        then (if (k.procs cur).is_mlfq
            then mlfq_check cur (modify cur count_tick (count_mlfq k))
            else (yield cur k, true))
        else (k, false)

    -- sys_yield, up to its yield. `calls` is the counter `i` of sysproc.c, a uint.
    unfoldable pub sys_yield : ℕ → ℕ → Kernel D W → ℕ × Kernel D W
    unfolding count_tick yield
    sys_yield calls cur k =
        let i = (calls + 1) % 2 ^ 32 in
        (i, yield cur (if i % 20 == 0 then modify cur count_tick (count_mlfq k) else k))

    pub sys_getlev : ℕ → Kernel D W → ℕ
    sys_getlev cur k = (k.procs cur).priority
