-- ===== src/Sched/Tick/Levels.antt =====
-- How long a process stays at each level of the MLFQ.
use os_project.Prelude.{ℕ, ◌+◌, ◌-◌, ◌%◌, ◌^◌, ◌≤◌, ◌≡◌, ◌≢◌, true, arith, ltb, ◌==◌, if◌then◌else◌}
use os_project.Proc.{runnable, running, Kernel}
use os_project.Sched.Tick.{timer_tick}

-- The level of a process that has run for `n` ticks since the last boost.
abbrev pub level_after : ℕ → ℕ
level_after n = if ltb n 5 then 0 else if ltb n 15 then 1 else 2

-- Its ticks at that level.
abbrev pub ticks_at_level : ℕ → ℕ
ticks_at_level n = if ltb n 5 then n else if ltb n 15 then n - 5 else n - 15

-- Its ticks since it last gave up the CPU.
abbrev pub ticks_of_quantum : ℕ → ℕ
ticks_of_quantum n = if ltb n 5 then 0 else if ltb n 15 then (n - 5) % 2 else (n - 15) % 4

module _ {D W : Type 0} where
  -- The process in slot `cur` is in the MLFQ, with the level and the counters of `n` ticks.
  pub record HasRun (cur n : ℕ) (k : Kernel D W) : Type 0 where
    pub queued : (k.procs cur).is_mlfq ≡ true
    pub level : (k.procs cur).priority ≡ level_after n
    pub total : (k.procs cur).ptotalticks ≡ ticks_at_level n
    pub quantum : (k.procs cur).pticks ≡ ticks_of_quantum n

  -- A clock tick of a running MLFQ process with the level and the counters of `n` ticks since it was
  -- put at the start of level 0, by its allocation or by a boost, gives it those of `n + 1` ticks:
  -- level 0 for 5 ticks, level 1 for the next 10, and level 2 from then on. It makes the process
  -- yield, which leaves it runnable, where its quantum of 1, 2 or 4 ticks at that level is over;
  -- otherwise the process runs on. The tick counts towards the next boost.
  pub timer_tick-HasRun :
      (cur n : ℕ) (k : Kernel D W)
      → HasRun cur n k
      → (k.procs cur).state ≡ running
      → HasRun cur (n + 1) (timer_tick cur k).0
        × ((timer_tick cur k).1 ≡ (ticks_of_quantum (n + 1) == 0))
        × (((timer_tick cur k).0.procs cur).state
            ≡ (if ticks_of_quantum (n + 1) == 0 then runnable else running))
        × ((timer_tick cur k).0.mlfq_ticks ≡ (k.mlfq_ticks + 1) % 2 ^ 32)
  unfolding timer_tick
  timer_tick-HasRun cur n k h runs = (ground arith, ground arith, ground arith, ground arith)

  -- Neither a tick nor sys_yield takes a process beyond level 2, down to a lower level number, or
  -- over more than one level, and neither touches a slot other than that of the process.
  abbrev pub Moves : ℕ → Kernel D W → Kernel D W → Type 0
  Moves cur k k' =
      ((k.procs cur).priority ≤ 2 → (k'.procs cur).priority ≤ 2)
      × ((k.procs cur).priority ≤ (k'.procs cur).priority)
      × ((k'.procs cur).priority ≤ (k.procs cur).priority + 1)
      × ((j : ℕ) → j ≢ cur → k'.procs j ≡ k.procs j)

  pub timer_tick-Moves : (cur : ℕ) (k : Kernel D W) → Moves cur k (timer_tick cur k).0
  unfolding timer_tick
  timer_tick-Moves cur k = (ground arith, ground arith, ground arith, λ j ne. ground arith)
