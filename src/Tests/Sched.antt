-- ===== src/Tests/Sched.antt =====
-- Runs of the schedulers, and their theorems at concrete inputs.
use os_project.Prelude.{
  ℕ, ◌+◌, ◌-◌, ◌%◌, ◌^◌, ◌<◌, ◌≡◌, refl, ◌⊎◌, inl, inr, true, false, none, some, List, [], ◌∷◌,
  arith, All, ◌==◌, map, if◌then◌else◌,
}
use os_project.Prelude.Int.{ℤ}
use os_project.Double.{of_uint, IsNonneg}
use os_project.Double.Hundredths.{hundredths-Truncates}
use os_project.Proc.{nproc, runnable, running, sleeping, Kernel, modify}
use os_project.Sched.Boost.{boost_if_due}
use os_project.Sched.MinPass.{IsMin, NoneUnder, find_min_pass, find_min_pass_lem}
use os_project.Sched.Mlfq.{come_back, mlfq_scheduler}
use os_project.Sched.Mlfq.Steps.{FirstIs}
use os_project.Sched.Mlfq.Choice.{IsChoice, mlfq_scheduler-IsChoice}
use os_project.Sched.Mlfq.Order.{mlfq_scheduler-FirstIs}
use os_project.Sched.Tick.{timer_tick}
use os_project.Sched.Tick.Levels.{HasRun, timer_tick-HasRun, ticks_of_quantum}
use os_project.Sched.Loop.{Chosen, scheduler_round, scheduler_round-Chosen}
use os_project.Tests.Fixtures.{shares, queued, shared}

-- A turn in which the process falls asleep.
abbrev doze : ℕ → Kernel ℤ ℕ → Kernel ℤ ℕ
doze i = modify i (λ p. record p { state = sleeping })

-- A turn in which another CPU leaves its last loop, so that slot 63 can be reached afterwards.
abbrev other_cpu : ℕ → Kernel ℤ ℕ → Kernel ℤ ℕ
other_cpu i k = record (doze i k) { checkpoint = 20; levturn = 63 }

mlfq_scheduler-IsChoice_example :
    All IsChoice (mlfq_scheduler (other_cpu 1 ∷ doze 2 ∷ []) queued).chosen
mlfq_scheduler-IsChoice_example = mlfq_scheduler-IsChoice (other_cpu 1 ∷ doze 2 ∷ []) queued

-- Slot 1 holds the first process at level 0.
mlfq_scheduler-FirstIs_example :
    FirstIs
      (record {
        level = 0;
        slot = 1;
        before = record (come_back queued) { checkpoint = 1; levturn = 1 };
      })
      (mlfq_scheduler (doze 1 ∷ []) queued)
mlfq_scheduler-FirstIs_example =
    mlfq_scheduler-FirstIs (doze 1 ∷ []) 0 1 queued (omega arith) (omega arith)
      (record { low = omega arith; may = (refl, refl, refl); first = λ j l. ground arith })
      (λ l h. absurd (omega arith))

-- The passes 5.90 and 5.50 share their whole part: the first slot is chosen.
first_of_equal_wholes : find_min_pass shared ≡ some 0
unfolding find_min_pass os_project.Prelude.for_range
first_of_equal_wholes = refl

shared-IsNonneg : (j : ℕ) → IsNonneg shares (shared.procs j).pass
shared-IsNonneg j = ground arith

find_min_pass_lem_example :
    ((m : ℕ) × IsMin shared.procs nproc m
      × (find_min_pass shared ≡ (
          if shares.lt shared.mlfq_pass (of_uint shares (shares.to_uint (shared.procs m).pass))
          then none
          else some m)))
    ⊎ (NoneUnder shared.procs nproc × (find_min_pass shared ≡ none))
find_min_pass_lem_example = find_min_pass_lem shared hundredths-Truncates shared-IsNonneg

scheduler_round-Chosen_example : Chosen [] (boost_if_due shared) (scheduler_round [] shared)
scheduler_round-Chosen_example =
    scheduler_round-Chosen [] shared hundredths-Truncates shared-IsNonneg

-- The process of slot 1 is running, at the start of level 0.
abbrev started : Kernel ℤ ℕ
started = modify 1 (λ p. record p { state = running }) queued

timer_tick-HasRun_example :
    HasRun 1 1 (timer_tick 1 started).0
    × ((timer_tick 1 started).1 ≡ (ticks_of_quantum 1 == 0))
    × (((timer_tick 1 started).0.procs 1).state
        ≡ (if ticks_of_quantum 1 == 0 then runnable else running))
    × ((timer_tick 1 started).0.mlfq_ticks ≡ (started.mlfq_ticks + 1) % 2 ^ 32)
timer_tick-HasRun_example =
    timer_tick-HasRun 1 0 started
      (record { queued = refl; level = refl; total = refl; quantum = refl }) refl
