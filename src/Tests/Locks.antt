-- ===== src/Tests/Locks.antt =====
-- Two CPUs, and lock 0 in the hands of CPU 1.
use os_project.Prelude.{◌+◌, ◌≤◌, ◌≡◌, ◌⊎◌, refl, true, false, arith, update, none, some, ◌==◌}
use os_project.Prelude.Outcome.{ok}
use os_project.Locks.{
  System, Waiting, free_lock, pushcli, holding, acquire_enter, acquire_round, release, Reach, start,
  next, enters, takes,
}
use os_project.Locks.Count.{held}
use os_project.Locks.Nesting.{waits}
use os_project.Locks.Reachable.{IsStart, Reach-interrupts, Reach-release}

-- CPU 1 has its interrupts on, the others off.
abbrev machine : System
machine = record {
  cpus = λ i. record { intr = i == 1; ncli = 0; intena = false };
  locks = λ l. free_lock;
}

abbrev idle : Waiting
idle i = none

machine-IsStart : IsStart 2 machine idle
machine-IsStart = record { outside = λ i. refl; idle = λ i. refl; free = λ l s. refl }

abbrev pushed : System
pushed = record machine {
  cpus = update machine.cpus 1 (record { intr = false; ncli = 1; intena = true });
}

abbrev locked : System
locked = record pushed { locks = update pushed.locks 0 (record { locked = true; cpu = some 1 }) }

enter_ends : acquire_enter 1 0 machine ≡ ok pushed
unfolding acquire_enter pushcli holding
enter_ends = refl

round_ends : acquire_round 1 0 pushed ≡ some locked
unfolding acquire_round
round_ends = refl

abbrev waiting : Waiting
waiting = update (update idle 1 (some 0)) 1 none

locked-Reach : Reach 2 machine idle locked waiting
locked-Reach =
    next pushed locked (update idle 1 (some 0)) waiting
      (next machine pushed idle (update idle 1 (some 0)) start
        (enters machine pushed idle 1 0 (omega arith) refl enter_ends))
      (takes pushed locked (update idle 1 (some 0)) 1 0 (omega arith) refl round_ends)

holds_it : holding 1 (locked.locks 0) ≡ true
unfolding holding
holds_it = refl

Reach-interrupts_example :
    ((held 1 2 locked.locks + waits (waiting 1) ≡ 0)
      × ((locked.cpus 1).intr ≡ (machine.cpus 1).intr))
    ⊎ ((1 ≤ held 1 2 locked.locks + waits (waiting 1)) × ((locked.cpus 1).intr ≡ false))
Reach-interrupts_example =
    Reach-interrupts 2 machine locked idle waiting 1 machine-IsStart locked-Reach

Reach-release_example :
    (m' : System) × (release 1 0 locked ≡ ok m')
    × Reach 2 machine idle m' waiting
    × (held 1 2 m'.locks + 1 ≡ held 1 2 locked.locks)
Reach-release_example =
    Reach-release 2 machine locked idle waiting 1 0 machine-IsStart locked-Reach (omega arith)
      holds_it refl
