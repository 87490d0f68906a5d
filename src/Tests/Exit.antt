-- ===== src/Tests/Exit.antt =====
-- Runs of exit, thread_exit, wait and thread_join, and their theorems at concrete inputs.
use os_project.Prelude.{ℕ, ◌≡◌, ◌≢◌, refl, [], arith, for_range}
use os_project.Prelude.Int.{ℤ, pos}
use os_project.Prelude.Outcome.{Outcome, ok, panic, fault, for_each}
use os_project.Proc.{Kernel}
use os_project.Proc.Sleep.{wake, wakeup1}
use os_project.Proc.Services.{close_files}
use os_project.Proc.Table.{each}
use os_project.Proc.Alloc.{find_from}
use os_project.Proc.Exit.{
  tell_init, adopt, adopt_all, exit_waker, leave, exit_other, exit, thread_exit,
}
use os_project.Proc.Exit.Group.{Exited, exit-Exited}
use os_project.Proc.Exit.Thread.{thread_exit-exit}
use os_project.Proc.Wait.{
  Next, returns, sleeps, reset_proc, release_tid, return_share, free_proc, kill_same_step,
  killsamepid, reap_share, reap, wait_scan, wait_end, wait_round,
}
use os_project.Proc.Wait.Skipped.{IsMarked}
use os_project.Proc.Wait.Round.{Waited, wait_round-Waited}
use os_project.Proc.Wait.Join.{
  Join, joined, join_share, join_reap, join_slot, thread_join, JoinedAt, thread_join-JoinedAt,
}
use os_project.Tests.Fixtures.{shares, services, threaded, ended}

abbrev state_after : Outcome (Kernel ℤ ℕ) → Kernel ℤ ℕ
state_after (ok k) = k
state_after panic = threaded
state_after fault = threaded

-- The process in slot 1 exits with its thread.
exit_ends : exit 1 threaded ≡ ok (state_after (exit 1 threaded))
unfolding exit leave close_files exit_other exit_waker adopt_all adopt tell_init wakeup1 wake each
    for_each for_range
exit_ends = refl

exit-Exited_example : Exited 1 threaded (state_after (exit 1 threaded)) 2
exit-Exited_example =
    exit-Exited 1 threaded (state_after (exit 1 threaded)) exit_ends 2 (omega arith)

thread_exit_ends : thread_exit 2 9 threaded ≡ ok (state_after (thread_exit 2 9 threaded))
unfolding thread_exit leave close_files adopt_all adopt tell_init wakeup1 wake each for_range
thread_exit_ends = refl

thread_exit-exit_example : exit 1 (state_after (thread_exit 2 9 threaded)) ≢ ok threaded
thread_exit-exit_example =
    thread_exit-exit 2 9 1 threaded (state_after (thread_exit 2 9 threaded)) threaded (omega arith)
      (omega arith) (omega arith) refl thread_exit_ends

abbrev next_after : Outcome (Next ℤ ℕ) → Next ℤ ℕ
next_after (ok n) = n
next_after panic = sleeps ended
next_after fault = sleeps ended

abbrev state_of : Next ℤ ℕ → Kernel ℤ ℕ
state_of (returns r k) = k
state_of (sleeps k) = k

-- init finds the process and frees it with its thread.
wait_finds_5 :
    wait_round 0 ended ≡ ok (returns (pos 5) (state_of (next_after (wait_round 0 ended))))
unfolding wait_round wait_end wait_scan killsamepid kill_same_step free_proc release_tid reap
    reap_share return_share reset_proc for_each
wait_finds_5 = refl

ended-IsMarked : IsMarked ended
ended-IsMarked j l z = ground arith

wait_round-Waited_example :
    Waited 0 ended (returns (pos 5) (state_of (next_after (wait_round 0 ended))))
wait_round-Waited_example =
    wait_round-Waited 0 ended (returns (pos 5) (state_of (next_after (wait_round 0 ended))))
      ended-IsMarked wait_finds_5

abbrev joined_state : Outcome (Join ℤ ℕ) → Kernel ℤ ℕ
joined_state (ok (joined v k)) = k
joined_state _ = threaded

-- Slot 1 asks for a thread 7 that it does not have, and its running thread 1 is freed.
join_takes_first :
    thread_join 1 7 [] threaded ≡ ok (joined 0 (joined_state (thread_join 1 7 [] threaded)))
unfolding thread_join join_slot join_reap join_share free_proc release_tid return_share reset_proc
    find_from
join_takes_first = refl

thread_join-JoinedAt_example :
    (i : ℕ) × JoinedAt 1 7 i 0 threaded (joined_state (thread_join 1 7 [] threaded))
thread_join-JoinedAt_example =
    thread_join-JoinedAt 1 7 0 threaded (joined_state (thread_join 1 7 [] threaded))
      join_takes_first
