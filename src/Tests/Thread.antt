-- ===== src/Tests/Thread.antt =====
-- A thread_create that follows a null pointer.
use os_project.Prelude.{ℕ, ◌≡◌, refl, none, some, for_range}
use os_project.Prelude.Int.{ℤ}
use os_project.Proc.{running, Kernel}
use os_project.Proc.Alloc.{
  find_from, free_slot, free_tid, take_tid, new_proc, claim, give_stack, allocproc,
}
use os_project.Sched.MinPass.{find_min_pass}
use os_project.Tests.Fixtures.{shares, services, kernel, table, worker, sharer}

-- The process in slot 1 runs, and no other has a share.
abbrev alone : Kernel ℤ ℕ
alone = kernel (table (worker 1 0) (record (sharer 2 590) { state = running }) (worker 3 0))

none_ready : find_min_pass alone ≡ none
unfolding find_min_pass for_range
none_ready = refl

takes_slot_3 : allocproc alone ≡ (some 3, (allocproc alone).1)
unfolding allocproc give_stack claim take_tid free_slot free_tid find_from new_proc
takes_slot_3 = refl
