-- ===== src/Proc/Exit.antt =====
-- exit and thread_exit of xv6-public/proc.c, each up to its call of sched, which does not return:
-- the result is the state in which the CPU is given up. exit closes the files of its threads before
-- it takes ptable.lock; the model makes one step of the whole. `cur` is the slot of myproc().
pub mod Family
pub mod Ending
pub mod Group
pub mod Thread
use os_project.Prelude.{
  ℕ, Bool, true, false, not, ◌&&◌, Option, none, some, ◌==◌, if◌then◌else◌, for_range,
}
use os_project.Prelude.Outcome.{Outcome, ok, ◌>>=◌, ◌>>◌, panic_if, deref, for_each}
use os_project.Proc.{nproc, zombie, state_eq, Ptr, ptr_eq, chan_of, Proc, Kernel, modify}
use os_project.Proc.Sleep.{wakeup1}
use os_project.Proc.Services.{Services, close_files, no_files}

module _ {D W : Type 0} where
  -- init is woken for a child that has exited already.
  unfoldable pub tell_init : ℕ → Kernel D W → Kernel D W
  tell_init i k = if state_eq (k.procs i).state zombie then wakeup1 (chan_of k.initproc) k else k

  -- One round of the loop that passes the children of `cur` to init.
  unfoldable pub adopt : ℕ → ℕ → Kernel D W → Kernel D W
  adopt cur i k =
      if ptr_eq (k.procs i).parent (some cur)
      then tell_init i (modify i (λ p. record p { parent = k.initproc }) k)
      else k

  unfoldable pub adopt_all : ℕ → Kernel D W → Kernel D W
  adopt_all cur k = for_range nproc 0 (adopt cur) k

  -- Whom exit wakes: the creator of a thread's process, or the parent of a process.
  unfoldable pub exit_waker : ℕ → Kernel D W → Outcome Ptr
  exit_waker cur k =
      if (k.procs cur).is_thread
      then (do owner ← deref (k.procs cur).parent; ok (k.procs owner).parent)
      else ok (k.procs cur).parent

  module _ ⦃S : Services W⦄ where
    -- The files and the directory of the process in slot `i` are closed. iput reads its argument,
    -- so a null directory is a fault.
    unfoldable pub leave : ℕ → Kernel D W → Outcome (Kernel D W)
    leave i k = do
      w ← close_files (k.procs i).ofile k.world
      dir ← deref (k.procs i).cwd
      w' ← S.iput dir (S.begin_op w)
      w'' ← S.end_op w'
      ok (
          modify i (λ p. record p { ofile = no_files p.ofile; cwd = none })
            (record k { world = w'' }))

    -- One round of the loop over the processes and threads with the same pid.
    unfoldable pub exit_other : ℕ → ℕ → Kernel D W → Outcome (Kernel D W)
    exit_other cur i k =
        if (k.procs i).pid == (k.procs cur).pid && not (i == cur)
        then (do k' ← leave i k; ok (modify i (λ p. record p { state = zombie }) k'))
        else ok k

    unfoldable pub exit : ℕ → Kernel D W → Outcome (Kernel D W)
    exit cur k = do
      panic_if (ptr_eq (some cur) k.initproc)
      k1 ← leave cur k
      k2 ← for_each (exit_other cur) nproc 0 k1
      let k3 = modify cur (λ p. record p { state = zombie }) k2
      whom ← exit_waker cur k3
      ok (adopt_all cur (wakeup1 (chan_of whom) k3))

    unfoldable pub thread_exit : ℕ → ℕ → Kernel D W → Outcome (Kernel D W)
    thread_exit cur retval k = do
      panic_if (ptr_eq (some cur) k.initproc)
      k1 ← leave cur k
      let k2 = modify cur (λ p. record p { retval = retval }) k1
      let k3 = adopt_all cur (wakeup1 (chan_of (k2.procs cur).parent) k2)
      ok (modify cur (λ p. record p { state = zombie }) k3)
