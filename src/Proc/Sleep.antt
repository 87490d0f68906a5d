-- ===== src/Proc/Sleep.antt =====
-- Giving up the CPU, waiting and waking in xv6-public/proc.c: yield, sleep, wakeup1, wakeup, kill.
-- Each runs with ptable.lock held, so it is one step on the kernel's state. A function that ends in
-- `sched` stops there: what follows the return of `sched` is a function of its own.
use os_project.Prelude.{ℕ, ◌<◌, ◌≡◌, ◌≢◌, refl, true, ◌&&◌, arith, lt→ltb, ◌==◌, if◌then◌else◌}
use os_project.Prelude.Int.{ℤ, pos}
use os_project.Proc.{
  nproc, sleeping, runnable, state_eq, Chan, null, proc, addr, chan_eq, Proc, Kernel, modify,
}
use os_project.Proc.Table.{each, each_lem}

module _ {D : Type 0} where
  -- one round of the loop of wakeup1
  unfoldable pub wake : Chan → Proc D → Proc D
  wake chan p =
      if state_eq p.state sleeping && chan_eq p.chan chan then record p { state = runnable } else p

  -- one round of the loop of kill
  unfoldable pub kill_proc : ℕ → Proc D → Proc D
  kill_proc pid p =
      if p.pid == pid
      then record p {
        killed = true;
        state = if state_eq p.state sleeping then runnable else p.state;
      }
      else p

chan_eq_refl : (c : Chan) → chan_eq c c ≡ true
chan_eq_refl null = refl
chan_eq_refl (proc a) = ground arith
chan_eq_refl (addr a) = ground arith

module _ {D W : Type 0} where
  -- yield, up to its call of sched. `cur` is the slot of myproc().
  unfoldable pub yield : ℕ → Kernel D W → Kernel D W
  yield cur k = modify cur (λ p. record p { state = runnable }) k

  -- sleep, up to its call of sched; the caller's lock is released by then.
  unfoldable pub sleep : ℕ → Chan → Kernel D W → Kernel D W
  sleep cur chan k = modify cur (λ p. record p { chan = chan; state = sleeping }) k

  -- sleep, after sched has returned
  unfoldable pub sleep_tidy : ℕ → Kernel D W → Kernel D W
  sleep_tidy cur k = modify cur (λ p. record p { chan = null }) k

  unfoldable pub wakeup1 : Chan → Kernel D W → Kernel D W
  unfolding wake
  wakeup1 chan k = record k { procs = each (λ _. wake chan) k.procs }

  -- wakeup takes ptable.lock round wakeup1.
  unfoldable pub wakeup : Chan → Kernel D W → Kernel D W
  unfolding wakeup1
  wakeup chan k = wakeup1 chan k

  -- The new state, and the result: the return of -1 that follows is not reached.
  unfoldable pub kill : ℕ → Kernel D W → Kernel D W × ℤ
  unfolding kill_proc
  kill pid k = (record k { procs = each (λ _. kill_proc pid) k.procs }, pos 0)

  -- wakeup makes runnable exactly the processes that sleep on the channel, and changes nothing else
  -- of any process.
  pub wakeup_lem :
      (chan : Chan) (k : Kernel D W) (j : ℕ)
      → j < nproc
      → (wakeup chan k).procs j ≡ record (k.procs j) {
        state =
            if state_eq (k.procs j).state sleeping && chan_eq (k.procs j).chan chan
            then runnable
            else (k.procs j).state;
      }
  unfolding wakeup
  wakeup_lem chan k j l = rw (each_lem (λ _. wake chan) k.procs j, lt→ltb j nproc l) (ground arith)

  pub wakeup1_lem :
      (chan : Chan) (k : Kernel D W) (j : ℕ)
      → j < nproc
      → (wakeup1 chan k).procs j ≡ record (k.procs j) {
        state =
            if state_eq (k.procs j).state sleeping && chan_eq (k.procs j).chan chan
            then runnable
            else (k.procs j).state;
      }
  unfolding wakeup
  wakeup1_lem chan k j l = wakeup_lem chan k j l

  pub wakeup1-initproc : (chan : Chan) (k : Kernel D W) → (wakeup1 chan k).initproc ≡ k.initproc
  unfolding wakeup1
  wakeup1-initproc chan k = refl

  -- A process that sleeps and is woken on its channel is runnable, with its channel cleared when
  -- it runs on: nothing of its sleep is left but the time that has passed.
  pub sleep-wakeup :
      (cur : ℕ) (chan : Chan) (k : Kernel D W)
      → cur < nproc
      → (sleep_tidy cur (wakeup chan (sleep cur chan k))).procs cur
        ≡ record (k.procs cur) { chan = null; state = runnable }
  unfolding sleep_tidy sleep
  sleep-wakeup cur chan k l = rw (wakeup_lem chan _ cur l) (ground (arith, chan_eq_refl chan))

  -- kill marks every process and thread with the pid, leaves none of them asleep, touches no other
  -- slot, and returns 0 whether or not there is one.
  pub kill_lem :
      (pid : ℕ) (k : Kernel D W) (j : ℕ)
      → j < nproc
      → ((kill pid k).1 ≡ pos 0)
        × ((k.procs j).pid ≢ pid → (kill pid k).0.procs j ≡ k.procs j)
        × ((k.procs j).pid ≡ pid
            → (((kill pid k).0.procs j).killed ≡ true)
              × (((kill pid k).0.procs j).state ≢ sleeping)
              × (((kill pid k).0.procs j).pid ≡ pid))
  unfolding kill
  kill_lem pid k j l = (
    refl,
    ground (arith, each_lem (λ _. kill_proc pid) k.procs j),
    ground (arith, each_lem (λ _. kill_proc pid) k.procs j),
  )
