-- ===== src/Proc/Wait/Round.antt =====
-- What wait has done where it returns or goes to sleep.
use os_project.Prelude.{ℕ, ◌<◌, ◌≡◌, inl, inr, false, not, ◌||◌, arith, Bool-cases}
use os_project.Prelude.Int.{pos}
use os_project.Prelude.Outcome.{ok, >>=-eq-ok, ok-injective}
use os_project.Double.{Double}
use os_project.Proc.{nproc, proc, Kernel}
use os_project.Proc.Services.{Services}
use os_project.Proc.Wait.{Scan, found, scanned, wait_scan}
use os_project.Proc.Wait.Skipped.{is_ready, Found, Passed, Scanned, IsMarked}
use os_project.Proc.Fork.{failed}
use os_project.Proc.Sleep.{sleep}
use os_project.Proc.Wait.{Next, returns, sleeps, wait_end, wait_round}
use os_project.Proc.Wait.Finds.{wait_scan-Scanned}

module _ {D W : Type 0} ⦃F : Double D⦄ ⦃S : Services W⦄ where
  -- What wait has done where it returns or goes to sleep.
  pub data Waited (cur : ℕ) (k : Kernel D W) : Next D W → Type 0 where
    child_freed :
        (pid : ℕ) (k' : Kernel D W) → Found cur pid k k' → Waited cur k (returns (pos pid) k')
    no_child :
        (k' : Kernel D W)
        → Passed k k'
        → ((j : ℕ) → j < nproc → is_ready cur (k.procs j) ≡ false)
        → Waited cur k (returns failed k')
    asleep :
        (k' : Kernel D W)
        → Passed k k'
        → ((j : ℕ) → j < nproc → is_ready cur (k.procs j) ≡ false)
        → Waited cur k (sleeps (sleep cur (proc cur) k'))

  scan-Waited :
      (cur : ℕ) (k : Kernel D W) (scan : Scan D W) (next : Next D W)
      → Scanned cur 0 nproc k scan
      → wait_end cur scan ≡ next
      → Waited cur k next
  unfolding Scanned wait_end
  scan-Waited cur k (found pid k') next f e = rw (← e) (child_freed pid k' f)
  scan-Waited cur k (scanned havekids k') next (passed, none_ready) e =
      elim (Bool-cases (not havekids || (k'.procs cur).killed)) [
        | inl over ↦ rw (← rw over at e) (no_child k' passed (λ j l. none_ready j (omega arith) l))
        | inr more ↦ rw (← rw more at e) (asleep k' passed (λ j l. none_ready j (omega arith) l))
      ]

  -- Where each zombie is either a thread or a main thread, a round of wait that goes well does one of
  -- three things. It returns the pid of a child of the caller that was a zombie, whose slot is free
  -- now with those of all its zombie threads; or it returns -1; or it sleeps. In the last two cases
  -- no child was a main thread that has exited, but for those whose flag of exec was set. Any other
  -- process has at most that flag cleared, or is a zombie thread that is freed.
  pub wait_round-Waited :
      (cur : ℕ) (k : Kernel D W) (next : Next D W)
      → IsMarked k
      → wait_round cur k ≡ ok next
      → Waited cur k next
  unfolding wait_round
  wait_round-Waited cur k next marked e =
      let (scan, scans, e1) = >>=-eq-ok (wait_scan cur nproc 0 false k) _ e in
      scan-Waited cur k scan next
        (wait_scan-Scanned cur nproc 0 false k scan (omega arith) marked scans) (ok-injective e1)
