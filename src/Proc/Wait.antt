-- ===== src/Proc/Wait.antt =====
-- killsamepid and wait of xv6-public/proc.c. Each holds ptable.lock from its start to
-- its return or its call of sleep. `cur` is the slot of myproc().
pub mod Frees
pub mod Skipped
pub mod Finds
pub mod Round
pub mod Join
use os_project.Prelude.{
  ℕ, zero, suc, ◌+◌, Bool, true, false, not, ◌&&◌, ◌||◌, Option, none, some, List, [], ◌∷◌, ◌==◌,
  if◌then◌else◌,
}
use os_project.Prelude.Int.{ℤ, pos}
use os_project.Prelude.Outcome.{Outcome, ok, ◌>>=◌, for_each}
use os_project.Double.{Double}
use os_project.Proc.{
  nproc, unused, zombie, state_eq, ptr_eq, proc, Tid, Proc, Kernel, update, modify,
}
use os_project.Proc.Sleep.{sleep, sleep_tidy}
use os_project.Proc.Services.{Services}
use os_project.Proc.Fork.{failed}

-- p->name[0] = 0
abbrev pub clear_first : List ℕ → List ℕ
clear_first [] = []
clear_first (c ∷ cs) = 0 ∷ cs

module _ {D : Type 0} ⦃F : Double D⦄ where
  -- The fields that killsamepid, wait and thread_join all reset in a slot that they free.
  unfoldable pub reset_proc : Proc D → Proc D
  reset_proc p = record p {
    pass = F.of_int (pos 0);
    stride = F.of_int (pos 0);
    share = F.of_int (pos 0);
    pticks = 0;
    ptotalticks = 0;
    priority = 0;
    is_mlfq = false;
    tid = 0;
    kstack = none;
    pid = 0;
    parent = none;
    name = clear_first p.name;
    killed = false;
    state = unused;
  }

-- A zombie thread with the pid, which killsamepid frees.
abbrev pub dead_thread : {D : Type 0} → ℕ → Proc D → Bool
dead_thread pid p = p.pid == pid && (not p.is_main_thread && state_eq p.state zombie)

-- What a scan of the table by wait ends with: the pid that it returns, or whether it met a child.
pub data Scan (D W : Type 0) : Type 0 where
  found : ℕ → Kernel D W → Scan D W
  scanned : Bool → Kernel D W → Scan D W

-- What wait does next: it returns, or it sleeps.
pub data Next (D W : Type 0) : Type 0 where
  returns : ℤ → Kernel D W → Next D W
  sleeps : Kernel D W → Next D W

module _ {D W : Type 0} where
  -- ttable.tid[t].state = UNUSED
  unfoldable pub release_tid : ℕ → Kernel D W → Kernel D W
  release_tid t k = record k { tids = update k.tids t (record (k.tids t) { state = unused }) }

  -- What follows the scan.
  unfoldable pub wait_end : ℕ → Scan D W → Next D W
  wait_end cur (found pid k) = returns (pos pid) k
  wait_end cur (scanned havekids k) =
      if not havekids || (k.procs cur).killed
      then returns failed k
      else sleeps (sleep cur (proc cur) k)

module _ {D W : Type 0} ⦃F : Double D⦄ where
  -- The share of a process that leaves the stride scheduler goes back.
  unfoldable pub return_share : D → Kernel D W → Kernel D W
  return_share share k =
      let left = F.add k.left_share share in
      record k { left_share = left; mlfq_stride = F.div (F.of_int (pos 100)) left }

  -- What reap gives back: the thread number, and the share of a stride process.
  unfoldable pub reap_share : ℕ → Kernel D W → Kernel D W
  reap_share i k =
      let p = k.procs i in
      let k' = release_tid p.tid k in
      if p.is_mlfq then k' else return_share (F.of_int p.totalshare) k'

  module _ ⦃S : Services W⦄ where
    -- The slot `i` and its stack are freed.
    unfoldable pub free_proc : ℕ → Kernel D W → Outcome (Kernel D W)
    free_proc i k = do
      w ← S.kfree (k.procs i).kstack k.world
      ok (modify i reset_proc (record k { world = w }))

    unfoldable pub kill_same_step : ℕ → ℕ → Kernel D W → Outcome (Kernel D W)
    kill_same_step pid i k =
        if dead_thread pid (k.procs i) then free_proc i (release_tid (k.procs i).tid k) else ok k

    -- It always returns 0, so its result is left out, with the test of it in wait.
    unfoldable pub killsamepid : ℕ → Kernel D W → Outcome (Kernel D W)
    killsamepid pid k = for_each (kill_same_step pid) nproc 0 k

    -- The end of wait for the zombie child in slot `i`, of which the threads are freed already.
    unfoldable pub reap : ℕ → Kernel D W → Outcome (Kernel D W)
    reap i k = do
      let p = k.procs i
      let k2 = reap_share i k
      w ← S.kfree p.kstack k2.world
      w' ← (if p.is_main_thread then S.freevm p.pgdir w else ok w)
      ok (modify i (λ p. record (reset_proc p) { totalshare = pos 0 }) (record k2 { world = w' }))

    -- The scan of the table, `n` slots from slot `i` on; `havekids` tells whether a child was met.
    unfoldable pub wait_scan : ℕ → ℕ → ℕ → Bool → Kernel D W → Outcome (Scan D W)
    wait_scan cur zero i havekids k = ok (scanned havekids k)
    wait_scan cur (suc n) i havekids k = elim (ptr_eq (k.procs i).parent (some cur)) [
      | false ↦ wait_scan cur n (i + 1) havekids k
      | true ↦ elim (k.procs i).is_there_exec [
        | true ↦
            wait_scan cur n (i + 1) havekids (modify i (λ p. record p { is_there_exec = false }) k)
        | false ↦ elim (state_eq (k.procs i).state zombie) [
          | false ↦ wait_scan cur n (i + 1) true k
          | true ↦ killsamepid (k.procs i).pid k >>= λ k1.
              elim ((k1.procs i).is_thread && not (k1.procs i).is_main_thread) [
                | true ↦ wait_scan cur n (i + 1) true k1
                | false ↦ do let pid = (k1.procs i).pid; k2 ← reap i k1; ok (found pid k2)
              ]
        ]
      ]
    ]

    -- From the start of the endless loop to a return, or to the call of sched in sleep.
    unfoldable pub wait_round : ℕ → Kernel D W → Outcome (Next D W)
    wait_round cur k = do scan ← wait_scan cur nproc 0 false k; ok (wait_end cur scan)

    -- wait: each function of the list is what happens from a call of sched to its return.
    unfoldable pub wait : ℕ → List (Kernel D W → Kernel D W) → Kernel D W → Outcome (Next D W)
    wait cur [] k = wait_round cur k
    wait cur (turn ∷ turns) k = wait_round cur k >>= λ next. elim next [
      | returns r k' ↦ ok (returns r k')
      | sleeps k' ↦ wait cur turns (sleep_tidy cur (turn k'))
    ]
