-- ===== src/Sched/Mlfq/Choice.antt =====
-- Whom MLFQ_Scheduler may choose, whatever happens in the turns.
use os_project.Prelude.{
  ℕ, zero, suc, ◌+◌, ◌^◌, ◌%◌, ◌<◌, inl, inr, [], ◌∷◌, arith, All, All-append, Bool-cases, ltb,
}
use os_project.Double.{Double}
use os_project.Proc.{nproc, Kernel}
use os_project.Sched.Boost.{boost_if_due}
use os_project.Sched.Mlfq.{
  Turns, Dispatch, Run, eligible, wrap, rounds_left, count, cost, dispatch, mlfq_pass_from,
  mlfq_level, then_run, mlfq_scheduler, after, mlfq_end, from_level_1, from_level_2, come_back,
}
use os_project.Sched.Mlfq.Steps.{CanRun, eligible-CanRun}

module _ {D W : Type 0} where
  -- A process of the table, which the loop for its level was to find.
  abbrev pub IsChoice : Dispatch D W → Type 0
  IsChoice d = (d.slot < nproc) × CanRun d.level (d.before.procs d.slot)

  module _ ⦃F : Double D⦄ where
    after-IsChoice :
        (d : Dispatch D W) (r : Run D W)
        → IsChoice d
        → All IsChoice r.chosen
        → All IsChoice (after d r).chosen
    unfolding after
    after-IsChoice d r h hs = (h, hs)

    from-IsChoice :
        (level : ℕ) (turns : Turns D W) (n c p : ℕ) (k : Kernel D W)
        → All IsChoice (mlfq_pass_from level turns n c p k).chosen
    unfolding mlfq_pass_from
    from-IsChoice level turns zero c p k = tt
    from-IsChoice level [] (suc n) c p k = elim (Bool-cases (ltb p nproc)) [
      | inr beyond ↦ rw (beyond, mlfq_pass_from) tt
      | inl inside ↦ elim (Bool-cases (eligible level ((boost_if_due k).procs (wrap c p)))) [
        | inr skip ↦
            rw (inside, skip, mlfq_pass_from)
              (from-IsChoice level [] n ((c + 1) % 2 ^ 32) (wrap c p + 1) (boost_if_due k))
        | inl hit ↦
            rw (inside, hit, mlfq_pass_from)
              ((ground arith, eligible-CanRun level ((boost_if_due k).procs (wrap c p)) hit), tt)
      ]
    ]
    from-IsChoice level (turn ∷ turns) (suc n) c p k = elim (Bool-cases (ltb p nproc)) [
      | inr beyond ↦ rw (beyond, mlfq_pass_from) tt
      | inl inside ↦ elim (Bool-cases (eligible level ((boost_if_due k).procs (wrap c p)))) [
        | inr skip ↦
            rw (inside, skip, mlfq_pass_from)
              (from-IsChoice level (turn ∷ turns) n ((c + 1) % 2 ^ 32) (wrap c p + 1)
                (boost_if_due k))
        | inl hit ↦
            let back =
              come_back (turn (dispatch (cost level) (wrap c p) (count c 63 (boost_if_due k)))) in
            rw (inside, hit, mlfq_pass_from)
              (after-IsChoice _ _
                (ground arith, eligible-CanRun level ((boost_if_due k).procs (wrap c p)) hit)
                (from-IsChoice level turns (rounds_left (back.levturn + 1))
                  ((back.checkpoint + 1) % 2 ^ 32) (wrap c p + 1) back))
      ]
    ]

    then_run-IsChoice :
        (r : Run D W) (next : Turns D W → Kernel D W → Run D W)
        → All IsChoice r.chosen
        → ((turns : Turns D W) (k : Kernel D W) → All IsChoice (next turns k).chosen)
        → All IsChoice (then_run r next).chosen
    unfolding then_run
    then_run-IsChoice r next h hn = elim (Bool-cases r.returned) [
      | inl e ↦ rw e (All-append IsChoice r.chosen _ h (hn r.turns r.final))
      | inr e ↦ rw e h
    ]

    level-IsChoice :
        (level : ℕ) (turns : Turns D W) (k : Kernel D W)
        → All IsChoice (mlfq_level level turns k).chosen
    unfolding mlfq_level
    level-IsChoice level turns k = from-IsChoice level turns 63 0 0 k

    from_level_2-IsChoice :
        (turns : Turns D W) (k : Kernel D W) → All IsChoice (from_level_2 turns k).chosen
    unfolding from_level_2
    from_level_2-IsChoice turns k =
        then_run-IsChoice (mlfq_level 2 turns k) mlfq_end (level-IsChoice 2 turns k)
          (λ _ _. unfold mlfq_end in tt)

    from_level_1-IsChoice :
        (turns : Turns D W) (k : Kernel D W) → All IsChoice (from_level_1 turns k).chosen
    unfolding from_level_1
    from_level_1-IsChoice turns k =
        then_run-IsChoice (mlfq_level 1 turns k) from_level_2 (level-IsChoice 1 turns k)
          from_level_2-IsChoice

    -- Whatever the processes do in their turns, and the other CPUs to the counters of the loops
    -- meanwhile, MLFQ_Scheduler chooses only slots of the process table, and only a runnable MLFQ
    -- process that is at the level being served when it is chosen.
    pub mlfq_scheduler-IsChoice :
        (turns : Turns D W) (k : Kernel D W) → All IsChoice (mlfq_scheduler turns k).chosen
    unfolding mlfq_scheduler
    mlfq_scheduler-IsChoice turns k =
        then_run-IsChoice (mlfq_level 0 turns (come_back k)) from_level_1
          (level-IsChoice 0 turns (come_back k)) from_level_1-IsChoice
