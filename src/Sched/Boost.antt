-- ===== src/Sched/Boost.antt =====
-- MLFQ_Boost of xv6-public/proc.c, which moves every MLFQ process back to the first level, and the
-- test on the tick count that calls it.
use os_project.Prelude.{
  ℕ, ◌≡◌, inl, inr, refl, ◌<◌, arith, leb, ltb, lt→ltb, Bool-cases, if◌then◌else◌,
}
use os_project.Proc.{nproc, Proc, Kernel}
use os_project.Proc.Table.{each, each_lem}

module _ {D : Type 0} where
  unfoldable pub reset_level : Proc D → Proc D
  reset_level p = if p.is_mlfq then record p { priority = 0; pticks = 0; ptotalticks = 0 } else p

  unfoldable pub mlfq_boost : {W : Type 0} → Kernel D W → Kernel D W
  unfolding reset_level
  mlfq_boost k = record k { procs = each (λ _. reset_level) k.procs; mlfq_ticks = 0 }

  -- if(MLFQ_ticks >= 100) MLFQ_Boost();
  unfoldable pub boost_if_due : {W : Type 0} → Kernel D W → Kernel D W
  boost_if_due k = if leb 100 k.mlfq_ticks then mlfq_boost k else k

  -- A property that the reset keeps is kept by the boost, whether or not it is due.
  pub boost_if_due-procs :
      {W : Type 0} (P : Proc D → Type 0) (j : ℕ) (k : Kernel D W)
      → ((p : Proc D) → P p → P (reset_level p))
      → P (k.procs j)
      → P ((boost_if_due k).procs j)
  unfolding boost_if_due mlfq_boost
  boost_if_due-procs P j k keep h = elim (Bool-cases (leb 100 k.mlfq_ticks)) [
    | inr late ↦ rw late h
    | inl due ↦
        rw (due, each_lem (λ _. reset_level) k.procs j)
          (elim (Bool-cases (ltb j nproc)) [ inl e ↦ rw e (keep (k.procs j) h) | inr e ↦ rw e h ])
  ]

  -- A boost puts every MLFQ process of the table at the start of the first level, leaves every
  -- other process as it was, and restarts the count of ticks.
  pub mlfq_boost_lem :
      {W : Type 0} (k : Kernel D W)
      → ((j : ℕ)
          → j < nproc
          → (mlfq_boost k).procs j ≡ (
              if (k.procs j).is_mlfq
              then record (k.procs j) { priority = 0; pticks = 0; ptotalticks = 0 }
              else k.procs j))
        × ((mlfq_boost k).mlfq_ticks ≡ 0)
  unfolding mlfq_boost reset_level
  mlfq_boost_lem k = ((λ j l. rw (each_lem _ k.procs j, lt→ltb j nproc l)), refl)

  pub reset_level-pass : (p : Proc D) → (reset_level p).pass ≡ p.pass
  unfolding reset_level
  reset_level-pass p = ground arith
