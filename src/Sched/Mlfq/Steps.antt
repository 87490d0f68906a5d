-- ===== src/Sched/Mlfq/Steps.antt =====
-- The rounds of the loop of MLFQ_Scheduler from its start to its first choice, where its pointer and
-- `checkpoint` agree.
use os_project.Prelude.{
  ℕ, suc, ◌+◌, ◌%◌, ◌^◌, ◌<◌, ◌≡◌, refl, inl, inr, Bool-cases, true, false, List, [], ◌∷◌, arith,
  ltb,
}
use os_project.Double.{Double}
use os_project.Proc.{nproc, runnable, Proc, Kernel}
use os_project.Sched.Boost.{boost_if_due}
use os_project.Sched.Mlfq.{Turns, Dispatch, Run, eligible, wrap, count, after, mlfq_pass_from}

-- A process that the MLFQ may run when it serves a level.
abbrev pub CanRun : {D : Type 0} → ℕ → Proc D → Type 0
CanRun level p = (p.is_mlfq ≡ true) × (p.state ≡ runnable) × (p.priority ≡ level)

pub CanRun-eligible : {D : Type 0} (l : ℕ) (p : Proc D) → CanRun l p → eligible l p ≡ true
CanRun-eligible l p h = ground arith

pub eligible-CanRun : {D : Type 0} (l : ℕ) (p : Proc D) → eligible l p ≡ true → CanRun l p
eligible-CanRun l p h = ground arith

pub not-eligible : {D : Type 0} (l : ℕ) (p : Proc D) → ¬ CanRun l p → eligible l p ≡ false
not-eligible l p h = elim (Bool-cases (eligible l p)) [
  | inl e ↦ absurd (h (eligible-CanRun l p e))
  | inr e ↦ e
]

wrap_lem : (c : ℕ) → c < 63 → wrap c c ≡ c
wrap_lem c l = ground arith

on : (c : ℕ) → c < 63 → ltb c nproc ≡ true
on c l = ground arith

next_checkpoint : (c : ℕ) → c < 63 → (c + 1) % 2 ^ 32 ≡ c + 1
next_checkpoint c l = omega arith

-- The run's first choice, where it makes one.
abbrev pub FirstIs : {D W : Type 0} → Dispatch D W → Run D W → Type 0
FirstIs {D} {W} d r = (rest : List (Dispatch D W)) × (r.chosen ≡ d ∷ rest)

module _ {D W : Type 0} ⦃F : Double D⦄ (level n c : ℕ) (k : Kernel D W) (l : c < 63) where
  pub round_skip :
      (turns : Turns D W)
      → eligible level ((boost_if_due k).procs c) ≡ false
      → mlfq_pass_from level turns (suc n) c c k
        ≡ mlfq_pass_from level turns n (c + 1) (c + 1) (boost_if_due k)
  unfolding mlfq_pass_from
  round_skip [] h =
      rw (on c l, wrap_lem c l, h, mlfq_pass_from) (rw (wrap_lem c l, next_checkpoint c l))
  round_skip (turn ∷ turns) h =
      rw (on c l, wrap_lem c l, h, mlfq_pass_from) (rw (wrap_lem c l, next_checkpoint c l))

  pub round_hit :
      (turns : Turns D W)
      → eligible level ((boost_if_due k).procs c) ≡ true
      → FirstIs
          (record { level = level; slot = c; before = count c (suc n) (boost_if_due k) })
          (mlfq_pass_from level turns (suc n) c c k)
  unfolding mlfq_pass_from after
  round_hit [] h = rw (on c l, wrap_lem c l, h, mlfq_pass_from) (rw (wrap_lem c l) ([], refl))
  round_hit (turn ∷ turns) h =
      rw (on c l, wrap_lem c l, h, mlfq_pass_from) (rw (wrap_lem c l) (_, refl))
