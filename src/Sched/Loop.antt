-- ===== src/Sched/Loop.antt =====
-- Stride_Scheduler and one round of the endless loop of `scheduler` in xv6-public/proc.c.
use os_project.Prelude.{
  ℕ, ◌≡◌, inl, inr, true, false, none, some, [], ◌∷◌, if◌then◌else◌, Bool-cases,
}
use os_project.Double.{Double, of_uint, IsNonneg, Truncates}
use os_project.Proc.{nproc, running, Kernel, modify}
use os_project.Sched.Boost.{boost_if_due, boost_if_due-procs, reset_level-pass}
use os_project.Sched.MinPass.{find_min_pass, IsMin, NoneUnder, find_min_pass_lem}
use os_project.Sched.Mlfq.{Turns, Run, mlfq_scheduler, come_back}

-- A round's run, by the scheduler that made it; `by_stride i` ran the process in slot `i`.
pub data Round (D W : Type 0) : Type 0 where
  by_mlfq : Run D W → Round D W
  by_stride : ℕ → Run D W → Round D W

module _ {D W : Type 0} ⦃F : Double D⦄ where
  -- What Stride_Scheduler does before `swtch`: the process pays its stride, and runs.
  unfoldable pub stride_dispatch : ℕ → Kernel D W → Kernel D W
  stride_dispatch i k =
      modify i (λ p. record p { pass = F.add p.pass p.stride; state = running })
        (record k { cpu_proc = some i })

  unfoldable pub stride_scheduler : ℕ → Turns D W → Kernel D W → Run D W
  unfolding stride_dispatch come_back
  stride_scheduler i [] k = record {
    chosen = [];
    final = stride_dispatch i k;
    returned = false;
    turns = [];
  }
  stride_scheduler i (turn ∷ turns) k = record {
    chosen = [];
    final = come_back (turn (stride_dispatch i k));
    returned = true;
    turns = turns;
  }

  -- The choice between the two, once the boost that is due has been made.
  unfoldable pub choose_policy : Turns D W → Kernel D W → Round D W
  choose_policy turns k =
      if F.lt k.left_share (of_uint F 100)
      then (elim (find_min_pass k) [
        | none ↦ by_mlfq (mlfq_scheduler turns k)
        | some i ↦ by_stride i (stride_scheduler i turns k)
      ])
      else by_mlfq (mlfq_scheduler turns k)

  unfoldable pub scheduler_round : Turns D W → Kernel D W → Round D W
  unfolding choose_policy
  scheduler_round turns k = choose_policy turns (boost_if_due k)

  -- Why the scheduler's round ran what it ran. IsMin compares a pass with the whole part of the one
  -- chosen, so the chosen pass may be larger than another by less than 1.
  pub data Chosen (turns : Turns D W) (k : Kernel D W) : Round D W → Type 0 where
    no_share_out :
        F.lt k.left_share (of_uint F 100) ≡ false
        → Chosen turns k (by_mlfq (mlfq_scheduler turns k))
    none_ready :
        F.lt k.left_share (of_uint F 100) ≡ true
        → NoneUnder k.procs nproc
        → Chosen turns k (by_mlfq (mlfq_scheduler turns k))
    queue_first :
        (m : ℕ)
        → F.lt k.left_share (of_uint F 100) ≡ true
        → IsMin k.procs nproc m
        → F.lt k.mlfq_pass (of_uint F (F.to_uint (k.procs m).pass)) ≡ true
        → Chosen turns k (by_mlfq (mlfq_scheduler turns k))
    stride_first :
        (m : ℕ)
        → F.lt k.left_share (of_uint F 100) ≡ true
        → IsMin k.procs nproc m
        → F.lt k.mlfq_pass (of_uint F (F.to_uint (k.procs m).pass)) ≡ false
        → Chosen turns k (by_stride m (stride_scheduler m turns k))

  choose_policy-Chosen :
      (turns : Turns D W) (k : Kernel D W)
      → Truncates F
      → ((j : ℕ) → IsNonneg F (k.procs j).pass)
      → Chosen turns k (choose_policy turns k)
  unfolding choose_policy
  choose_policy-Chosen turns k L nonneg = elim (Bool-cases (F.lt k.left_share (of_uint F 100))) [
    | inr all ↦ rw all (no_share_out all)
    | inl out ↦ elim (find_min_pass_lem k L nonneg) [
      | inr (idle, e) ↦ rw (out, e) (none_ready out idle)
      | inl (m, min, e) ↦
          elim (Bool-cases (F.lt k.mlfq_pass (of_uint F (F.to_uint (k.procs m).pass)))) [
            | inl lower ↦
                let f : find_min_pass k ≡ none = rw lower at e in
                rw (out, f, choose_policy) (queue_first m out min lower)
            | inr higher ↦
                let f : find_min_pass k ≡ some m = rw higher at e in
                rw (out, f, choose_policy) (stride_first m out min higher)
          ]
    ]
  ]

  -- With no negative pass value, and a conversion to uint that truncates, a round first makes the
  -- boost that is due. It serves the MLFQ if no share of the CPU has been given out, or if no stride
  -- process that can run has a pass under 3000000000. Otherwise there is one that can run such that no
  -- other that can run has a pass under the whole part of its pass: the round serves the MLFQ if the
  -- MLFQ's pass value is under that whole part, and else runs this process.
  pub scheduler_round-Chosen :
      (turns : Turns D W) (k : Kernel D W)
      → Truncates F
      → ((j : ℕ) → IsNonneg F (k.procs j).pass)
      → Chosen turns (boost_if_due k) (scheduler_round turns k)
  unfolding scheduler_round
  scheduler_round-Chosen turns k L nonneg = choose_policy-Chosen turns (boost_if_due k) L (λ j.
      boost_if_due-procs (λ p. IsNonneg F p.pass) j k (λ p h. rw (reset_level-pass p) h) (nonneg j))
