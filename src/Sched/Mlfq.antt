-- ===== src/Sched/Mlfq.antt =====
-- MLFQ_Scheduler of xv6-public/proc.c: three round-robin passes over the process table, one for
-- each level. `swtch` hands the CPU to the chosen process; what happens until it comes back is the
-- argument `turns`, one function on the kernel's state for each turn. A turn may change all of the
-- state, `checkpoint` and `levturn` too, which the schedulers of the other CPUs use meanwhile: while
-- the lock is held a loop counts them itself, and they are in the state over a turn and at the
-- loop's end. Where the list ends the last
-- process is still running, so a run on a longer list continues a run on a shorter one.
pub mod Steps
pub mod Choice
pub mod Order
use os_project.Prelude.{
  ◌++◌, ℕ, zero, suc, ◌+◌, ◌-◌, ◌*◌, ◌%◌, ◌^◌, ◌≡◌, Bool, true, false, ◌&&◌, some, none, List, [],
  ◌∷◌, arith, ltb, ◌==◌, if◌then◌else◌,
}
use os_project.Prelude.Int.{pos}
use os_project.Double.{Double, of_uint}
use os_project.Proc.{nproc, runnable, running, state_eq, Proc, Kernel, modify}
use os_project.Sched.Boost.{boost_if_due}

-- A turn of a process, from the switch to it until it switches back.
abbrev pub Turns : Type 0 → Type 0 → Type 0
Turns D W = List (Kernel D W → Kernel D W)

-- A process that the scheduler chose, and the state in which it did.
pub record Dispatch (D W : Type 0) : Type 0 where
  pub level : ℕ
  pub slot : ℕ
  pub before : Kernel D W

-- What a scheduler's run did: its choices in order, the state at its end, and whether it returned
-- (with the turns that are left) or is waiting for its last choice to come back.
pub record Run (D W : Type 0) : Type 0 where
  pub chosen : List (Dispatch D W)
  pub final : Kernel D W
  pub returned : Bool
  pub turns : Turns D W

-- The tests of the loop for one level: `p->isMLFQ != 1`, `p->state != RUNNABLE` and
-- `p->priority != level` go on to the next slot.
abbrev pub eligible : {D : Type 0} → ℕ → Proc D → Bool
eligible level p = p.is_mlfq && (state_eq p.state runnable && p.priority == level)

-- The factor of the stride that a turn at a level costs the MLFQ: 1, 2, 4.
abbrev pub cost : ℕ → ℕ
cost zero = 1
cost (suc zero) = 2
cost _ = 4

-- checkpoint % 63 == 0, of the 32 bits of an int
abbrev pub at_multiple : ℕ → Bool
at_multiple c = if ltb c (2 ^ 31) then c % 63 == 0 else (2 ^ 32 - c) % 63 == 0

-- p = ptable.proc where `checkpoint % 63` is zero
abbrev pub wrap : ℕ → ℕ → ℕ
wrap checkpoint p = if at_multiple checkpoint then 0 else p

-- The rounds that a loop with this `levturn` has before it is 63, and `levturn` with `n` of them to come.
abbrev pub rounds_left : ℕ → ℕ
rounds_left levturn = (2 ^ 32 + 63 - levturn) % 2 ^ 32

abbrev pub levturn_of : ℕ → ℕ
levturn_of n = (2 ^ 32 + 63 - n) % 2 ^ 32

-- The counters of a loop in the state, with `n` rounds to come.
abbrev pub count : {D W : Type 0} → ℕ → ℕ → Kernel D W → Kernel D W
count checkpoint n k = record k { checkpoint = checkpoint; levturn = levturn_of n }

module _ {D W : Type 0} ⦃F : Double D⦄ where
  -- MLFQPassVal += MLFQStrideVal * n, if a share is out
  pub charge : ℕ → Kernel D W → Kernel D W
  charge n k =
      if F.lt k.left_share (of_uint F 100)
      then record k {
        mlfq_pass =
            F.add k.mlfq_pass (if n == 1 then k.mlfq_stride else F.mul k.mlfq_stride (of_uint F n));
      }
      else k

  -- What is done before `swtch`, and `c->proc = 0` after it.
  unfoldable pub dispatch : ℕ → ℕ → Kernel D W → Kernel D W
  dispatch n i k =
      modify i (λ p. record p { state = running }) (record (charge n k) { cpu_proc = some i })

  unfoldable pub come_back : Kernel D W → Kernel D W
  come_back k = record k { cpu_proc = none }

  pub after : Dispatch D W → Run D W → Run D W
  after d r = record r { chosen = d ∷ r.chosen }

  -- The loop for one level with `n` rounds to come. A choice sets levturn to 0; behind the turn the
  -- loop goes on from what the counters are then, plus 1.
  unfoldable pub mlfq_pass_from : ℕ → Turns D W → ℕ → ℕ → ℕ → Kernel D W → Run D W
  mlfq_pass_from level turns zero checkpoint p k = record {
    chosen = [];
    final = count checkpoint zero (if ltb p nproc then boost_if_due k else k);
    returned = true;
    turns = turns;
  }
  mlfq_pass_from level [] (suc n) checkpoint p k = elim (ltb p nproc) [
    | false ↦ record {
      chosen = [];
      final = count checkpoint (suc n) k;
      returned = true;
      turns = [];
    }
    | true ↦
        let k' = boost_if_due k in
        let i = wrap checkpoint p in
        elim (eligible level (k'.procs i)) [
          | false ↦ mlfq_pass_from level [] n ((checkpoint + 1) % 2 ^ 32) (i + 1) k'
          | true ↦ record {
            chosen = record { level = level; slot = i; before = count checkpoint (suc n) k' } ∷ [];
            final = dispatch (cost level) i (count checkpoint 63 k');
            returned = false;
            turns = [];
          }
        ]
  ]
  mlfq_pass_from level (turn ∷ turns) (suc n) checkpoint p k = elim (ltb p nproc) [
    | false ↦ record {
      chosen = [];
      final = count checkpoint (suc n) k;
      returned = true;
      turns = turn ∷ turns;
    }
    | true ↦
        let k' = boost_if_due k in
        let i = wrap checkpoint p in
        elim (eligible level (k'.procs i)) [
          | false ↦ mlfq_pass_from level (turn ∷ turns) n ((checkpoint + 1) % 2 ^ 32) (i + 1) k'
          | true ↦
              let back = come_back (turn (dispatch (cost level) i (count checkpoint 63 k'))) in
              after (record { level = level; slot = i; before = count checkpoint (suc n) k' })
                (mlfq_pass_from level turns (rounds_left (back.levturn + 1))
                  ((back.checkpoint + 1) % 2 ^ 32) (i + 1) back)
        ]
  ]

  -- The loop from its start: levturn, checkpoint and p are 0.
  pub mlfq_level : ℕ → Turns D W → Kernel D W → Run D W
  mlfq_level level turns k = mlfq_pass_from level turns 63 0 0 k

  -- One loop after another, while the CPU comes back.
  pub then_run : Run D W → (Turns D W → Kernel D W → Run D W) → Run D W
  then_run r next = elim r.returned [
    | false ↦ r
    | true ↦ let s = next r.turns r.final in record s { chosen = r.chosen ++ s.chosen }
  ]

  -- What follows the loops for levels 2, 1 and 0.
  pub mlfq_end : Turns D W → Kernel D W → Run D W
  mlfq_end turns k = record { chosen = []; final = charge 1 k; returned = true; turns = turns }

  pub from_level_2 : Turns D W → Kernel D W → Run D W
  from_level_2 turns k = then_run (mlfq_level 2 turns k) mlfq_end

  pub from_level_1 : Turns D W → Kernel D W → Run D W
  from_level_1 turns k = then_run (mlfq_level 1 turns k) from_level_2

  unfoldable pub mlfq_scheduler : Turns D W → Kernel D W → Run D W
  unfolding then_run mlfq_level from_level_1 from_level_2 mlfq_end
  mlfq_scheduler turns k = then_run (mlfq_level 0 turns (come_back k)) from_level_1
