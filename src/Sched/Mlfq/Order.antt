-- ===== src/Sched/Mlfq/Order.antt =====
-- In which order MLFQ_Scheduler chooses: by level, and within a level by the table.
use os_project.Prelude.{
  ℕ, zero, suc, ◌+◌, ◌<◌, ◌≡◌, refl, ◌∙◌, inl, inr, true, false, [], ◌∷◌, ◌++◌, arith, ap,
  Bool-cases,
}
use os_project.Double.{Double}
use os_project.Proc.{Kernel}
use os_project.Sched.Boost.{boost_if_due}
use os_project.Sched.Mlfq.{
  Turns, Dispatch, Run, eligible, count, levturn_of, mlfq_pass_from, mlfq_level, then_run,
  mlfq_scheduler, mlfq_end, from_level_1, from_level_2, come_back,
}
use os_project.Sched.Mlfq.Steps.{
  CanRun, CanRun-eligible, not-eligible, FirstIs, round_skip, round_hit,
}

not_due : {D W : Type 0} (k : Kernel D W) → k.mlfq_ticks < 100 → boost_if_due k ≡ k
unfolding boost_if_due
not_due k h = ground arith

levturn_at : (c n : ℕ) → c + n ≡ 63 → levturn_of n ≡ c
levturn_at c n e = omega arith

module _ {D W : Type 0} where
  -- The choice of a slot by a loop whose two counters have come to it.
  abbrev pub choice : ℕ → ℕ → Kernel D W → Dispatch D W
  choice level slot k = record {
    level = level;
    slot = slot;
    before = record k { checkpoint = slot; levturn = slot };
  }

  -- No process of the first 63 slots can be chosen at the level.
  abbrev pub Idle : ℕ → Kernel D W → Type 0
  Idle level k = (j : ℕ) → j < 63 → ¬ CanRun level (k.procs j)

  -- What a loop that has found nobody leaves of the state.
  abbrev passed : Kernel D W → Kernel D W
  passed k = record k { checkpoint = 63; levturn = 63 }

  module _ ⦃F : Double D⦄ where
    hit-FirstIs :
        (level : ℕ) (turns : Turns D W) (n c : ℕ) (k : Kernel D W)
        → c + suc n ≡ 63
        → k.mlfq_ticks < 100
        → eligible level (k.procs c) ≡ true
        → FirstIs (choice level c k) (mlfq_pass_from level turns (suc n) c c k)
    hit-FirstIs level turns n c k e t h =
        let h' : eligible level ((boost_if_due k).procs c) ≡ true = rw (not_due k t) h in
        let (rest, e') = round_hit level n c k (omega arith) turns h' in
        (
          rest,
          e'
              ∙ ap (λ k'. record { level = level; slot = c; before = count c (suc n) k' } ∷ rest)
                  (not_due k t)
              ∙ ap
                  (λ t'.
                    record {
                      level = level;
                      slot = c;
                      before = record k { checkpoint = c; levturn = t' };
                    }
                    ∷ rest)
                  (levturn_at c (suc n) e),
        )

    -- From slot `c` on, the loop chooses the first slot that it may choose.
    from-FirstIs :
        (level : ℕ) (turns : Turns D W) (d n c : ℕ) (k : Kernel D W)
        → c + n ≡ 63
        → d < n
        → k.mlfq_ticks < 100
        → eligible level (k.procs (c + d)) ≡ true
        → ((e : ℕ) → e < d → eligible level (k.procs (c + e)) ≡ false)
        → FirstIs (choice level (c + d) k) (mlfq_pass_from level turns n c c k)
    from-FirstIs level turns d zero c k v l t h before = absurd (omega arith)
    from-FirstIs level turns zero (suc n) c k v l t h before =
        let e : c + zero ≡ c = omega arith in rw e (hit-FirstIs level turns n c k v t (rw e at h))
    from-FirstIs level turns (suc d) (suc n) c k v l t h before =
        let e : c + suc d ≡ c + 1 + d = omega arith in
        let z : c + 0 ≡ c = omega arith in
        let skip : eligible level ((boost_if_due k).procs c) ≡ false =
          rw (not_due k t) (rw z at (before 0 (omega arith))) in
        rw (round_skip level n c k (omega arith) turns skip, not_due k t, e)
          (from-FirstIs level turns d n (c + 1) k (omega arith) (omega arith) t (rw e at h) (λ i li.
            let ei : c + suc i ≡ c + 1 + i = omega arith in
            rw ei at (before (suc i) (omega arith))))

    from-Idle :
        (level : ℕ) (turns : Turns D W) (n c : ℕ) (k : Kernel D W)
        → c + n ≡ 63
        → k.mlfq_ticks < 100
        → Idle level k
        → mlfq_pass_from level turns n c c k
          ≡ record { chosen = []; final = passed k; returned = true; turns = turns }
    from-Idle level turns zero c k v t h =
        let at_end : c ≡ 63 = omega arith in
        rw at_end (unfold mlfq_pass_from in rw (not_due k t) refl)
    from-Idle level turns (suc n) c k v t h =
        let skip : eligible level ((boost_if_due k).procs c) ≡ false =
          rw (not_due k t) (not-eligible level (k.procs c) (h c (omega arith))) in
        rw (round_skip level n c k (omega arith) turns skip, not_due k t)
          (from-Idle level turns n (c + 1) k (omega arith) t h)

    then_run-FirstIs :
        (d : Dispatch D W) (r : Run D W) (next : Turns D W → Kernel D W → Run D W)
        → FirstIs d r
        → FirstIs d (then_run r next)
    unfolding then_run
    then_run-FirstIs d r next (rest, e) = elim (Bool-cases r.returned) [
      | inl b ↦
          rw b
            (rest ++ (next r.turns r.final).chosen, ap (λ l. l ++ (next r.turns r.final).chosen) e)
      | inr b ↦ rw b (rest, e)
    ]

    -- A loop that found nobody gives way to the next one.
    then_run-Idle :
        (turns : Turns D W) (k : Kernel D W) (d : Dispatch D W)
        (next : Turns D W → Kernel D W → Run D W) {r : Run D W}
        → r ≡ record { chosen = []; final = passed k; returned = true; turns = turns }
        → FirstIs d (next turns (passed k))
        → FirstIs d (then_run r next)
    unfolding then_run
    then_run-Idle turns k d next e (rest, h) = rw e (rest, h)

    -- Slot `s` is the first of the table that may be chosen at the level.
    pub record Leads (level s : ℕ) (k : Kernel D W) : Type 0 where
      pub low : s < 63
      pub may : CanRun level (k.procs s)
      pub first : (j : ℕ) → j < s → ¬ CanRun level (k.procs j)

    level-FirstIs :
        (level : ℕ) (turns : Turns D W) (s : ℕ) (k : Kernel D W)
        → k.mlfq_ticks < 100
        → Leads level s k
        → FirstIs (choice level s k) (mlfq_level level turns k)
    unfolding mlfq_level
    level-FirstIs level turns s k t h =
        let z : (j : ℕ) → 0 + j ≡ j = λ j. omega arith in
        rw (z s) at (
          from-FirstIs level turns s 63 0 k refl h.low t
            (rw (z s) (CanRun-eligible level (k.procs s) h.may))
            (λ j l. rw (z j) (not-eligible level (k.procs j) (h.first j l))))

    level-Idle :
        (level : ℕ) (turns : Turns D W) (k : Kernel D W)
        → k.mlfq_ticks < 100
        → Idle level k
        → mlfq_level level turns k
          ≡ record { chosen = []; final = passed k; returned = true; turns = turns }
    unfolding mlfq_level
    level-Idle level turns k t h = from-Idle level turns 63 0 k refl t h

    woken : {level s : ℕ} {k : Kernel D W} → Leads level s k → Leads level s (come_back k)
    unfolding come_back
    woken h = record { low = h.low; may = h.may; first = h.first }

    later : {level s : ℕ} {k : Kernel D W} → Leads level s k → Leads level s (passed k)
    later h = record { low = h.low; may = h.may; first = h.first }

    -- With no boost due, the first choice is the first process of the lowest level that has one in
    -- the first 63 slots: a process waits for every process of a lower level number.
    pub mlfq_scheduler-FirstIs :
        (turns : Turns D W) (level s : ℕ) (k : Kernel D W)
        → level < 3
        → k.mlfq_ticks < 100
        → Leads level s k
        → ((l : ℕ) → l < level → Idle l k)
        → FirstIs (choice level s (come_back k)) (mlfq_scheduler turns k)
    unfolding mlfq_scheduler from_level_1 from_level_2 come_back
    mlfq_scheduler-FirstIs turns zero s k _ t h _ =
        then_run-FirstIs _ _ from_level_1 (level-FirstIs 0 turns s (come_back k) t (woken h))
    mlfq_scheduler-FirstIs turns (suc zero) s k _ t h idle =
        then_run-Idle turns (come_back k) _ from_level_1
          (level-Idle 0 turns (come_back k) t (idle 0 (omega arith)))
          (then_run-FirstIs _ _ from_level_2
            (level-FirstIs 1 turns s (passed (come_back k)) t (later (woken h))))
    mlfq_scheduler-FirstIs turns (suc (suc zero)) s k _ t h idle =
        then_run-Idle turns (come_back k) _ from_level_1
          (level-Idle 0 turns (come_back k) t (idle 0 (omega arith)))
          (then_run-Idle turns (passed (come_back k)) _ from_level_2
            (level-Idle 1 turns (passed (come_back k)) t (idle 1 (omega arith)))
            (then_run-FirstIs _ _ mlfq_end
              (level-FirstIs 2 turns s (passed (come_back k)) t (later (woken h)))))
    mlfq_scheduler-FirstIs turns (suc (suc (suc n))) s k small t h idle = absurd (omega arith)
