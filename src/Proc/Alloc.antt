-- ===== src/Proc/Alloc.antt =====
-- allocproc of xv6-public/proc.c: a slot, a pid, a thread number and a kernel stack.
pub mod Laws
use os_project.Prelude.{
  ℕ, zero, suc, ◌+◌, ◌<◌, ◌≡◌, Bool, true, false, Option, none, some, ltb, ◌==◌, if◌then◌else◌,
}
use os_project.Prelude.Int.{pos}
use os_project.Double.{Double}
use os_project.Proc.{nproc, unused, embryo, state_eq, Ptr, Proc, Tid, Kernel, update, modify}
use os_project.Proc.Services.{Services}

-- The first index from `i` on, among `n`, that passes the test.
unfoldable pub find_from : (ℕ → Bool) → ℕ → ℕ → Option ℕ
find_from test zero i = none
find_from test (suc n) i = if test i then some i else find_from test n (i + 1)

-- The loops that look for an UNUSED entry of ptable and of ttable.
unfoldable pub free_slot : {D W : Type 0} → Kernel D W → Option ℕ
free_slot k = find_from (λ i. state_eq (k.procs i).state unused) nproc 0

unfoldable pub free_tid : {D W : Type 0} → Kernel D W → Option ℕ
free_tid k = find_from (λ i. state_eq (k.tids i).state unused) nproc 0

-- The entry of ttable is taken, if one is free; else the thread number stays 0.
unfoldable pub take_tid : {D W : Type 0} → Kernel D W → ℕ × Kernel D W
take_tid k = elim (free_tid k) [
  | none ↦ (0, k)
  | some t ↦ (t, record k { tids = update k.tids t (record { index = t; state = embryo }) })
]

module _ {D : Type 0} ⦃F : Double D⦄ where
  -- the writes under `found:`, with the thread number `t`
  unfoldable pub new_proc : ℕ → ℕ → Proc D → Proc D
  new_proc pid t p = record p {
    state = embryo;
    pid = pid;
    is_mlfq = true;
    pticks = 0;
    ptotalticks = 0;
    priority = 0;
    share = F.of_int (pos 0);
    stride = F.of_int (pos 0);
    pass = F.of_int (pos 0);
    is_thread = false;
    tid = t;
    is_main_thread = true;
    cnt_thread = 1;
  }

module _ {D W : Type 0} ⦃F : Double D⦄ where
  -- What is done with ptable.lock held, for the free slot `i`.
  unfoldable pub claim : ℕ → Kernel D W → Kernel D W
  claim i k =
      let (t, k') = take_tid k in
      record (modify i (new_proc k.nextpid t) k') { nextpid = k.nextpid + 1 }

  module _ ⦃S : Services W⦄ where
    -- The rest: the kernel stack. The stack page's first contents, the trap frame and the context,
    -- are written by the callers and by the context switch.
    unfoldable pub give_stack : ℕ → Kernel D W → Ptr × Kernel D W
    give_stack i k =
        let (page, w) = S.kalloc k.world in
        let k' = record k { world = w } in
        elim page [
          | none ↦ (none, modify i (λ p. record p { kstack = none; state = unused }) k')
          | some a ↦ (some i, modify i (λ p. record p { kstack = some a }) k')
        ]

    unfoldable pub allocproc : Kernel D W → Ptr × Kernel D W
    allocproc k = elim (free_slot k) [ none ↦ (none, k) | some i ↦ give_stack i (claim i k) ]
