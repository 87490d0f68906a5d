-- ===== src/Sched/Share.antt =====
-- Requests for a share of the CPU: set_cpu_share of xv6-public/set_cpu_share.c, and cpu_share of
-- proc.c. `cur` is the slot of myproc().
use os_project.Prelude.{ℕ, false, ◌&&◌, none, some, ltb, ◌==◌, if◌then◌else◌}
use os_project.Prelude.Int.{ℤ, pos, negsuc, ◌+ℤ◌, ltb_ℤ, eq_ℤ, quot}
use os_project.Prelude.Outcome.{Outcome, ok, panic, fault, ◌>>=◌, deref}
use os_project.Double.{Double}
use os_project.Proc.{Proc, Kernel, update, modify}
use os_project.Proc.Table.{each}
use os_project.Sched.MinPass.{find_min_pass}

-- STRIDENUM
abbrev pub stride_num : ℤ
stride_num = pos 100

-- An integer division of which the divisor may be zero.
abbrev pub checked_quot : ℤ → ℤ → Outcome ℤ
checked_quot a b = if eq_ℤ b (pos 0) then fault else ok (quot a b)

module _ {D : Type 0} ⦃F : Double D⦄ where
  -- the process's writes: it leaves the MLFQ with a share, a stride and a pass value
  unfoldable pub enter_stride : D → D → D → Proc D → Proc D
  enter_stride share stride pass p = record p {
    is_mlfq = false;
    share = share;
    stride = stride;
    pass = pass;
  }

  module _ {W : Type 0} where
    -- The pass value to start from: that of the process that findMinPass returns, or the MLFQ's.
    unfoldable pub start_pass : Kernel D W → D
    start_pass k = elim (find_min_pass k) [ none ↦ k.mlfq_pass | some i ↦ (k.procs i).pass ]

    -- The loop over the processes and threads with the caller's pid, each given the same share.
    unfoldable pub share_group : ℕ → ℤ → Kernel D W → Kernel D W
    share_group pid share k =
        let s = F.of_int share in
        let stride = F.div (F.of_int stride_num) s in
        let pass = start_pass k in
        record k {
          procs = each (λ _ t. if t.pid == pid then enter_stride s stride pass t else t) k.procs;
        }

    -- The first part of cpu_share: the owner's total grows, and leftShare falls by that total.
    unfoldable pub take_share : ℕ → ℤ → Kernel D W → Outcome (Kernel D W)
    take_share owner share k =
        let total = (k.procs owner).totalshare +ℤ share in
        if ltb_ℤ (pos 100) total
        then panic
        else (let left = F.sub k.left_share (F.of_int total) in
            ok (record k {
              procs = update k.procs owner (record (k.procs owner) { totalshare = total });
              left_share = left;
              mlfq_stride = F.div (F.of_int stride_num) left;
            }))

    -- The second part: who gets the share, by the kind of the caller.
    unfoldable pub give_share : ℕ → ℤ → Kernel D W → Outcome (Kernel D W)
    give_share cur share k =
        let p = k.procs cur in
        if p.is_main_thread && ltb 1 p.cnt_thread
        then (do
          each_share ← checked_quot p.totalshare (pos p.cnt_thread)
          ok (share_group p.pid each_share k))
        else (if p.is_thread
            then (do
              parent ← deref p.parent
              each_share ← checked_quot share (pos (k.procs parent).cnt_thread)
              ok (share_group p.pid each_share k))
            else (do
              stride ← checked_quot stride_num share
              ok (modify cur (enter_stride (F.of_int share) (F.of_int stride) (start_pass k)) k)))

    unfoldable pub cpu_share : ℕ → ℤ → Kernel D W → Outcome (Kernel D W)
    cpu_share cur share k = do
      owner ← if (k.procs cur).is_main_thread then ok cur else deref (k.procs cur).parent
      k' ← take_share owner share k
      give_share cur share k'

    -- The new state, and the result.
    unfoldable pub set_cpu_share : ℕ → ℤ → Kernel D W → Outcome (Kernel D W × ℤ)
    set_cpu_share cur share k =
        if F.lt (F.sub k.left_share (F.of_int share)) (F.of_int (pos 20))
        then ok (k, negsuc 0)
        else (if eq_ℤ share (pos 0)
            then ok (k, negsuc 0)
            else (do k' ← cpu_share cur share k; ok (k', share)))
