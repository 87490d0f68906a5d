-- ===== src/Sched/Thread.antt =====
-- thread_create of xv6-public/proc.c. `cur` is the slot of myproc().
use os_project.Prelude.{
  ℕ, ◌+◌, ◌*◌, ◌-◌, ◌/◌, ◌%◌, ◌^◌, true, false, Option, none, some, List, [], ◌∷◌, ◌==◌,
  if◌then◌else◌, ◌≡◌, ◌≢◌, ◌∙◌, refl, sym, ap, inl, inr, arith,
}
use os_project.Prelude.Int.{pos, ◌-ℤ◌}
use os_project.Prelude.Outcome.{Outcome, ok, fault, ◌>>=◌, deref}
use os_project.Double.{Double, of_uint}
use os_project.Proc.{unused, runnable, Ptr, Proc, Kernel, modify}
use os_project.Proc.Table.{each}
use os_project.Proc.Services.{Services}
use os_project.Proc.Alloc.{allocproc}
use os_project.Proc.Alloc.Laws.{allocproc_lem}
use os_project.Proc.Fork.{inherit}
use os_project.Sched.MinPass.{find_min_pass}

-- PGSIZE
abbrev pub page_size : ℕ
page_size = 4096

-- The bytes of a word in memory.
abbrev pub word_bytes : ℕ → List ℕ
word_bytes w = w % 256 ∷ w / 256 % 256 ∷ w / 65536 % 256 ∷ w / 16777216 % 256 ∷ []

-- The top of the stack of thread `tid`, `usz + tid * 2 * PGSIZE`, and the stack pointer under the
-- fake return address and the argument.
abbrev pub stack_top : ℕ → ℕ → ℕ
stack_top usz tid = (usz + tid * 2 * page_size) % 2 ^ 32

abbrev pub start_sp : ℕ → ℕ
start_sp top = (top + 2 ^ 32 - 8) % 2 ^ 32

module _ {D W : Type 0} ⦃F : Double D⦄ where
  -- The loop that shares the CPU share of the process `cur` out among its threads. `tmp` is what
  -- findMinPass has returned; the loop writes to its pass only what it has.
  unfoldable pub spread_share : ℕ → Ptr → Kernel D W → Outcome (Kernel D W)
  spread_share cur tmp k = do
    t ← deref tmp
    let owner = k.procs cur
    let share = F.div (F.of_int owner.totalshare) (of_uint F owner.cnt_thread)
    let stride = F.div (of_uint F 100) share
    let pass = (k.procs t).pass
    ok (record k {
      procs =
          each
            (λ _ p.
              if p.pid == owner.pid
              then record p { is_mlfq = false; share = share; stride = stride; pass = pass }
              else p)
            k.procs;
    })

  module _ ⦃S : Services W⦄ where
    -- The new thread's place in the group of its creator.
    unfoldable pub join_group : ℕ → ℕ → Ptr → Kernel D W → Outcome (Kernel D W)
    join_group cur np tmp k = do
      let k1 = modify np (λ p. record p { pid = (k.procs cur).pid }) k
      let k2 = modify cur (λ p. record p { cnt_thread = p.cnt_thread + 1 }) k1
      k3 ← (if (k2.procs cur).is_mlfq then ok k2 else spread_share cur tmp k2)
      inherit cur np (
          modify np
            (λ p. record p {
              is_thread = true;
              is_main_thread = false;
              pgdir = (k3.procs cur).pgdir;
              parent = some cur;
              tf = record (k3.procs cur).tf { eax = 0 };
            })
            k3)

    -- The thread's stack and registers: its number, which is stored at `thread`, or nothing where
    -- the stack cannot be written.
    unfoldable pub start_thread : ℕ → ℕ → ℕ → ℕ → Kernel D W → Kernel D W × Option ℕ
    start_thread cur np start_routine arg k =
        let top = stack_top (k.procs cur).usz (k.procs np).tid in
        let sp = start_sp top in
        let (written, w) =
          S.copyout (k.procs np).pgdir sp (255 ∷ 255 ∷ 255 ∷ 255 ∷ word_bytes arg) k.world in
        let k' = record k { world = w } in
        if written
        then (
          modify np
              (λ p. record p {
                tf = record (k.procs cur).tf { esp = sp; eip = start_routine };
                usz = top;
                sz = (k.procs cur).sz;
                state = runnable;
              })
              k',
          some (k.procs np).tid,
        )
        else (
          record (modify np (λ p. record p { state = unused; kstack = none }) k') {
            nexttid = k.nexttid -ℤ pos 1;
          },
          none,
        )

    -- `none` stands for the result -1.
    unfoldable pub thread_create : ℕ → ℕ → ℕ → Kernel D W → Outcome (Kernel D W × Option ℕ)
    thread_create cur start_routine arg k =
        let tmp = find_min_pass k in
        if (k.procs cur).is_thread
        then ok (k, none)
        else (let (np, k1) = allocproc k in
            elim np [
              | none ↦ ok (k1, none)
              | some i ↦ do
                k2 ← join_group cur i tmp k1
                ok (start_thread cur i start_routine arg k2)
            ])

module _ {D W : Type 0} ⦃F : Double D⦄ where
  spread_share-null : (cur : ℕ) (k : Kernel D W) → spread_share cur none k ≡ fault
  unfolding spread_share
  spread_share-null cur k = refl

  still_stride :
      (cur np : ℕ) (k : Kernel D W)
      → np ≢ cur
      → (k.procs cur).is_mlfq ≡ false
      → ((modify cur
            (λ p. record p { cnt_thread = p.cnt_thread + 1 })
            (modify np (λ p. record p { pid = (k.procs cur).pid }) k)).procs
          cur).is_mlfq
        ≡ false
  still_stride cur np k n h = ground arith

module _ {D W : Type 0} ⦃F : Double D⦄ ⦃S : Services W⦄ where
  join_group-null :
      (cur np : ℕ) (k : Kernel D W)
      → np ≢ cur
      → (k.procs cur).is_mlfq ≡ false
      → join_group cur np none k ≡ fault
  unfolding join_group
  join_group-null cur np k n h = rw (still_stride cur np k n h, spread_share-null) refl

  -- A process of the stride scheduler that creates a thread while findMinPass returns null, and for
  -- which allocproc finds a slot, follows the null pointer.
  pub thread_create-null :
      (cur start_routine arg : ℕ) (k k1 : Kernel D W) (np : ℕ)
      → (k.procs cur).is_thread ≡ false
      → (k.procs cur).is_mlfq ≡ false
      → (k.procs cur).state ≢ unused
      → find_min_pass k ≡ none
      → allocproc k ≡ (some np, k1)
      → thread_create cur start_routine arg k ≡ fault
  unfolding thread_create
  thread_create-null cur start_routine arg k k1 np whole stride used null made =
      elim (allocproc_lem k) [
        | inl (full, _) ↦ absurd (cc (sym full ∙ made))
        | inr (inl (none_is, _, _)) ↦ absurd (cc (sym none_is ∙ ap (λ r. r.0) made))
        | inr (inr (i, is, new)) ↦
            let same : i ≡ np = cc in
            let apart : np ≢ cur = λ q. used (rw (← q, ← same) new.was_free) in
            let keeps = new.others cur (λ q. apart (sym same ∙ sym q)) in
            let flag = ap (λ (p : Proc D). p.is_mlfq) keeps ∙ stride in
            rw
              (
                whole,
                ap (λ r. r.0) made,
                thread_create,
                null,
                join_group-null cur np (allocproc k).1 apart flag,
              )
              refl
      ]
