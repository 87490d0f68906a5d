-- ===== src/Proc/Fork.antt =====
-- fork of xv6-public/proc.c. `cur` is the slot of myproc().
pub mod Child
use os_project.Prelude.{
  ℕ, ◌+◌, ◌-◌, ◌%◌, ◌^◌, ◌≡◌, Bool, true, false, not, ◌&&◌, Option, none, some, List, ltb, ◌==◌,
  if◌then◌else◌,
}
use os_project.Prelude.Int.{ℤ, pos, negsuc}
use os_project.Prelude.Outcome.{Outcome, ok, ◌>>=◌, ◌>>◌, deref}
use os_project.Double.{Double}
use os_project.Proc.{nproc, unused, runnable, Ptr, TrapFrame, Proc, Kernel, update, modify}
use os_project.Proc.Table.{each}
use os_project.Proc.Services.{Services, dup_files}
use os_project.Proc.Alloc.{allocproc}

abbrev pub failed : ℤ
failed = negsuc 0

module _ {D W : Type 0} ⦃S : Services W⦄ where
  -- The files, the directory and the name that a new process or thread takes from its creator.
  unfoldable pub inherit : ℕ → ℕ → Kernel D W → Outcome (Kernel D W)
  inherit cur np k = do
    (files, w) ← dup_files (k.procs cur).ofile (k.procs np).ofile k.world
    dir ← deref (k.procs cur).cwd
    let parent = k.procs cur
    ok (
        modify np (λ p. record p { ofile = files; cwd = some dir; name = parent.name })
          (record k { world = S.idup dir w }))

  -- the failure of copyuvm: the slot and its stack are given back
  unfoldable pub undo_alloc : ℕ → Kernel D W → Outcome (Kernel D W)
  undo_alloc np k = do
    w ← S.kfree (k.procs np).kstack k.world
    ok (
        modify np (λ p. record p { kstack = none; state = unused; pgdir = none })
          (record k { world = w }))

  -- the child's memory, parent and registers
  unfoldable pub copy_child : ℕ → ℕ → Option ℕ → Kernel D W → Kernel D W
  copy_child cur np pgdir k =
      let c = k.procs cur in
      modify np
        (λ p. record p {
          pgdir = pgdir;
          sz = c.sz;
          usz = c.usz;
          parent = some cur;
          tf = record c.tf { eax = 0 };
        })
        k

  module _ ⦃F : Double D⦄ where
    -- The body of fork for the child's slot.
    unfoldable pub fork_into : ℕ → ℕ → Kernel D W → Outcome (Kernel D W × ℤ)
    fork_into cur np k =
        let (pgdir, w) = S.copyuvm (k.procs cur).pgdir (k.procs cur).sz k.world in
        let k' = record k { world = w } in
        elim pgdir [
          | none ↦ (do k'' ← undo_alloc np k'; ok (k'', failed))
          | some d ↦ (do
            k'' ← inherit cur np (copy_child cur np (some d) k')
            ok (modify np (λ p. record p { state = runnable }) k'', pos (k''.procs np).pid))
        ]

    unfoldable pub fork : ℕ → Kernel D W → Outcome (Kernel D W × ℤ)
    fork cur k =
        let (np, k') = allocproc k in
        elim np [ none ↦ ok (k', failed) | some i ↦ fork_into cur i k' ]
