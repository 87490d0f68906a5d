-- ===== src/Proc/Fork/Child.antt =====
-- What fork makes: a runnable copy of the caller under a fresh pid.
use os_project.Prelude.{ℕ, ◌+◌, ◌≡◌, ◌≢◌, true, Option, some, List}
use os_project.Prelude.Int.{ℤ, pos}
use os_project.Prelude.Outcome.{ok}
use os_project.Double.{Double}
use os_project.Proc.{unused, runnable, Kernel}
use os_project.Proc.Services.{Services, dup_files}
use os_project.Proc.Alloc.{allocproc}
use os_project.Proc.Fork.{failed}

module _ {D W : Type 0} ⦃S : Services W⦄ where
  -- Slot `np` has the page directory that copyuvm made of that of slot `cur`, and after that
  -- its open files and its directory, each duplicated; the world is the one that these calls leave.
  pub record HasCopies (cur np : ℕ) (k k' : Kernel D W) : Type 0 where
    pub pages : ℕ
    pub files : List (Option ℕ)
    pub copied_world : W
    pub files_world : W
    pub dir : ℕ
    pub copied : S.copyuvm (k.procs cur).pgdir (k.procs cur).sz k.world ≡ (some pages, copied_world)
    pub pgdir : (k'.procs np).pgdir ≡ some pages
    pub duplicated :
        dup_files (k.procs cur).ofile (k.procs np).ofile copied_world ≡ ok (files, files_world)
    pub ofile : (k'.procs np).ofile ≡ files
    pub has_dir : (k.procs cur).cwd ≡ some dir
    pub cwd : (k'.procs np).cwd ≡ some dir
    pub world : k'.world ≡ S.idup dir files_world

  -- Slot `np` of `k'` is a child of the process in slot `cur`, with its memory, files, registers and name.
  pub record IsChild (cur np : ℕ) (k k' : Kernel D W) : Type 0 where
    pub ready : (k'.procs np).state ≡ runnable
    pub parent : (k'.procs np).parent ≡ some cur
    pub result : (k'.procs np).tf ≡ record (k.procs cur).tf { eax = 0 }
    pub memory : ((k'.procs np).sz ≡ (k.procs cur).sz) × ((k'.procs np).usz ≡ (k.procs cur).usz)
    pub name : (k'.procs np).name ≡ (k.procs cur).name
    pub copies : HasCopies cur np k k'
    pub queued : (k'.procs np).is_mlfq ≡ (k.procs np).is_mlfq
    pub pid : (k'.procs np).pid ≡ (k.procs np).pid
    pub next : k'.nextpid ≡ k.nextpid
    pub others : (j : ℕ) → j ≢ np → k'.procs j ≡ k.procs j

  module _ ⦃F : Double D⦄ where
    -- The same of the state before allocproc.
    pub record IsForked (cur np : ℕ) (k k' : Kernel D W) : Type 0 where
      pub ready : (k'.procs np).state ≡ runnable
      pub parent : (k'.procs np).parent ≡ some cur
      pub result : (k'.procs np).tf ≡ record (k.procs cur).tf { eax = 0 }
      pub memory : ((k'.procs np).sz ≡ (k.procs cur).sz) × ((k'.procs np).usz ≡ (k.procs cur).usz)
      pub name : (k'.procs np).name ≡ (k.procs cur).name
      -- from the state that allocproc leaves
      pub copies : HasCopies cur np (allocproc k).1 k'
      pub queued : (k'.procs np).is_mlfq ≡ true
      pub pid : (k'.procs np).pid ≡ k.nextpid
      pub next : k'.nextpid ≡ k.nextpid + 1
      pub others : (j : ℕ) → j ≢ np → k'.procs j ≡ k.procs j

    -- What fork has done where it returns `r`: it has failed and left every process in use; or it
    -- has made the child in slot `np`, under a pid that no process in use has.
    pub data Forked (cur : ℕ) (k k' : Kernel D W) (r : ℤ) : Type 0 where
      fork_failed :
          r ≡ failed
          → ((j : ℕ) → (k.procs j).state ≢ unused → k'.procs j ≡ k.procs j)
          → Forked cur k k' r
      child_made :
          (np : ℕ)
          → (k.procs np).state ≡ unused
          → r ≡ pos (k'.procs np).pid
          → IsForked cur np k k'
          → ((j : ℕ) → (k.procs j).state ≢ unused → (k.procs j).pid ≢ (k'.procs np).pid)
          → Forked cur k k' r
