-- ===== src/Proc/Services.antt =====
-- What proc.c calls of the other components, as an interface over their state `W`: the page
-- allocator (kalloc.c), the page tables (vm.c), the open files (file.c), the inodes (fs.c) and the
-- log (log.c). A call that may panic or fault returns an `Outcome`.
use os_project.Prelude.{ℕ, Bool, Option, none, some, List, [], ◌∷◌, map}
use os_project.Prelude.Outcome.{Outcome, ok, ◌>>=◌}

pub record Services (W : Type 0) : Type 0 where
  -- a page, or null
  pub kalloc : W → Option ℕ × W
  pub kfree : Option ℕ → W → Outcome W
  -- a copy of a page table and of the memory under a size, or null
  pub copyuvm : Option ℕ → ℕ → W → Option ℕ × W
  pub freevm : Option ℕ → W → Outcome W
  -- the new size, or 0
  pub allocuvm : Option ℕ → ℕ → ℕ → W → Outcome (ℕ × W)
  pub deallocuvm : Option ℕ → ℕ → ℕ → W → Outcome (ℕ × W)
  -- whether the bytes could be written at the address
  pub copyout : Option ℕ → ℕ → List ℕ → W → Bool × W
  pub filedup : ℕ → W → Outcome W
  pub fileclose : ℕ → W → Outcome W
  pub idup : ℕ → W → W
  pub iput : ℕ → W → Outcome W
  pub begin_op : W → W
  pub end_op : W → Outcome W

module _ {W : Type 0} ⦃S : Services W⦄ where
  -- for(fd = 0; fd < NOFILE; fd++) if(ofile[fd]) fileclose(ofile[fd]), over the rest of the table
  unfoldable pub close_files : List (Option ℕ) → W → Outcome W
  close_files [] w = ok w
  close_files (none ∷ fs) w = close_files fs w
  close_files (some f ∷ fs) w = S.fileclose f w >>= close_files fs

  -- The loop that copies the open files of a process into the table of a new one: an empty entry
  -- leaves the new one's as it was.
  unfoldable pub dup_files : List (Option ℕ) → List (Option ℕ) → W → Outcome (List (Option ℕ) × W)
  dup_files [] olds w = ok (olds, w)
  dup_files (f ∷ fs) [] w = ok ([], w)
  dup_files (none ∷ fs) (old ∷ olds) w = do (rest, w') ← dup_files fs olds w; ok (old ∷ rest, w')
  dup_files (some f ∷ fs) (old ∷ olds) w = do
    w' ← S.filedup f w
    (rest, w'') ← dup_files fs olds w'
    ok (some f ∷ rest, w'')

-- The table with each entry null.
abbrev pub no_files : List (Option ℕ) → List (Option ℕ)
no_files = map (λ _. none)
