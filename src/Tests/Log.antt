-- ===== src/Tests/Log.antt =====
-- Runs of the log with one block logged, and its theorems on them.
use os_project.Prelude.{ℕ, ◌≡◌, ◌⊎◌, inr, refl, false, [], ◌∷◌, none, some, update, arith}
use os_project.Prelude.Outcome.{ok}
use os_project.Log.Power.{Block, Disk, Machine, on, off, bread, bwrite}
use os_project.Log.{
  Log, read_words, put_words, write_head, install_from, install_trans, write_log_from, write_log,
  absorb, log_write, commit, commit_blocks, recover_from_log,
}
use os_project.Log.Header.{listed, head_block, listed-head_block}
use os_project.Log.Holds.{IsHome, Holds, Ends}
use os_project.Log.Commit.{Ready, Committed, OldOrNew, commit-Ends}
use os_project.Log.Recover.{boot, restart, recover-Ends, recover-on, commit_atomic}
use os_project.Log.Dirty.{log_write-Ready}

-- A disk of zeros, its log in the blocks 2 to 31 as mkfs lays it out, and one call in progress.
abbrev zeros : Disk
zeros = λ b i. 0

abbrev idle : Log
idle = record { start = 2; size = 30; outstanding = 1; committing = false; blocks = [] }

abbrev fresh : ℕ → Machine
fresh n = record { disk = zeros; cache = λ b. none; writes = n }

abbrev sevens : Block
sevens = λ i. 7

abbrev logged : Log
logged = record idle { blocks = 32 ∷ [] }

abbrev dirty : ℕ → Machine
dirty n = record (fresh n) { cache = update (λ b. none) 32 (some sevens) }

abbrev changed : Disk
changed = update zeros 32 sevens

fresh-Ready : (n : ℕ) → Ready idle zeros (fresh n)
unfolding read_words bread
fresh-Ready n = record {
  head = refl;
  fits = omega arith;
  listable = omega arith;
  homes = tt;
  view = λ b h. refl;
  clean_rest = λ b h free. refl;
  clean = λ b lo hi. refl;
}

logs_32 : (n : ℕ) → log_write 32 sevens idle (fresh n) ≡ ok (logged, dirty n)
unfolding log_write absorb
logs_32 n = refl

dirty-Ready : (n : ℕ) → Ready logged changed (dirty n)
dirty-Ready n =
    log_write-Ready 32 sevens idle logged zeros (fresh n) (dirty n) (inr (omega arith))
      (fresh-Ready n) (logs_32 n)

commit-Ends_example :
    Ends
      (λ (r : Log × Machine). Committed 2 30 changed r.0 r.1)
      (OldOrNew 2 30 changed zeros)
      (commit logged (dirty 3))
commit-Ends_example = commit-Ends logged changed (dirty 3) (dirty-Ready 3)

-- The disk when the power fails after two writes: the block in the log, and the header.
abbrev cut_disk : Disk
cut_disk = update (update zeros 3 sevens) 2 (head_block (32 ∷ []) (λ i. 0))

commit_is_cut : commit logged (dirty 2) ≡ off cut_disk
unfolding commit commit_blocks write_log write_log_from write_head install_trans install_from bwrite
    bread put_words
commit_is_cut = refl

commit_atomic_example :
    ((b : ℕ) → IsHome 2 30 b → restart logged cut_disk (1 ∷ 0 ∷ 30 ∷ []) b ≡ zeros b)
    ⊎ ((b : ℕ) → IsHome 2 30 b → restart logged cut_disk (1 ∷ 0 ∷ 30 ∷ []) b ≡ changed b)
commit_atomic_example =
    commit_atomic logged changed (dirty 2) cut_disk (1 ∷ 0 ∷ []) 30 (dirty-Ready 2) commit_is_cut
      (omega arith)

zeros-Holds : Holds 2 30 zeros zeros
unfolding read_words
zeros-Holds = record {
  blocks = [];
  head = refl;
  short = omega arith;
  listable = omega arith;
  homes = tt;
  logged = tt;
  rest = λ b h free. refl;
}

cut-Holds : Holds 2 30 changed cut_disk
unfolding read_words put_words
cut-Holds = record {
  blocks = 32 ∷ [];
  head = refl;
  short = omega arith;
  listable = omega arith;
  homes = (inr (omega arith), tt);
  logged = (refl, tt);
  rest = λ b h free. ground arith;
}

recover-Ends_example :
    Ends
      (λ (r : Log × Machine). Committed 2 30 changed r.0 r.1)
      (Holds 2 30 changed)
      (recover_from_log logged (boot cut_disk 1))
recover-Ends_example = recover-Ends logged changed cut_disk 1 cut-Holds

recover-on_example :
    (l' : Log) × (m' : Machine) × (recover_from_log logged (boot cut_disk 30) ≡ on (l', m'))
    × Committed 2 30 changed l' m'
recover-on_example = recover-on logged changed cut_disk 30 cut-Holds (omega arith)

listed-head_block_example : listed (head_block (5 ∷ 9 ∷ []) sevens) ≡ 5 ∷ 9 ∷ []
listed-head_block_example = listed-head_block (5 ∷ 9 ∷ []) sevens

abbrev no_call : Log
no_call = record idle { outstanding = 0 }
