-- ===== src/Tests/Bcache.antt =====
-- The cache that binit makes, and one with a locked buffer of block 3.
use os_project.Prelude.{
  ℕ, ◌+◌, ◌<◌, ◌≡◌, ◌⊎◌, inr, ◌∙◌, sym, ap, refl, true, false, for_range, arith, Option, none, some,
}
use mathlib.Core.Path.{subst}
use os_project.Prelude.Outcome.{Outcome, ok, panic, fault}
use os_project.Log.Power.{Machine, on}
use os_project.Log.Power
use os_project.Bcache.{
  Buf, Bcache, MemDisk, Locking, locked, asleep, nbuf, blank, change, holds_block, is_unused,
  acquire, binit, bget, bread, bwrite, brelse, find_buf,
}
use os_project.Bcache.Scan.{IsCache}
use os_project.Bcache.Get.{change-IsCache, Took, bget_lem}
use os_project.Bcache.Release.{below, binit-blank, binit-IsCache, Released, brelse_lem}
use os_project.Bcache.Shows.{Fits, Shows, Shows-quiet}
use os_project.Bcache.Read.{HasRead, bread_lem}
use os_project.Bcache.Write.{HasWritten, written, bwrite_lem}

abbrev disk : MemDisk
disk = record { blocks = λ b i. b + i; size = 40 }

abbrev machine : Machine
machine = record { disk = λ b i. b + i; cache = λ n. none; writes = 5 }

blank-Shows : Shows binit disk machine
blank-Shows = record {
  disk = refl;
  fits = λ b l. subst (Fits machine disk) (sym (binit-blank b)) blank-Fits;
  rest = λ n h. refl;
}
  where
    blank-Fits : Fits machine disk blank
    blank-Fits = record {
      entry = λ e. absurd (cc e);
      filled = λ e. absurd (cc e);
      clean = λ e v. absurd (cc v);
    }

abbrev hold : Buf → Buf
hold x = record x {
  dev = 1;
  blockno = 3;
  locked = true;
  refcnt = 1;
  valid = true;
  bytes = λ i. 3 + i;
}

abbrev held : Bcache
held = change 7 hold binit

held-IsCache : IsCache held (below nbuf)
held-IsCache =
    change-IsCache binit (below nbuf) 7 hold binit-IsCache
      (inr (λ a l e k. absurd (cc (sym (ap (λ (x : Buf). x.dev) (binit-blank a)) ∙ e))))

held-Shows : Shows held disk machine
held-Shows =
    Shows-quiet binit disk machine 7 hold
      (inr (
        ap (λ (x : Buf). x.dirty) (binit-blank 7),
        ap (λ (x : Buf). x.dirty) (binit-blank 7),
        λ v e. refl,
      ))
      blank-Shows

-- The first block of an empty cache gets the buffer 0, the last of the list.
abbrev buffer_of : Outcome Locking → Option ℕ
buffer_of (ok (locked b c)) = some b
buffer_of (ok (asleep b c)) = none
buffer_of panic = none
buffer_of fault = none

bget_lem_example :
    ((bget 1 3 binit ≡ panic)
      × ((a : ℕ) → a < nbuf → (holds_block 1 3 binit a ≡ false) × (is_unused binit a ≡ false)))
    ⊎ ((b : ℕ) × (c' : Bcache) × (bget 1 3 binit ≡ ok (acquire b c'))
        × Took 1 3 binit (below nbuf) b c')
bget_lem_example = bget_lem 1 3 binit (below nbuf) binit-IsCache

brelse_lem_example :
    (((held.buf 7).locked ≡ false) × (brelse 7 held ≡ panic))
    ⊎ (((held.buf 7).locked ≡ true)
        × (c' : Bcache) × (brelse 7 held ≡ ok c')
        × Released held (below nbuf) 7 c')
brelse_lem_example = brelse_lem held (below nbuf) 7 held-IsCache (omega arith)

bread_lem_example :
    ((bread 1 4 (held, disk) ≡ panic)
      × ((a : ℕ) → a < nbuf → (holds_block 1 4 held a ≡ false) × (is_unused held a ≡ false)))
    ⊎ ((b : ℕ) × (c' : Bcache) × (bread 1 4 (held, disk) ≡ ok (asleep b c', disk))
        × Took 1 4 held (below nbuf) b c'
        × ((c'.buf b).locked ≡ true)
        × Shows c' disk machine)
    ⊎ ((b : ℕ) × (c' : Bcache) × (bread 1 4 (held, disk) ≡ ok (locked b c', disk))
        × HasRead 4 (below nbuf) disk machine b c')
bread_lem_example = bread_lem 4 held disk machine (below nbuf) held-IsCache held-Shows (omega arith)

bwrite_lem_example :
    (((held.buf 7).locked ≡ false) × (bwrite 7 (held, disk) ≡ panic))
    ⊎ (((held.buf 7).locked ≡ true)
        × (c' : Bcache) × (d' : MemDisk) × (bwrite 7 (held, disk) ≡ ok (c', d'))
        × (Power.bwrite 3 (held.buf 7).bytes machine ≡ on (written 3 (held.buf 7).bytes 4 machine))
        × HasWritten 3 (below nbuf) (written 3 (held.buf 7).bytes 4 machine) 7 held c' d')
bwrite_lem_example =
    bwrite_lem 3 4 held disk machine (below nbuf) 7 held-IsCache held-Shows (omega arith)
      (refl, refl) (omega arith) refl

-- The first bget takes the last buffer of the list, and a held lock makes the caller sleep.
takes_0 : buffer_of (bget 1 3 binit) ≡ some 0
unfolding bget binit find_buf for_range
takes_0 = refl

waits : buffer_of (bget 1 3 held) ≡ none
unfolding bget binit find_buf for_range
waits = refl
