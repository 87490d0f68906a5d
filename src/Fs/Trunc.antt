-- ===== src/Fs/Trunc.antt =====
-- itrunc of fs.c: the blocks of a file are freed, through its three levels of tables.
pub mod Freeing
pub mod Slots
pub mod Empty
pub mod Distinct
use os_project.Prelude.{ℕ, zero, suc, ◌+◌, Bool, true, false, ◌==◌, update}
use os_project.Prelude.Outcome.{Outcome, ok, panic, fault, ◌>>=◌, for_each}
use os_project.Fs.{Volume, bfree}
use os_project.Fs.Bits.{word}
use os_project.Fs.Bmap.{Inode, ndirect, nindirect}
use os_project.Fs.Inode.{iupdate}

-- One round of a loop over a table: the blocks behind the entry are freed by `below`, then its block.
unfoldable pub free_entry : (ℕ → Volume → Outcome Volume) → ℕ → ℕ → Volume → Outcome Volume
free_entry below table j v = elim (word (v.blocks table) j == 0) [
  | true ↦ ok v
  | false ↦ below (word (v.blocks table) j) v >>= bfree (word (v.blocks table) j)
]

-- The loops over the entries of a table with blocks, with tables, and with tables of tables.
unfoldable pub free_table : ℕ → Volume → Outcome Volume
free_table table v = for_each (free_entry (λ _. ok) table) nindirect 0 v

unfoldable pub free_double : ℕ → Volume → Outcome Volume
free_double table v = for_each (free_entry free_table table) nindirect 0 v

unfoldable pub free_triple : ℕ → Volume → Outcome Volume
free_triple table v = for_each (free_entry free_double table) nindirect 0 v

-- if(ip->addrs[i]) { ...; bfree(ip->dev, ip->addrs[i]); ip->addrs[i] = 0; }
unfoldable pub free_slot :
    (ℕ → Volume → Outcome Volume) → ℕ → Inode × Volume → Outcome (Inode × Volume)
free_slot below i (ip, v) = elim (ip.addrs i == 0) [
  | true ↦ ok (ip, v)
  | false ↦ do
    v1 ← below (ip.addrs i) v
    v2 ← bfree (ip.addrs i) v1
    ok (record ip { addrs = update ip.addrs i 0 }, v2)
]

unfoldable pub itrunc : Inode → Volume → Outcome (Inode × Volume)
itrunc ip v = do
  r0 ← for_each (free_slot (λ _. ok)) ndirect 0 (ip, v)
  r1 ← free_slot free_table ndirect r0
  r2 ← free_slot free_double (ndirect + 1) r1
  (ip3, v3) ← free_slot free_triple (ndirect + 2) r2
  let ip' = record ip3 { size = 0 }
  ok (ip', iupdate ip' v3)
