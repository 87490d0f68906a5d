-- ===== src/Fs/Bmap.antt =====
-- bmap of fs.c: the blocks of a file through three levels of indirection.
pub mod Held
pub mod Entry
pub mod Fill
pub mod Walk
pub mod Levels
pub mod Address
pub mod Hole
use os_project.Prelude.{
  ℕ, zero, suc, ◌+◌, ◌-◌, ◌/◌, ◌%◌, ◌^◌, Bool, true, false, ltb, ◌==◌, if◌then◌else◌, update, List,
  [], ◌∷◌,
}
use os_project.Prelude.Outcome.{Outcome, ok, panic, fault, ◌>>=◌}
use os_project.Fs.{Volume, put_block, balloc}
use os_project.Fs.Bits.{word, set_word}

-- struct inode, less its lock
pub record Inode : Type 0 where
  pub dev : ℕ
  pub inum : ℕ
  pub ref : ℕ
  pub valid : Bool
  pub type : ℕ
  pub major : ℕ
  pub minor : ℕ
  pub nlink : ℕ
  pub size : ℕ
  pub addrs : ℕ → ℕ

-- NDIRECT, NINDIRECT, NDOUBINDIRECT, NTRIPINDIRECT and MAXFILE
abbrev pub ndirect : ℕ
ndirect = 10

abbrev pub nindirect : ℕ
nindirect = 128

abbrev pub ndoubindirect : ℕ
ndoubindirect = 16384

abbrev pub ntripindirect : ℕ
ntripindirect = 2097152

abbrev pub max_file : ℕ
max_file = 2113674

-- if((addr = ip->addrs[i]) == 0) ip->addrs[i] = addr = balloc(ip->dev)
unfoldable pub slot_block : ℕ → Inode → Volume → Outcome (Inode × Volume × ℕ)
slot_block i ip v = elim (ip.addrs i == 0) [
  | true ↦ do (v', addr) ← balloc v; ok (record ip { addrs = update ip.addrs i addr }, v', addr)
  | false ↦ ok (ip, v, ip.addrs i)
]

-- bp = bread(ip->dev, table); if((addr = a[i]) == 0){ a[i] = addr = balloc(ip->dev); log_write(bp); }
unfoldable pub entry_block : ℕ → ℕ → Volume → Outcome (Volume × ℕ)
entry_block table i v = elim (word (v.blocks table) i == 0) [
  | true ↦ do
    (v', addr) ← balloc v
    ok (put_block table (set_word (v'.blocks table) i addr) v', addr)
  | false ↦ ok (v, word (v.blocks table) i)
]

-- The three cases of bmap behind the direct blocks, with the block number that is left.
unfoldable pub bmap_indirect : ℕ → Inode → Volume → Outcome (Inode × Volume × ℕ)
bmap_indirect bn ip v = do
  (ip', v1, addr) ← slot_block ndirect ip v
  (v2, addr') ← entry_block addr bn v1
  ok (ip', v2, addr')

unfoldable pub bmap_double : ℕ → Inode → Volume → Outcome (Inode × Volume × ℕ)
bmap_double bn ip v = do
  (ip', v1, addr) ← slot_block (ndirect + 1) ip v
  (v2, addr2) ← entry_block addr (bn / nindirect) v1
  (v3, addr3) ← entry_block addr2 (bn % nindirect) v2
  ok (ip', v3, addr3)

unfoldable pub bmap_triple : ℕ → Inode → Volume → Outcome (Inode × Volume × ℕ)
bmap_triple bn ip v = do
  (ip', v1, addr) ← slot_block (ndirect + 2) ip v
  (v2, addr2) ← entry_block addr (bn / ndoubindirect) v1
  let tmp = bn % ndoubindirect
  (v3, addr3) ← entry_block addr2 (tmp / nindirect) v2
  (v4, addr4) ← entry_block addr3 (tmp % nindirect) v3
  ok (ip', v4, addr4)

unfoldable pub bmap : ℕ → Inode → Volume → Outcome (Inode × Volume × ℕ)
bmap bn ip v =
    if ltb bn ndirect
    then slot_block bn ip v
    else let bn1 = bn - ndirect in
      if ltb bn1 nindirect
      then bmap_indirect bn1 ip v
      else let bn2 = bn1 - nindirect in
        if ltb bn2 ndoubindirect
        then bmap_double bn2 ip v
        else let bn3 = bn2 - ndoubindirect in
          if ltb bn3 ntripindirect then bmap_triple bn3 ip v else panic
