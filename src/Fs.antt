-- ===== src/Fs.antt =====
-- xv6-public/fs.c: the blocks of a volume, and the map of those in use. A volume is what its blocks hold
-- as the buffer cache shows them: log_write of a changed buffer, in a transaction, is `put_block`.
pub mod Bits
pub mod Free
pub mod Alloc
pub mod Bmap
pub mod Names
pub mod Inode
pub mod Icache
pub mod Trunc
pub mod File
pub mod Dir
use os_project.Prelude.{
  ℕ, zero, suc, ◌+◌, ◌*◌, ◌/◌, ◌%◌, Bool, true, false, update, ltb, if◌then◌else◌,
}
use os_project.Prelude.Outcome.{Outcome, ok, panic}
use os_project.Fs.Bits.{has_bit, set_bit, clear_bit, word}

-- BSIZE, and BPB, the bits of a block
abbrev pub block_size : ℕ
block_size = 512

abbrev pub bits_per_block : ℕ
bits_per_block = 4096

-- struct superblock
pub record SuperBlock : Type 0 where
  pub size : ℕ
  pub nblocks : ℕ
  pub ninodes : ℕ
  pub nlog : ℕ
  pub logstart : ℕ
  pub inodestart : ℕ
  pub bmapstart : ℕ

-- The bytes of each block, the global copy of the superblock, and log.outstanding, the count of the calls
-- in a transaction, which stays the same while a call of this model runs.
pub record Volume : Type 0 where
  pub blocks : ℕ → ℕ → ℕ
  pub sb : SuperBlock
  pub outstanding : ℕ

abbrev pub put_block : ℕ → (ℕ → ℕ) → Volume → Volume
put_block b w v = record v { blocks = update v.blocks b w }

-- The superblock in the bytes of a block.
abbrev pub super_of : (ℕ → ℕ) → SuperBlock
super_of w = record {
  size = word w 0;
  nblocks = word w 1;
  ninodes = word w 2;
  nlog = word w 3;
  logstart = word w 4;
  inodestart = word w 5;
  bmapstart = word w 6;
}

-- readsb into the global superblock
unfoldable pub readsb : Volume → Volume
readsb v = record v { sb = super_of (v.blocks 1) }

unfoldable pub bzero : ℕ → Volume → Volume
bzero b v = put_block b (λ _. 0) v

-- BBLOCK
abbrev pub map_block : ℕ → Volume → ℕ
map_block b v = b / bits_per_block + v.sb.bmapstart

-- The test of the bit for block `b`.
unfoldable pub in_use : Volume → ℕ → Bool
in_use v b = has_bit (v.blocks (map_block b v) (b % bits_per_block / 8)) (b % bits_per_block % 8)

-- The change of the byte with that bit.
unfoldable pub change_map : (ℕ → ℕ → ℕ) → ℕ → Volume → Volume
change_map change b v =
    let w = v.blocks (map_block b v) in
    let i = b % bits_per_block / 8 in
    put_block (map_block b v) (update w i (change (w i) (b % bits_per_block % 8))) v

-- The two loops of balloc, which visit the blocks b + bi in order, from `b` on, with `left` to come. The
-- log_write of the map's block panics outside a transaction; no other log_write of fs.c is reached
-- there, since of the calls outside one only readi writes, through balloc.
unfoldable pub balloc_from : ℕ → ℕ → Volume → Outcome (Volume × ℕ)
balloc_from zero b v = panic
balloc_from (suc left) b v = elim (in_use v b) [
  | true ↦ balloc_from left (b + 1) v
  | false ↦ if ltb v.outstanding 1 then panic else ok (bzero b (change_map set_bit b v), b)
]

unfoldable pub balloc : Volume → Outcome (Volume × ℕ)
balloc v = balloc_from v.sb.size 0 v

unfoldable pub bfree : ℕ → Volume → Outcome Volume
bfree b v =
    let v' = readsb v in
    elim (in_use v' b) [ true ↦ ok (change_map clear_bit b v') | false ↦ panic ]
