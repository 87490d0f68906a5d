-- ===== src/Tests/Bmap.antt =====
-- A file without blocks on a small volume: bmap of a block behind the first table.
use os_project.Prelude.{ℕ, ◌≡◌, refl, true, Option, some, none}
use os_project.Prelude.Outcome.{Outcome, ok, panic, fault}
use os_project.Fs.{Volume, in_use, balloc, balloc_from, bzero, change_map}
use os_project.Fs.Bits.{has_bit, set_bit, word, set_word}
use os_project.Fs.Bmap.{Inode, slot_block, entry_block, bmap_indirect, bmap}
use os_project.Tests.Fs.{small_volume}

abbrev pub empty_file : Inode
empty_file = record {
  dev = 1;
  inum = 2;
  ref = 1;
  valid = true;
  type = 2;
  major = 0;
  minor = 0;
  nlink = 1;
  size = 0;
  addrs = λ i. 0;
}

abbrev block_number : Outcome (Inode × Volume × ℕ) → Option ℕ
block_number (ok (ip, v, b)) = some b
block_number panic = none
block_number fault = none

-- Block 3 is the table, and block 5 is the block of the file.
maps_to_5 : block_number (bmap 11 empty_file small_volume) ≡ some 5
unfolding bmap bmap_indirect slot_block entry_block balloc balloc_from bzero change_map in_use
    has_bit set_bit word set_word
maps_to_5 = refl
