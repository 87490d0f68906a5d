-- ===== src/Fs/Inode.antt =====
-- The inodes on the disk: iupdate, and the reading of an inode by ilock.
pub mod Words
pub mod Update
use os_project.Prelude.{
  ℕ, zero, suc, ◌+◌, ◌*◌, ◌/◌, ◌%◌, ◌<◌, Bool, true, false, not, ltb, ◌==◌, if◌then◌else◌, List, [],
  ◌∷◌,
}
use os_project.Prelude.Outcome.{Outcome, ok, panic}
use os_project.Fs.{Volume, put_block}
use os_project.Fs.Bits.{word, set_word}
use os_project.Fs.Bmap.{Inode}

-- IPB, and the words of a struct dinode
abbrev pub inodes_per_block : ℕ
inodes_per_block = 8

abbrev pub dinode_words : ℕ
dinode_words = 16

-- IBLOCK
abbrev pub inode_block : ℕ → Volume → ℕ
inode_block i v = i / inodes_per_block + v.sb.inodestart

-- The first word of the dinode in its block.
abbrev pub dinode_at : ℕ → ℕ
dinode_at i = dinode_words * (i % inodes_per_block)

unfoldable pub words_from : ℕ → ℕ → (ℕ → ℕ) → List ℕ
words_from zero i f = []
words_from (suc n) i f = f i ∷ words_from n (i + 1) f

unfoldable pub set_words : List ℕ → ℕ → (ℕ → ℕ) → ℕ → ℕ
set_words [] i w = w
set_words (x ∷ xs) i w = set_words xs (i + 1) (set_word w i x)

-- struct dinode in words: two shorts make one, and the low one comes first.
abbrev pub dinode_of : Inode → List ℕ
dinode_of ip =
    (ip.type + 65536 * ip.major)
    ∷ (ip.minor + 65536 * ip.nlink)
    ∷ ip.size
    ∷ words_from 13 0 ip.addrs

unfoldable pub iupdate : Inode → Volume → Volume
iupdate ip v =
    let b = inode_block ip.inum v in
    put_block b (set_words (dinode_of ip) (dinode_at ip.inum) (v.blocks b)) v

-- The fields that ilock copies from the dinode.
unfoldable pub load_inode : Inode → Volume → Inode
load_inode ip v =
    let w = v.blocks (inode_block ip.inum v) in
    let at = dinode_at ip.inum in
    record ip {
      type = word w at % 65536;
      major = word w at / 65536;
      minor = word w (at + 1) % 65536;
      nlink = word w (at + 1) / 65536;
      size = word w (at + 2);
      addrs = λ i. word w (at + 3 + i);
      valid = true;
    }

-- ilock of an inode whose lock is free
unfoldable pub ilock : Inode → Volume → Outcome Inode
ilock ip v =
    if ltb ip.ref 1
    then panic
    else if ip.valid
    then ok ip
    else if (load_inode ip v).type == 0
    then panic
    else ok (load_inode ip v)
