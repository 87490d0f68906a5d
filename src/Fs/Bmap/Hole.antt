-- ===== src/Fs/Bmap/Hole.antt =====
-- bmap outside a transaction, where the file has no block.
use os_project.Prelude.{
  ℕ, zero, suc, ◌+◌, ◌<◌, ◌≡◌, ◌≢◌, inl, inr, ◌∙◌, sym, refl, true, false, ltb, ◌==◌, arith,
  Bool-cases, List, [], ◌∷◌,
}
use os_project.Prelude.Outcome.{ok, panic}
use os_project.Fs.{Volume, in_use, balloc_from, balloc}
use os_project.Fs.Bits.{word}
use os_project.Fs.Bmap.{Inode, slot_block, entry_block, bmap, max_file}
use os_project.Fs.Bmap.Levels.{slot_of, entries_of, slot_walk, bmap-slot_walk}
use os_project.Fs.Bmap.Walk.{walk, address, address-nil, address-cons}
use os_project.Fs.Bmap.Address.{address_of}

balloc_from-idle : (left b : ℕ) (v : Volume) → v.outstanding ≡ 0 → balloc_from left b v ≡ panic
unfolding balloc_from
balloc_from-idle zero b v e = refl
balloc_from-idle (suc left) b v e = elim (Bool-cases (in_use v b)) [
  | inl used ↦ rw (used, balloc_from) (balloc_from-idle left (b + 1) v e)
  | inr free ↦ let idle : ltb v.outstanding 1 ≡ true = ground arith in rw (free, idle, balloc_from)
]

-- No call in a transaction: balloc panics.
balloc-idle : (v : Volume) → v.outstanding ≡ 0 → balloc v ≡ panic
unfolding balloc
balloc-idle v e = balloc_from-idle v.sb.size 0 v e

entry_block-idle :
    (a i : ℕ) (v : Volume) → v.outstanding ≡ 0 → word (v.blocks a) i ≡ 0 → entry_block a i v ≡ panic
unfolding entry_block
entry_block-idle a i v e z =
    let none_yet : (word (v.blocks a) i == 0) ≡ true = ground arith in
    rw (none_yet, balloc-idle v e, entry_block) refl

entry_block-there :
    (a i : ℕ) (v : Volume)
    → word (v.blocks a) i ≢ 0
    → entry_block a i v ≡ ok (v, word (v.blocks a) i)
unfolding entry_block
entry_block-there a i v n =
    let there : (word (v.blocks a) i == 0) ≡ false = ground arith in rw (there, entry_block) refl

walk-idle :
    (a : ℕ) (is : List ℕ) (v : Volume)
    → v.outstanding ≡ 0
    → a ≢ 0
    → address v a is ≡ 0
    → walk a is v ≡ panic
unfolding walk
walk-idle a [] v e n z = absurd (n (sym (address-nil v a) ∙ z))
walk-idle a (i ∷ is) v e n z = elim (Bool-cases (word (v.blocks a) i == 0)) [
  | inl none_yet ↦ rw (entry_block-idle a i v e (ground arith)) refl
  | inr there ↦
      let m : word (v.blocks a) i ≢ 0 = ground arith in
      rw (entry_block-there a i v m)
        (walk-idle (word (v.blocks a) i) is v e m (sym (address-cons v a i is n) ∙ z))
]

slot_walk-idle :
    (s : ℕ) (is : List ℕ) (ip : Inode) (v : Volume)
    → v.outstanding ≡ 0
    → address v (ip.addrs s) is ≡ 0
    → slot_walk s is ip v ≡ panic
unfolding slot_walk slot_block
slot_walk-idle s is ip v e z = elim (Bool-cases (ip.addrs s == 0)) [
  | inl none_yet ↦ rw (none_yet, balloc-idle v e, slot_block) refl
  | inr there ↦ rw (there, slot_block) (rw (walk-idle (ip.addrs s) is v e (ground arith) z) refl)
]

-- With no call in a transaction bmap panics where the file has no block for the number.
pub bmap-hole :
    (bn : ℕ) (ip : Inode) (v : Volume)
    → bn < max_file
    → v.outstanding ≡ 0
    → address_of ip v bn ≡ 0
    → bmap bn ip v ≡ panic
bmap-hole bn ip v l e z =
    bmap-slot_walk bn ip v l ∙ slot_walk-idle (slot_of bn) (entries_of bn) ip v e z
