-- ===== src/Tests/Trunc.antt =====
-- itrunc of a file with a block of its own, a table, and a block behind the table.
use os_project.Prelude.{ℕ, ◌≡◌, ◌<◌, refl, sym, ap, true, update, arith, [], ◌∷◌, All}
use mathlib.Core.Path.{subst}
use os_project.Prelude.Outcome.{ok}
use os_project.Fs.{Volume, in_use}
use os_project.Fs.Bits.{has_bit, word, set_word}
use os_project.Fs.Free.{IsVolume}
use os_project.Fs.Bmap.{Inode}
use os_project.Fs.Inode.{iupdate}
use os_project.Fs.Trunc.{itrunc}
use os_project.Fs.Trunc.Freeing.{entries, Agree, IsContents}
use os_project.Fs.Trunc.Slots.{slot_blocks}
use os_project.Fs.Trunc.Empty.{
  table_blocks, double_blocks, triple_blocks, direct_blocks, file_blocks,
}
use os_project.Fs.Trunc.Distinct.{Distinct, AllFreed, itrunc_lem}
use os_project.Tests.Fs.{small_volume}
use os_project.Tests.Bmap.{empty_file}

-- The blocks 0, 1, 2, 4, 5 and 6 are in use, and entry 3 of the table in block 5 is block 6.
abbrev filled : Volume
filled = record small_volume {
  blocks = update (update small_volume.blocks 2 (update (λ i. 0) 0 119)) 5 (set_word (λ i. 0) 3 6);
}

abbrev three_blocks : Inode
three_blocks = record empty_file { addrs = update (update (λ i. 0) 0 4) 10 5 }

filled-IsVolume : IsVolume filled
unfolding in_use has_bit word
filled-IsVolume = record {
  small = omega arith;
  super_is = refl;
  boot = (omega arith, refl);
  super = (omega arith, refl);
  behind = omega arith;
  maps = λ c at. maps c (omega (arith, at.0, at.1));
}
  where
    maps : (c : ℕ) → c ≡ 2 → (c < 8) × (in_use filled c ≡ true)
    maps c e = (omega arith, ap (in_use filled) e)

has_three : file_blocks three_blocks filled ≡ 4 ∷ 6 ∷ 5 ∷ []
unfolding file_blocks direct_blocks slot_blocks table_blocks double_blocks triple_blocks entries
    word set_word
has_three = refl

contents : (b : ℕ) → 2 < b → b < 8 → IsContents filled b
contents b lo hi = record { high = omega arith; inside = hi; away = λ at. omega (arith, at.1) }

three-IsContents : All (IsContents filled) (file_blocks three_blocks filled)
three-IsContents = subst (All (IsContents filled)) (sym has_three) (
  contents 4 (omega arith) (omega arith),
  (contents 6 (omega arith) (omega arith), (contents 5 (omega arith) (omega arith), tt)),
)

three-Distinct : Distinct (file_blocks three_blocks filled)
three-Distinct =
    subst Distinct (sym has_three)
      (((λ e. omega arith), ((λ e. omega arith), tt)), (((λ e. omega arith), tt), (tt, tt)))

three_used : All (λ b. in_use filled b ≡ true) (file_blocks three_blocks filled)
unfolding in_use has_bit
three_used = subst (All (λ b. in_use filled b ≡ true)) (sym has_three) (refl, (refl, (refl, tt)))

itrunc_lem_example :
    (ip' : Inode) × (w : Volume) × (itrunc three_blocks filled ≡ ok (ip', iupdate ip' w))
    × (ip'.size ≡ 0)
    × ((j : ℕ) → j < 13 → ip'.addrs j ≡ 0)
    × AllFreed (file_blocks three_blocks filled) filled w
    × Agree filled w
itrunc_lem_example =
    itrunc_lem three_blocks filled filled-IsVolume three-IsContents three-Distinct three_used
