-- ===== src/Tests/Fs.antt =====
-- A volume of 8 blocks with its map in block 2, and the theorems of the block allocator on it.
use os_project.Prelude.{ℕ, ◌≡◌, ap, ◌<◌, refl, true, update, arith}
use os_project.Fs.{Volume, in_use}
use os_project.Fs.Bits.{has_bit, word}
use os_project.Fs.Free.{IsVolume}

-- The superblock in block 1 has the bytes 8 at 0 and 2 at 24; the blocks 0, 1, 2 and 4 are in use.
abbrev pub small_volume : Volume
small_volume = record {
  blocks =
      update (update (λ b i. 0) 1 (update (update (λ i. 0) 0 8) 24 2)) 2 (update (λ i. 0) 0 23);
  sb = record {
    size = 8;
    nblocks = 0;
    ninodes = 0;
    nlog = 0;
    logstart = 0;
    inodestart = 0;
    bmapstart = 2;
  };
  outstanding = 1;
}

pub small-IsVolume : IsVolume small_volume
unfolding in_use has_bit word
small-IsVolume = record {
  small = omega arith;
  super_is = refl;
  boot = (omega arith, refl);
  super = (omega arith, refl);
  behind = omega arith;
  maps = λ c at. maps c (omega (arith, at.0, at.1));
}
  where
    maps : (c : ℕ) → c ≡ 2 → (c < 8) × (in_use small_volume c ≡ true)
    maps c e = (omega arith, ap (in_use small_volume) e)
