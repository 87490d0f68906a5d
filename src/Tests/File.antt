-- ===== src/Tests/File.antt =====
-- A file without blocks, on a volume whose inodes stand in block 4.
use os_project.Prelude.{ℕ, ◌+◌, ◌<◌, ◌≡◌, ap, refl, true, update, arith, none}
use os_project.Fs.{Volume, in_use}
use os_project.Fs.Bits.{has_bit, word}
use os_project.Fs.Free.{IsVolume}
use os_project.Fs.Bmap.{Inode, max_file}
use os_project.Fs.File.{Devices}
use os_project.Fs.File.Labels.{Labels, IsTree}
use os_project.Fs.File.Write.{OutOfTree}
use os_project.Tests.Fs.{small_volume}
use os_project.Tests.Bmap.{empty_file}

abbrev pub volume : Volume
volume = record {
  blocks = update small_volume.blocks 1 (update (small_volume.blocks 1) 20 4);
  sb = record small_volume.sb { inodestart = 4 };
  outstanding = 1;
}

pub volume-IsVolume : IsVolume volume
unfolding in_use has_bit word
volume-IsVolume = record {
  small = omega arith;
  super_is = refl;
  boot = (omega arith, refl);
  super = (omega arith, refl);
  behind = omega arith;
  maps = λ c at. maps c (omega (arith, at.0, at.1));
}
  where
    maps : (c : ℕ) → c ≡ 2 → (c < 8) × (in_use volume c ≡ true)
    maps c e = (omega arith, ap (in_use volume) e)

abbrev pub nowhere : Labels
nowhere = record { left = λ c. 0; base = λ c. max_file }

abbrev pub no_devices : Devices
no_devices = record { reads = λ i. none; writes = λ i. none }

-- 600 bytes of file
abbrev pub long_file : Inode
long_file = record empty_file { size = 600 }

pub long-IsTree : IsTree nowhere long_file volume
long-IsTree = record {
  roots = λ s l n. absurd (n refl);
  entries = λ t l i h e small n. absurd (omega (arith, e));
}

pub inode-OutOfTree : OutOfTree nowhere volume 4
unfolding in_use has_bit word
inode-OutOfTree = (
  record {
    high = omega arith;
    inside = omega arith;
    used = refl;
    away = λ at. omega (arith, at.1);
  },
  refl,
  omega arith,
)

abbrev pub source : ℕ → ℕ
source i = 7 + i
