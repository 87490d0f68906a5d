-- ===== src/Tests/Files.antt =====
-- An open file on the volume of Tests.File.
use os_project.Prelude.{ℕ, ◌≤◌, ◌≡◌, ◌⊎◌, refl, true, false, ◌==◌, if◌then◌else◌, arith, []}
use os_project.Prelude.Int.{pos}
use os_project.Prelude.Outcome.{ok, panic}
use os_project.Fs.{Volume, in_use}
use os_project.Fs.Free.{IsVolume}
use os_project.Fs.Bmap.Held.{HeldPath-zero}
use os_project.Fs.Bmap.Levels.{entries_of}
use os_project.Fs.Bmap.Address.{IsFile}
use os_project.Fs.File.Read.{available}
use os_project.Fs.File.Labels.{Labels}
use os_project.Files.{File, fd_inode, fd_none, returned, advance}
use os_project.Files.Chunks.{Ready}
use os_project.Files.Read.{fileread}
use os_project.Files.Holes.{HasHole, IsWhole, fileread_alone}
use os_project.Files.Table.{Ftable, filedup, fileclose, nothing_more, filedup-fileclose}
use os_project.Tests.Pipe.{wrapping}
use os_project.Tests.File.{
  volume, volume-IsVolume, nowhere, no_devices, long_file, long-IsTree, inode-OutOfTree, source,
}

abbrev pub open_file : File
open_file = record {
  type = fd_inode;
  ref = 1;
  readable = true;
  writable = true;
  pipe = wrapping;
  ip = long_file;
  off = 500;
}

pub file-Ready : Ready nowhere long_file volume
file-Ready = record {
  file = λ e. omega (arith, e);
  live = (omega arith, refl);
  volume = volume-IsVolume;
  tree = long-IsTree;
  inode = inode-OutOfTree;
}

-- The volume while no call is in a transaction: the file has no block, and its first bytes are read.
abbrev quiet : Volume
quiet = record volume { outstanding = 0 }

quiet-IsVolume : IsVolume quiet
unfolding in_use
quiet-IsVolume = record {
  small = volume-IsVolume.small;
  super_is = volume-IsVolume.super_is;
  boot = volume-IsVolume.boot;
  super = volume-IsVolume.super;
  behind = volume-IsVolume.behind;
  maps = volume-IsVolume.maps;
}

long-IsFile : IsFile long_file quiet
long-IsFile n l = HeldPath-zero quiet (entries_of n) 0 refl

fileread_alone_example :
    ((x : ℕ) × HasHole long_file quiet 500 (available long_file 500 300) x
      × (fileread no_devices false [] source 300 open_file quiet ≡ panic))
    ⊎ ((dst' : ℕ → ℕ) × IsWhole long_file quiet 500 (available long_file 500 300)
        × (fileread no_devices false [] source 300 open_file quiet
            ≡ ok (
                returned
                  (record open_file { off = advance 500 (available long_file 500 300) })
                  quiet
                  (dst', pos (available long_file 500 300)))))
fileread_alone_example =
    fileread_alone no_devices false [] source 300 open_file quiet refl refl (λ e. omega (arith, e))
      (omega arith, refl) quiet-IsVolume long-IsFile refl (omega arith) (omega arith) (omega arith)

-- Entry 0 is open, the others are free.
abbrev pub table : Ftable
table i = if i == 0 then open_file else record open_file { type = fd_none; ref = 0 }

filedup-fileclose_example :
    (((table 0).ref ≡ 0) × (filedup 0 table ≡ panic) × (fileclose 0 table ≡ panic))
    ⊎ ((1 ≤ (table 0).ref)
        × (t' : Ftable) × (t'' : Ftable) × (filedup 0 table ≡ ok t')
        × (fileclose 0 t' ≡ ok (t'', nothing_more))
        × ((j : ℕ) → t'' j ≡ table j))
filedup-fileclose_example = filedup-fileclose 0 table
