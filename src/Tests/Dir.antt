-- ===== src/Tests/Dir.antt =====
-- A directory of two free entries on the volume of Tests.File.
use os_project.Fs.Bmap.{Inode}
use os_project.Fs.Dir.{t_dir}
use os_project.Tests.File.{long_file}

abbrev dir : Inode
dir = record long_file { type = t_dir; size = 32 }
