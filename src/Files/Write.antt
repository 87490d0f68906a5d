-- ===== src/Files/Write.antt =====
-- filewrite and pfilewrite of a file with an inode.
use os_project.Prelude.{ℕ, ◌+◌, ◌-◌, ◌*◌, ◌<◌, ◌≡◌, ◌⊎◌, ◌&&◌, leb, ltb, if◌then◌else◌}
use os_project.Prelude.Outcome.{Outcome, ok, panic}
use os_project.Pipe.{Pipe}
use os_project.Fs.{Volume, block_size}
use os_project.Fs.Bmap.{Inode, max_file}
use os_project.Fs.File.Labels.{Labels}
use os_project.Fs.File.Grow.{Fills}
use os_project.Fs.File.Read.{file_byte}
use os_project.Files.{File, max_chunk}

-- What two chunks at one offset leave.
pub record Overwritten (off n : ℕ) (addr : ℕ → ℕ) (ip : Inode) (v : Volume) (ip' : Inode)
    (v' : Volume) : Type 0 where
  pub bytes :
      (x : ℕ)
      → x < max_file * block_size
      → file_byte ip' v' x ≡ (
          if leb off x && ltb x (off + max_chunk)
          then (if ltb x (off + (n - max_chunk))
              then addr (max_chunk + (x - off))
              else addr (x - off))
          else file_byte ip v x)

abbrev TwoEnd : ℕ → ℕ → (ℕ → ℕ) → Inode → Volume → Outcome (ℕ × ℕ × Inode × Volume) → Type 0
TwoEnd off n addr ip v r =
    ((r ≡ panic) × Fills v)
    ⊎ ((ip' : Inode) × (v' : Volume) × (r ≡ ok (n, off, ip', v'))
        × Overwritten off n addr ip v ip' v')
