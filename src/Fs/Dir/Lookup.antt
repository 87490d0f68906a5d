-- ===== src/Fs/Dir/Lookup.antt =====
-- The search for a name in a directory.
use os_project.Prelude.{ℕ, ◌+◌, ◌*◌, ◌<◌, ◌≤◌, ◌≡◌, ◌≢◌, ◌⊎◌, Option, none, some}
use os_project.Prelude.Outcome.{Outcome, ok, panic}
use os_project.Fs.{Volume, block_size}
use os_project.Fs.Free.{IsVolume}
use os_project.Fs.Bmap.{Inode, max_file}
use os_project.Fs.File.{t_dev}
use os_project.Fs.File.Labels.{Labels, IsTree}
use os_project.Fs.File.Grow.{Fills}
use os_project.Fs.File.Put.{Later}
use os_project.Fs.File.Read.{file_byte}
use os_project.Fs.Dir.Entry.{entry_inum, Names}
use os_project.Fs.Dir.{dirent_size}

-- A directory on a well-formed volume.
pub record IsDir (ls : Labels) (dp : Inode) (v : Volume) : Type 0 where
  pub file : dp.type ≢ t_dev
  pub volume : IsVolume v
  pub tree : IsTree ls dp v
  pub small : dp.size ≤ max_file * block_size

-- The file has the same bytes.
pub record Unchanged (ls : Labels) (dp : Inode) (v : Volume) (ls' : Labels) (dp' : Inode)
    (v' : Volume) : Type 0 where
  pub dir : IsDir ls' dp' v'
  pub later : Later ls ls' v v'
  pub same : dp' ≡ record dp { addrs = dp'.addrs }
  pub bytes : (x : ℕ) → x < max_file * block_size → file_byte dp' v' x ≡ file_byte dp v x

-- What the search finds among `count` entries from `off` on: the first with the name, or none.
abbrev pub Finds : (ℕ → ℕ) → (ℕ → ℕ) → ℕ → ℕ → Option (ℕ × ℕ) → Type 0
Finds name byte off count none = (k : ℕ) → k < count → ¬ (Names name byte (off + dirent_size * k))
Finds name byte off count (some (o, inum)) =
    (k : ℕ) × (k < count)
    × (o ≡ off + dirent_size * k)
    × Names name byte o
    × (inum ≡ entry_inum byte o)
    × ((j : ℕ) → j < k → ¬ (Names name byte (off + dirent_size * j)))

abbrev pub ScanEnds :
    Labels → Inode → Volume → (ℕ → ℕ) → ℕ → ℕ → Outcome (Inode × Volume × Option (ℕ × ℕ)) → Type 0
ScanEnds ls dp v name off count r =
    ((r ≡ panic) × Fills v)
    ⊎ ((dp' : Inode) × (v' : Volume) × (ls' : Labels) × (found : Option (ℕ × ℕ)) × (r
          ≡ ok (dp', v', found))
        × Unchanged ls dp v ls' dp' v'
        × Finds name (file_byte dp v) off count found)
