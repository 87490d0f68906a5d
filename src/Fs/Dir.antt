-- ===== src/Fs/Dir.antt =====
-- dirlookup of fs.c, over readi and iget. A struct dirent is its 16 bytes: the inode number, and the name.
pub mod Entry
pub mod Lookup
use os_project.Prelude.{
  ℕ, zero, suc, ◌+◌, ◌-◌, ◌*◌, Bool, true, false, not, ◌&&◌, Option, none, some, ltb, ◌==◌,
  if◌then◌else◌,
}
use os_project.Prelude.Int.{ℤ, pos, negsuc}
use os_project.Prelude.Outcome.{Outcome, ok, panic, fault, ◌>>=◌}
use os_project.Bytes.{strncmp}
use os_project.Fs.{Volume}
use os_project.Fs.Bmap.{Inode}
use os_project.Fs.Icache.{Icache, iget}
use os_project.Fs.File.{Devices, readi}
use os_project.Fs.Names.{dirsiz}

-- T_DIR, and sizeof(struct dirent)
abbrev pub t_dir : ℕ
t_dir = 1

abbrev pub dirent_size : ℕ
dirent_size = 16

abbrev pub inum_of : (ℕ → ℕ) → ℕ
inum_of de = de 0 + 256 * de 1

-- The name, and behind it that of the entry, in one memory.
abbrev pub names : (ℕ → ℕ) → (ℕ → ℕ) → ℕ → ℕ
names name de a = if ltb a dirsiz then name a else de (2 + (a - dirsiz))

abbrev pub namecmp : (ℕ → ℕ) → (ℕ → ℕ) → ℤ
namecmp name de = strncmp dirsiz 0 dirsiz (names name de)

abbrev pub is_zero : ℤ → Bool
is_zero (pos n) = n == 0
is_zero (negsuc n) = false

-- The entry is in use and has the name.
unfoldable pub matches : (ℕ → ℕ) → (ℕ → ℕ) → Bool
matches name de = not (inum_of de == 0) && is_zero (namecmp name de)

-- A round of the loop of dirlookup: the entry at `off`, where all of it is read into `de`.
abbrev pub read_entry : Devices → ℕ → Inode → Volume → (ℕ → ℕ) → Outcome (Inode × Volume × (ℕ → ℕ))
read_entry devsw off dp v de = do
  (dp', v', de', r) ← readi devsw dp v de off dirent_size
  elim r [ negsuc k ↦ panic | pos k ↦ if k == dirent_size then ok (dp', v', de') else panic ]

abbrev pub round_end {ℓ} : {A : Type ℓ} → Bool → A → Outcome A → Outcome A
round_end true found rest = ok found
round_end false found rest = rest

-- The loop with fuel: the offset and the inode number of the entry that it ends at.
unfoldable pub dir_scan :
    Devices → (ℕ → ℕ) → ℕ → ℕ → Inode → Volume → (ℕ → ℕ) → Outcome (Inode × Volume × Option (ℕ × ℕ))
dir_scan devsw name zero off dp v de = if ltb off dp.size then fault else ok (dp, v, none)
dir_scan devsw name (suc fuel) off dp v de = elim (ltb off dp.size) [
  | false ↦ ok (dp, v, none)
  | true ↦ do
    (dp', v', de') ← read_entry devsw off dp v de
    round_end (matches name de') (dp', v', some (off, inum_of de'))
        (dir_scan devsw name fuel (off + dirent_size) dp' v' de')
]

-- The index of the inode in the cache, and the offset of the entry.
unfoldable pub dirlookup :
    Devices
    → (ℕ → ℕ)
    → (ℕ → ℕ)
    → Inode
    → Volume
    → Icache
    → Outcome (Inode × Volume × Icache × Option (ℕ × ℕ))
dirlookup devsw name de dp v c = if not (dp.type == t_dir) then panic else (do
  (dp', v', found) ← dir_scan devsw name dp.size 0 dp v de
  elim found [
    | none ↦ ok (dp', v', c, none)
    | some (off, inum) ↦
        iget dp'.dev inum c >>= λ (r : Icache × ℕ). ok (dp', v', r.0, some (r.1, off))
  ])
