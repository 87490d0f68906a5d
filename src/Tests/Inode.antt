-- ===== src/Tests/Inode.antt =====
-- An inode that is written to the small volume and read again, and path names.
use os_project.Prelude.{
  ℕ, ◌<◌, ◌≡◌, ◌≢◌, ◌⊎◌, refl, false, arith, List, [], ◌∷◌, length, is_nil, some, none,
}
use os_project.Prelude.Outcome.{ok}
use os_project.Fs.Bmap.{Inode}
use os_project.Fs.Inode.{iupdate, ilock}
use os_project.Fs.Inode.Update.{IsInode, SameFile, LoadsSame, ilock-iupdate}
use os_project.Fs.Names.{skip_slashes, element, skipelem, names, skipelem_lem}
use os_project.Tests.Fs.{small_volume}
use os_project.Tests.Bmap.{empty_file}

empty-IsInode : IsInode empty_file
empty-IsInode = record {
  in_cache = omega arith;
  allocated = omega arith;
  shorts = (omega arith, omega arith, omega arith, omega arith);
  size = omega arith;
  addrs = λ i l. omega arith;
}

ilock-iupdate_example :
    ((ip' : Inode) × (ilock (record empty_file { valid = false }) (iupdate empty_file small_volume)
        ≡ ok ip')
      × SameFile empty_file ip')
    × ((jp : Inode) → jp.inum ≢ 2 → LoadsSame jp small_volume (iupdate empty_file small_volume))
ilock-iupdate_example = ilock-iupdate empty_file small_volume empty-IsInode

-- "//a/bb"
abbrev long_path : List ℕ
long_path = 47 ∷ 47 ∷ 97 ∷ 47 ∷ 98 ∷ 98 ∷ []

takes_a : skipelem long_path ≡ some (97 ∷ [], 98 ∷ 98 ∷ [])
unfolding skipelem skip_slashes element
takes_a = refl

skipelem_lem_example :
    ((skipelem long_path ≡ none) × (names long_path ≡ []))
    ⊎ ((name : List ℕ) × (rest : List ℕ) × (skipelem long_path ≡ some (name, rest))
        × (names long_path ≡ name ∷ names rest)
        × (length rest < 6)
        × (is_nil rest ≡ is_nil (names rest)))
skipelem_lem_example = skipelem_lem long_path
