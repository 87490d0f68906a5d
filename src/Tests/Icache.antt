-- ===== src/Tests/Icache.antt =====
-- An inode cache with one entry in use, and iget of another inode.
use os_project.Prelude.{ℕ, ◌<◌, ◌≡◌, ◌⊎◌, refl, false, arith, update, Option, some, none}
use os_project.Prelude.Outcome.{Outcome, ok, panic, fault}
use os_project.Fs.Icache.{Icache, ninode, is_cached, scan, idup, iget, IsUnique, Got, iget_lem}
use os_project.Tests.Bmap.{empty_file}

abbrev one_entry : Icache
one_entry = update (λ i. record empty_file { ref = 0 }) 3 empty_file

one_entry-IsUnique : IsUnique one_entry
one_entry-IsUnique i j li lj used used' d n = ground arith

abbrev entry_got : Outcome (Icache × ℕ) → Option ℕ
entry_got (ok (c, i)) = some i
entry_got panic = none
entry_got fault = none

-- The inode 2 has entry 3, and the inode 7 gets the first free one.
gets_3 : entry_got (iget 1 2 one_entry) ≡ some 3
unfolding iget scan idup
gets_3 = refl

gets_0 : entry_got (iget 1 7 one_entry) ≡ some 0
unfolding iget scan idup
gets_0 = refl

iget_lem_example :
    ((iget 1 7 one_entry ≡ panic)
      × ((i : ℕ) → i < ninode → (0 < (one_entry i).ref) × (is_cached 1 7 (one_entry i) ≡ false)))
    ⊎ ((c' : Icache) × (i : ℕ) × (iget 1 7 one_entry ≡ ok (c', i)) × Got 1 7 one_entry i c')
iget_lem_example = iget_lem 1 7 one_entry one_entry-IsUnique
