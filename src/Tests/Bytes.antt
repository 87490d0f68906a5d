-- ===== src/Tests/Bytes.antt =====
-- Runs of the byte routines, and their theorems at concrete regions.
use os_project.Prelude.{ℕ, ◌==◌, ◌≡◌, refl, [], ◌∷◌, if◌then◌else◌, some}
use os_project.Prelude.Int.{pos}
use os_project.Bytes.{
  fill, memset, memcmp, copy_down, copy_up, memmove, memcpy, pad, strncpy, strlen,
}
use os_project.Bytes.Move.{moved, memmove_lem}
use os_project.Bytes.Names.{name_at}

-- Each byte holds its address; the byte at 14 is 0.
abbrev numbered : ℕ → ℕ
numbered a = if a == 14 then 0 else a

moves_down : memmove 3 2 3 numbered 4 ≡ 3
unfolding memmove copy_down
moves_down = refl

memmove_lem_example : memmove 3 2 3 numbered 5 ≡ moved 3 2 3 numbered 5
memmove_lem_example = memmove_lem 3 2 3 numbered 5

copies_a_string : name_at 8 30 (strncpy 8 30 10 numbered) ≡ 10 ∷ 11 ∷ 12 ∷ 13 ∷ []
unfolding name_at strncpy pad
copies_a_string = refl

sets_and_compares : memcmp 2 20 22 (memset 20 261 4 numbered) ≡ pos 0
unfolding memset fill memcmp
sets_and_compares = refl

has_length_4 : strlen 9 10 (memcpy 40 10 2 numbered) ≡ some 4
unfolding strlen memcpy memmove copy_up
has_length_4 = refl
