-- ===== src/Syscall.antt =====
-- xv6-public/syscall.c: the arguments of a system call, taken from the memory of the process.
pub mod Args
pub mod Strings
pub mod Descriptors
use os_project.Prelude.{
  ℕ, zero, suc, ◌+◌, ◌-◌, ◌*◌, ◌%◌, ◌^◌, Bool, true, false, ◌||◌, Option, none, some, ltb, leb,
  ◌==◌, if◌then◌else◌,
}
use os_project.Prelude.Int.{ℤ, pos, negsuc}

-- The memory of the process below sz, and the user's stack pointer in its trap frame.
pub record User : Type 0 where
  pub mem : ℕ → ℕ
  pub sz : ℕ
  pub esp : ℕ

-- *(int*)addr, as a word: the low byte comes first.
abbrev pub load : (ℕ → ℕ) → ℕ → ℕ
load mem a = mem a + 256 * mem (a + 1) + 65536 * mem (a + 2) + 16777216 * mem (a + 3)

-- An int of the value, and a negative one for a word with the top bit.
abbrev pub int_of : ℕ → ℤ
int_of w = if ltb w (2 ^ 31) then pos w else negsuc (2 ^ 32 - 1 - w)

-- Each function returns -1 for none, and 0 or a length otherwise.
unfoldable pub fetchint : User → ℕ → Option ℕ
fetchint u addr =
    if leb u.sz addr || ltb u.sz ((addr + 4) % 2 ^ 32) then none else some (load u.mem addr)

-- The loop of fetchstr from `s` on, over the bytes that are left below sz.
unfoldable pub find_nul : ℕ → ℕ → (ℕ → ℕ) → Option ℕ
find_nul zero s mem = none
find_nul (suc left) s mem =
    let rest = find_nul left (s + 1) mem in if mem s == 0 then some s else rest

-- The string's address and its length.
unfoldable pub fetchstr : User → ℕ → Option (ℕ × ℕ)
fetchstr u addr =
    if leb u.sz addr
    then none
    else elim (find_nul (u.sz - addr) addr u.mem) [ none ↦ none | some s ↦ some (addr, s - addr) ]

unfoldable pub argint : ℕ → User → Option ℕ
argint n u = fetchint u ((u.esp + 4 + 4 * n) % 2 ^ 32)

-- The tests of argptr on the word `i`.
abbrev pub pointer_to : User → ℤ → ℕ → Option ℕ
pointer_to u (negsuc k) i = none
pointer_to u (pos size) i = if leb u.sz i || ltb u.sz ((i + size) % 2 ^ 32) then none else some i

unfoldable pub argptr : ℕ → ℤ → User → Option ℕ
argptr n size u = elim (argint n u) [ none ↦ none | some i ↦ pointer_to u size i ]

unfoldable pub argstr : ℕ → User → Option (ℕ × ℕ)
argstr n u = elim (argint n u) [ none ↦ none | some addr ↦ fetchstr u addr ]
