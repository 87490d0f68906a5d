-- ===== src/Bytes.antt =====
-- xv6-public/string.c: the routines on bytes. Memory is a function from addresses to bytes; the regions
-- that a call touches do not reach the end of the address space.
pub mod Move
pub mod Names
use os_project.Prelude.{
  ℕ, zero, suc, ◌+◌, ◌%◌, ◌<◌, Bool, true, false, not, ◌&&◌, ltb, ◌==◌, if◌then◌else◌, Option, none,
  some, update,
}
use os_project.Prelude.Int.{ℤ, pos, sub_ℕ}

-- What rep stosb and rep stosl store for memset: the low byte of `c` at `n` bytes.
unfoldable pub fill : ℕ → ℕ → ℕ → (ℕ → ℕ) → ℕ → ℕ
fill zero dst c m = m
fill (suc n) dst c m = fill n (dst + 1) c (update m dst (c % 256))

unfoldable pub memset : ℕ → ℕ → ℕ → (ℕ → ℕ) → ℕ → ℕ
memset dst c n m = fill n dst c m

unfoldable pub memcmp : ℕ → ℕ → ℕ → (ℕ → ℕ) → ℤ
memcmp zero s1 s2 m = pos 0
memcmp (suc n) s1 s2 m = elim (m s1 == m s2) [
  | true ↦ memcmp n (s1 + 1) (s2 + 1) m
  | false ↦ sub_ℕ (m s1) (m s2)
]

-- while(n-- > 0) *--d = *--s, from the ends of both regions
unfoldable pub copy_down : ℕ → ℕ → ℕ → (ℕ → ℕ) → ℕ → ℕ
copy_down zero d s m = m
copy_down (suc n) d s m = copy_down n d s (update m (d + n) (m (s + n)))

-- while(n-- > 0) *d++ = *s++
unfoldable pub copy_up : ℕ → ℕ → ℕ → (ℕ → ℕ) → ℕ → ℕ
copy_up zero d s m = m
copy_up (suc n) d s m = copy_up n (d + 1) (s + 1) (update m d (m s))

unfoldable pub memmove : ℕ → ℕ → ℕ → (ℕ → ℕ) → ℕ → ℕ
memmove dst src n m =
    if ltb src dst && ltb dst (src + n) then copy_down n dst src m else copy_up n dst src m

unfoldable pub memcpy : ℕ → ℕ → ℕ → (ℕ → ℕ) → ℕ → ℕ
memcpy dst src n m = memmove dst src n m

unfoldable pub strncmp : ℕ → ℕ → ℕ → (ℕ → ℕ) → ℤ
strncmp zero p q m = pos 0
strncmp (suc n) p q m = elim (not (m p == 0) && (m p == m q)) [
  | true ↦ strncmp n (p + 1) (q + 1) m
  | false ↦ sub_ℕ (m p) (m q)
]

-- The second loop of strncpy.
unfoldable pub pad : ℕ → ℕ → (ℕ → ℕ) → ℕ → ℕ
pad zero s m = m
pad (suc n) s m = pad n (s + 1) (update m s 0)

unfoldable pub strncpy : ℕ → ℕ → ℕ → (ℕ → ℕ) → ℕ → ℕ
strncpy zero s t m = m
strncpy (suc n) s t m =
    let m' = update m s (m t) in
    elim (m t == 0) [ true ↦ pad n (s + 1) m' | false ↦ strncpy n (s + 1) (t + 1) m' ]

-- The loop of safestrcpy with the 0 behind it: at most `n` bytes are copied.
unfoldable pub copy_string : ℕ → ℕ → ℕ → (ℕ → ℕ) → ℕ → ℕ
copy_string zero s t m = update m s 0
copy_string (suc n) s t m =
    let m' = update m s (m t) in
    elim (m t == 0) [ true ↦ update m' (s + 1) 0 | false ↦ copy_string n (s + 1) (t + 1) m' ]

-- safestrcpy; zero stands for a count that is not positive.
unfoldable pub safestrcpy : ℕ → ℕ → ℕ → (ℕ → ℕ) → ℕ → ℕ
safestrcpy zero s t m = m
safestrcpy (suc n) s t m = copy_string n s t m

abbrev pub one_more : Option ℕ → Option ℕ
one_more none = none
one_more (some n) = some (suc n)

-- strlen, over the addresses that are left; `none` where there is no 0 in them.
unfoldable pub strlen : ℕ → ℕ → (ℕ → ℕ) → Option ℕ
strlen zero s m = none
strlen (suc left) s m = elim (m s == 0) [ true ↦ some 0 | false ↦ one_more (strlen left (s + 1) m) ]
