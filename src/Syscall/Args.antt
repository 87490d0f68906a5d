-- ===== src/Syscall/Args.antt =====
-- The pointers that a system call accepts lie in the memory of the process.
use os_project.Prelude.{
  ℕ, ◌+◌, ◌*◌, ◌%◌, ◌^◌, ◌<◌, ◌≤◌, ◌≡◌, ◌⊎◌, inl, inr, refl, true, false, ◌||◌, Option, none, some,
  ltb, leb, arith, Bool-cases,
}
use os_project.Prelude.Int.{ℤ, pos, negsuc, pos_part}
use os_project.Kalloc.{kern_base}
use os_project.Syscall.{User, load, fetchint, argint, pointer_to, argptr}

-- A range of user memory.
abbrev pub InUser : User → ℕ → ℕ → Type 0
InUser u a k = (a < u.sz) × (a + k ≤ u.sz)

in_range :
    (sz a k : ℕ)
    → sz ≤ kern_base
    → k < 2 ^ 31
    → (((leb sz a || ltb sz ((a + k) % 2 ^ 32)) ≡ false) × (a < sz) × (a + k ≤ sz))
      ⊎ (((leb sz a || ltb sz ((a + k) % 2 ^ 32)) ≡ true) × ((sz ≤ a) ⊎ (sz < a + k)))
in_range sz a k s l = elim (Bool-cases (ltb a sz)) [
  | inr out ↦ inr (ground arith, inl (ground arith))
  | inl low ↦ elim (Bool-cases (leb (a + k) sz)) [
    | inl up ↦ inl (ground arith, ground arith, ground arith)
    | inr out ↦ inr (ground arith, inr (ground arith))
  ]
]

-- An argument is read where its four bytes lie in user memory, and refused otherwise.
pub argint_lem :
    (n : ℕ) (u : User)
    → u.sz ≤ kern_base
    → ((argint n u ≡ some (load u.mem ((u.esp + 4 + 4 * n) % 2 ^ 32)))
        × InUser u ((u.esp + 4 + 4 * n) % 2 ^ 32) 4)
      ⊎ ((argint n u ≡ none) × ¬ (InUser u ((u.esp + 4 + 4 * n) % 2 ^ 32) 4))
unfolding argint fetchint
argint_lem n u s = elim (in_range u.sz ((u.esp + 4 + 4 * n) % 2 ^ 32) 4 s (omega arith)) [
  | inl (e, low, up) ↦ inl (rw e refl, (low, up))
  | inr (e, inl out) ↦ inr (rw e refl, λ h. omega (arith, h.0, out))
  | inr (e, inr out) ↦ inr (rw e refl, λ h. omega (arith, h.1, out))
]

abbrev pub Pointed : ℤ → User → Option ℕ → Option ℕ → Type 0
Pointed size u arg r =
    ((a : ℕ) × (k : ℕ) × (r ≡ some a) × (arg ≡ some a) × (size ≡ pos k) × InUser u a k)
    ⊎ ((r ≡ none)
        × ((arg ≡ none)
            ⊎ ((k : ℕ) × (size ≡ negsuc k))
            ⊎ ((a : ℕ) × (k : ℕ) × (arg ≡ some a) × (size ≡ pos k) × ¬ (InUser u a k))))

pointer_to-Pointed :
    (size : ℤ) (u : User) (a : ℕ)
    → u.sz ≤ kern_base
    → pos_part size < 2 ^ 31
    → Pointed size u (some a) (pointer_to u size a)
pointer_to-Pointed (negsuc k) u a s l = inr (refl, inr (inl (k, refl)))
pointer_to-Pointed (pos k) u a s l = elim (in_range u.sz a k s l) [
  | inl (e, low, up) ↦ inl (a, k, rw e refl, refl, refl, (low, up))
  | inr (e, inl out) ↦ inr (rw e refl, inr (inr (a, k, refl, refl, λ h. omega (arith, h.0, out))))
  | inr (e, inr out) ↦ inr (rw e refl, inr (inr (a, k, refl, refl, λ h. omega (arith, h.1, out))))
]

-- In a process of at most KERNBASE bytes argptr accepts an argument where it is the address of `size` bytes of its
-- memory and lies in it itself. It refuses an argument that it cannot read, a negative size, and every other address.
pub argptr_lem :
    (n : ℕ) (size : ℤ) (u : User)
    → u.sz ≤ kern_base
    → pos_part size < 2 ^ 31
    → Pointed size u (argint n u) (argptr n size u)
unfolding argptr
argptr_lem n size u s l = by_arg (argint n u)
  where
    by_arg :
        (r : Option ℕ) → Pointed size u r (elim r [ none ↦ none | some i ↦ pointer_to u size i ])
    by_arg none = inr (refl, inl refl)
    by_arg (some i) = pointer_to-Pointed size u i s l
