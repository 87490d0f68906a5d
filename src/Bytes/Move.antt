-- ===== src/Bytes/Move.antt =====
-- memmove, whether or not the regions overlap.
use os_project.Prelude.{
  ℕ, zero, suc, ◌+◌, ◌-◌, ◌≤◌, ◌<◌, ◌≡◌, ◌⊎◌, inl, inr, ◌∙◌, ◌&&◌, ltb, leb, if◌then◌else◌, arith,
  update, Bool-cases,
}
use os_project.Bytes.{copy_down, copy_up, memmove}

-- A copy of the region at once: each byte of the target is the byte that the source had.
abbrev pub moved : ℕ → ℕ → ℕ → (ℕ → ℕ) → ℕ → ℕ
moved dst src n m a = if leb dst a && ltb a (dst + n) then m (src + (a - dst)) else m a

moved_zero : (d s : ℕ) (m : ℕ → ℕ) (a : ℕ) → m a ≡ moved d s 0 m a
moved_zero d s m a = ground arith

moved_down :
    (n d s : ℕ) (m : ℕ → ℕ) (a : ℕ)
    → s < d
    → moved d s n (update m (d + n) (m (s + n))) a ≡ moved d s (suc n) m a
moved_down n d s m a l = ground arith

copy_down_lem : (n d s : ℕ) (m : ℕ → ℕ) (a : ℕ) → s < d → copy_down n d s m a ≡ moved d s n m a
unfolding copy_down
copy_down_lem zero d s m a l = moved_zero d s m a
copy_down_lem (suc n) d s m a l =
    copy_down_lem n d s (update m (d + n) (m (s + n))) a l ∙ moved_down n d s m a l

moved_up :
    (n d s : ℕ) (m : ℕ → ℕ) (a : ℕ)
    → (d ≤ s) ⊎ (s + suc n ≤ d)
    → moved (d + 1) (s + 1) n (update m d (m s)) a ≡ moved d s (suc n) m a
moved_up n d s m a h = ground arith

copy_up_lem :
    (n d s : ℕ) (m : ℕ → ℕ) (a : ℕ) → (d ≤ s) ⊎ (s + n ≤ d) → copy_up n d s m a ≡ moved d s n m a
unfolding copy_up
copy_up_lem zero d s m a h = moved_zero d s m a
copy_up_lem (suc n) d s m a h =
    copy_up_lem n (d + 1) (s + 1) (update m d (m s)) a (omega arith) ∙ moved_up n d s m a h

-- memmove copies the region as it was before the call, though the regions overlap, and changes no
-- other byte.
pub memmove_lem : (dst src n : ℕ) (m : ℕ → ℕ) (a : ℕ) → memmove dst src n m a ≡ moved dst src n m a
unfolding memmove
memmove_lem dst src n m a = elim (Bool-cases (ltb src dst && ltb dst (src + n))) [
  | inl down ↦ rw down (copy_down_lem n dst src m a (ground arith))
  | inr up ↦ rw up (copy_up_lem n dst src m a (ground arith))
]
