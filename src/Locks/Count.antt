-- ===== src/Locks/Count.antt =====
-- The number of locks that a CPU holds.
use os_project.Prelude.{
  ℕ, zero, suc, ◌+◌, ◌<◌, ◌≤◌, ◌≡◌, ◌≢◌, inl, inr, ◌∙◌, refl, sym, ap, Bool, true, false, ◌==◌,
  if◌then◌else◌, update, arith, Bool-cases,
}
use os_project.Locks.{Spinlock, holding}

abbrev pub one_if : Bool → ℕ
one_if true = 1
one_if false = 0

-- The locks below `n` that the CPU `i` holds.
abbrev pub held : ℕ → ℕ → (ℕ → Spinlock) → ℕ
held i zero locks = 0
held i (suc n) locks = one_if (holding i (locks n)) + held i n locks

held_outside :
    (i n l : ℕ) (locks : ℕ → Spinlock) (k : Spinlock)
    → n ≤ l
    → held i n (update locks l k) ≡ held i n locks
held_outside i zero l locks k h = refl
held_outside i (suc n) l locks k h =
    ap (λ q. one_if (holding i q) + held i n (update locks l k))
      (other l n (locks n) k (omega (arith, h)))
    ∙ ap (λ q. one_if (holding i (locks n)) + q) (held_outside i n l locks k (omega (arith, h)))
  where
    other : (l n : ℕ) (a k : Spinlock) → n < l → (if l == n then k else a) ≡ a
    other l n a k h = ground arith

-- A change of one lock changes the count by that lock.
pub held_change :
    (i n l : ℕ) (locks : ℕ → Spinlock) (k : Spinlock)
    → l < n
    → one_if (holding i (locks l)) + held i n (update locks l k)
      ≡ one_if (holding i k) + held i n locks
held_change i zero l locks k h = absurd (omega (arith, h))
held_change i (suc n) l locks k h = elim (Bool-cases (l == n)) [
  | inl at ↦
      let e : l ≡ n = ground arith in
      let same : update locks l k n ≡ k = at_l l n (locks n) k at in
      let rest = held_outside i n l locks k (omega (arith, e)) in
      let here : one_if (holding i (locks l)) ≡ one_if (holding i (locks n)) =
        ap (λ q. one_if (holding i (locks q))) e in
      omega (arith, ap (λ q. one_if (holding i q)) same, rest, here)
  | inr off ↦
      let d : l ≢ n = ground arith in
      let same : update locks l k n ≡ locks n = off_l l n (locks n) k off in
      let rest = held_change i n l locks k (omega (arith, h, d)) in
      omega (arith, ap (λ q. one_if (holding i q)) same, rest)
]
  where
    at_l : (l n : ℕ) (a k : Spinlock) → (l == n) ≡ true → (if l == n then k else a) ≡ k
    at_l l n a k e = rw e refl

    off_l : (l n : ℕ) (a k : Spinlock) → (l == n) ≡ false → (if l == n then k else a) ≡ a
    off_l l n a k e = rw e refl

-- A lock that is held counts.
pub held_one :
    (i n l : ℕ) (locks : ℕ → Spinlock) → l < n → holding i (locks l) ≡ true → 1 ≤ held i n locks
held_one i zero l locks h e = absurd (omega (arith, h))
held_one i (suc n) l locks h e = elim (Bool-cases (l == n)) [
  | inl at ↦
      let q : l ≡ n = ground arith in
      omega (arith, ap (λ p. one_if (holding i (locks p))) (sym q), ap one_if e)
  | inr off ↦
      let d : l ≢ n = ground arith in omega (arith, held_one i n l locks (omega (arith, h, d)) e)
]
