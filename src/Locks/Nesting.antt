-- ===== src/Locks/Nesting.antt =====
-- The interrupts of a CPU are off while it holds a lock or waits for one, and are then as they were.
use os_project.Prelude.{
  ℕ, ◌+◌, ◌-◌, ◌<◌, ◌≡◌, inl, inr, ◌∙◌, refl, sym, ap, Bool, true, false, ◌&&◌, Option, none, some,
  ◌==◌, if◌then◌else◌, arith, Bool-cases,
}
use os_project.Prelude.Outcome.{Outcome, ok, ◌>>◌, panic_if}
use os_project.Locks.{Cpu, Spinlock, System, pushcli, popcli, is_cpu, holding, Waiting}
use os_project.Locks.Count.{held}

abbrev pub waits : Option ℕ → ℕ
waits none = 0
waits (some l) = 1

-- A CPU `k` levels deep, whose interrupts were `b`.
pub record IsNested (b : Bool) (k : ℕ) (c : Cpu) : Type 0 where
  pub depth : c.ncli ≡ k
  pub inner : 0 < k → (c.intr ≡ false) × (c.intena ≡ b)
  pub outer : k ≡ 0 → c.intr ≡ b

pub pushcli-IsNested :
    (b : Bool) (k : ℕ) (c : Cpu) → IsNested b k c → IsNested b (k + 1) (pushcli c)
unfolding pushcli
pushcli-IsNested b k c h = elim (Bool-cases (c.ncli == 0)) [
  | inl z ↦
      let e : k ≡ 0 = at_zero c.ncli z h.depth in
      record {
        depth = omega (arith, h.depth);
        inner = λ l. (refl, rw z (h.outer e));
        outer = λ n. absurd (omega (arith, n));
      }
  | inr nz ↦
      let l : 0 < k = above c.ncli nz h.depth in
      record {
        depth = omega (arith, h.depth);
        inner = λ _. (refl, rw nz (h.inner l).1);
        outer = λ n. absurd (omega (arith, n));
      }
]
  where
    at_zero : (x : ℕ) → (x == 0) ≡ true → x ≡ k → k ≡ 0
    at_zero x e f = ground arith

    above : (x : ℕ) → (x == 0) ≡ false → x ≡ k → 0 < k
    above x e f = ground arith

pub passed : {A : Type 0} (t : Bool) (k : Outcome A) → t ≡ false → (panic_if t >> k) ≡ k
passed t k e = rw e refl

popcli_ends :
    (c : Cpu) (t : Bool)
    → c.intr ≡ false
    → (c.ncli == 0) ≡ false
    → (c.ncli - 1 == 0 && c.intena) ≡ t
    → popcli c
      ≡ ok (
          if t then record c { ncli = c.ncli - 1; intr = true } else record c { ncli = c.ncli - 1 })
unfolding popcli
popcli_ends c t e f g =
    passed c.intr _ e
    ∙ passed (c.ncli == 0) _ f
    ∙ ap
        (λ q. ok (
          if q
          then record c { ncli = c.ncli - 1; intr = true }
          else record c { ncli = c.ncli - 1 }))
        g

pub popcli-IsNested :
    (b : Bool) (k : ℕ) (c : Cpu)
    → IsNested b (k + 1) c
    → (c' : Cpu) × (popcli c ≡ ok c') × IsNested b k c'
popcli-IsNested b k c h = elim (Bool-cases (c.ncli - 1 == 0 && c.intena)) [
  | inl t ↦
      let (z, on) = both (c.ncli - 1) c.intena t in
      (
        record c { ncli = c.ncli - 1; intr = true },
        popcli_ends c true in_.0 nz t,
        record {
          depth = omega (arith, h.depth);
          inner = λ l. absurd (omega (arith, l, z, h.depth));
          outer = λ _. sym on ∙ in_.1;
        },
      )
  | inr f ↦ (
    record c { ncli = c.ncli - 1 },
    popcli_ends c false in_.0 nz f,
    record {
      depth = omega (arith, h.depth);
      inner = λ _. in_;
      outer = λ e. in_.0 ∙ sym (off_at (c.ncli - 1) c.intena f (omega (arith, h.depth, e))) ∙ in_.1;
    },
  )
]
  where
    in_ : (c.intr ≡ false) × (c.intena ≡ b)
    in_ = h.inner (omega arith)

    nz : (c.ncli == 0) ≡ false
    nz = not_zero c.ncli h.depth
      where
        not_zero : (x : ℕ) → x ≡ k + 1 → (x == 0) ≡ false
        not_zero x e = ground arith

    both : (x : ℕ) (t : Bool) → (x == 0 && t) ≡ true → (x ≡ 0) × (t ≡ true)
    both x true e = (ground arith, refl)
    both x false e = ground arith

    off_at : (x : ℕ) (t : Bool) → (x == 0 && t) ≡ false → x ≡ 0 → t ≡ false
    off_at x true e f = ground arith
    off_at x false e f = refl

-- Each CPU is as deep as the locks it holds and the one it waits for.
abbrev pub AllNested : ℕ → (ℕ → Bool) → System → Waiting → Type 0
AllNested n intr m w = (i : ℕ) → IsNested (intr i) (held i n m.locks + waits (w i)) (m.cpus i)

pub not_held : (i : ℕ) (k : Spinlock) → k.locked ≡ false → holding i k ≡ false
unfolding holding
not_held i k e = ap (λ q. q && is_cpu i k.cpu) e

pub holds_own : (j i : ℕ) → holding j (record { locked = true; cpu = some i }) ≡ (j == i)
unfolding holding
holds_own j i = refl

-- A lock that one CPU holds is held by no other.
pub holding_one : (i j : ℕ) (k : Spinlock) → holding i k ≡ true → holding j k ≡ true → i ≡ j
unfolding holding
holding_one i j k e f = same k.locked k.cpu e f
  where
    same : (t : Bool) (c : Option ℕ) → (t && is_cpu i c) ≡ true → (t && is_cpu j c) ≡ true → i ≡ j
    same true none e f = absurd (cc e)
    same true (some a) e f = ground arith
    same false c e f = absurd (cc e)
