-- ===== src/Double.antt =====
-- The C type `double`, which xv6-public/proc.c and set_cpu_share.c use for the CPU shares.
-- Its arithmetic is the processor's, so the operations are an interface, an instance argument of
-- whatever computes with shares, and the laws that a proof needs are named one by one.
pub mod Hundredths
use os_project.Prelude.Int.{ℤ, pos}
use os_project.Prelude.{ℕ, ◌≤◌, ◌≡◌, Bool, true, false}

pub record Double (D : Type 0) : Type 0 where
  -- the conversion of an `int`, and of a `uint`
  pub of_int : ℤ → D
  pub add : D → D → D
  pub sub : D → D → D
  pub mul : D → D → D
  pub div : D → D → D
  pub lt : D → D → Bool
  -- the conversion `(uint)x`, which drops the fraction
  pub to_uint : D → ℕ

module _ {D : Type 0} (F : Double D) where
  abbrev pub of_uint : ℕ → D
  of_uint n = F.of_int (pos n)

  -- `x >= y` is written `!(x < y)`: no operand is a NaN.
  abbrev pub IsNonneg : D → Type 0
  IsNonneg x = F.lt x (of_uint 0) ≡ false

  -- C's conversion to an unsigned integer truncates towards zero.
  pub record Truncates : Type 0 where
    pub trunc_le : (x : D) → IsNonneg x → F.lt x (of_uint (F.to_uint x)) ≡ false
    pub trunc_mono : (x : D) (m : ℕ) → IsNonneg x → F.lt x (of_uint m) ≡ true → F.to_uint x ≤ m
    pub lt_mono : (x : D) (m n : ℕ) → m ≤ n → F.lt x (of_uint m) ≡ true → F.lt x (of_uint n) ≡ true
