-- ===== src/Prelude/Loops.antt =====
-- The counted `for` loop, and its invariant rule.
use Prim.Native.Nat.{ℕ, zero, suc, ◌+◌, ◌≤◌, ◌<◌}
use mathlib.Core.Path.{◌≡◌}
use native.Mathlib.Omega.{arith}
use native.Mathlib.Decide.{dec_lt}

-- for (k = start; k < start + rounds; k++) s = step k s
unfoldable pub for_range {ℓ} : {A : Type ℓ} → ℕ → ℕ → (ℕ → A → A) → A → A
for_range zero start step a = a
for_range (suc rounds) start step a = for_range rounds (start + 1) step (step start a)

-- An invariant indexed by the counter, kept by each round that the loop makes.
pub for_range_inv {ℓ κ} :
    {A : Type ℓ} (Inv : ℕ → A → Type κ) (step : ℕ → A → A) (rounds start end : ℕ) (a : A)
    → start + rounds ≡ end
    → ((k : ℕ) (b : A) → start ≤ k → k < end → Inv k b → Inv (k + 1) (step k b))
    → Inv start a
    → Inv end (for_range rounds start step a)
unfolding for_range
for_range_inv Inv step zero start end a e kept h =
    let over : start ≡ end = omega arith in rw (← over) h
for_range_inv Inv step (suc rounds) start end a e kept h =
    for_range_inv Inv step rounds (start + 1) end (step start a) (omega arith)
      (λ k b low high. kept k b (omega arith) high) (kept start a (omega arith) (omega arith) h)

-- A property of every number below `n`, extended by one.
pub below_suc {ℓ} :
    (P : ℕ → Type ℓ) (n : ℕ) → ((j : ℕ) → j < n → P j) → P n → (j : ℕ) → j < n + 1 → P j
below_suc P n h p j l = elim (dec_lt j n) [
  | yes b ↦ h j b
  | no b ↦ let e : n ≡ j = omega arith in rw (← e) p
]
