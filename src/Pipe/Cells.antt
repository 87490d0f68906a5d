-- ===== src/Pipe/Cells.antt =====
-- The cells of the ring from an index on.
use os_project.Prelude.{
  ℕ, zero, suc, ◌+◌, ◌%◌, ◌<◌, ◌≡◌, ◌≢◌, ◌∙◌, ap, refl, List, [], ◌∷◌, ◌++◌, arith, update,
}
use mathlib.Core.Path.{ap₂}
use os_project.Pipe.{pipe_size}

unfoldable pub cells : (ℕ → ℕ) → ℕ → ℕ → List ℕ
cells t i zero = []
cells t i (suc n) = t (i % pipe_size) ∷ cells t (i + 1) n

-- The index counts by its remainder.
pub cells-mod : (t : ℕ → ℕ) (i j n : ℕ) → i % pipe_size ≡ j % pipe_size → cells t i n ≡ cells t j n
unfolding cells
cells-mod t i j zero e = refl
cells-mod t i j (suc n) e = rw (e, cells-mod t (i + 1) (j + 1) n (omega arith)) refl

-- A write to none of the cells leaves them.
cells-update :
    (t : ℕ → ℕ) (i n k b : ℕ)
    → ((j : ℕ) → j < n → (i + j) % pipe_size ≢ k)
    → cells (update t k b) i n ≡ cells t i n
unfolding cells
cells-update t i zero k b away = refl
cells-update t i (suc n) k b away =
    ap₂ ◌∷◌ (here (i % pipe_size) (λ q. away 0 (omega arith) (omega arith)))
      (cells-update t (i + 1) n k b (λ j l q. away (j + 1) (omega arith) (omega arith)))
  where
    here : (p : ℕ) → p ≢ k → update t k b p ≡ t p
    here p n = ground arith

pub cells-snoc :
    (t : ℕ → ℕ) (i n : ℕ) → cells t i (suc n) ≡ cells t i n ++ t ((i + n) % pipe_size) ∷ []
unfolding cells
cells-snoc t i zero = let e : i + 0 ≡ i = omega arith in rw e refl
cells-snoc t i (suc n) =
    let e : i + suc n ≡ i + 1 + n = omega arith in
    rw e (ap (λ xs. t (i % pipe_size) ∷ xs) (cells-snoc t (i + 1) n))

-- A byte that is written behind the cells.
pub cells_put :
    (t : ℕ → ℕ) (i n w b : ℕ)
    → n < pipe_size
    → w % pipe_size ≡ (i + n) % pipe_size
    → cells (update t (w % pipe_size) b) i (suc n) ≡ cells t i n ++ b ∷ []
cells_put t i n w b l e = rw e (
    cells-snoc (update t ((i + n) % pipe_size) b) i n
    ∙ ap₂ (λ xs x. xs ++ x ∷ []) old (here ((i + n) % pipe_size)))
  where
    here : (p : ℕ) → update t p b p ≡ b
    here p = ground arith

    old : cells (update t ((i + n) % pipe_size) b) i n ≡ cells t i n
    old = cells-update t i n ((i + n) % pipe_size) b (λ j k q. omega arith)
