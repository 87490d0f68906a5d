-- ===== src/Proc/Table.antt =====
-- The loop `for(p = ptable.proc; p < &ptable.proc[NPROC]; p++)` where each round writes `*p` only.
use os_project.Prelude.{ℕ, ◌≡◌, refl, arith, ltb, if◌then◌else◌, for_range, for_range_inv}
use os_project.Proc.{nproc, update}

module _ {ℓ} {A : Type ℓ} (f : ℕ → A → A) where
  pub each_step : ℕ → (ℕ → A) → ℕ → A
  each_step i t = update t i (f i (t i))

  unfoldable pub each : (ℕ → A) → ℕ → A
  each t = for_range nproc 0 each_step t

  -- The loop applies `f` to every slot of the table, and to nothing beyond it.
  pub each_lem : (t : ℕ → A) (j : ℕ) → each t j ≡ (if ltb j nproc then f j (t j) else t j)
  unfolding each each_step
  each_lem t =
      for_range_inv (λ k s. (j : ℕ) → s j ≡ (if ltb j k then f j (t j) else t j)) each_step nproc 0
        nproc t refl (λ k s _ _ h j. ground (arith, h j, h k)) (λ j. ground arith)
