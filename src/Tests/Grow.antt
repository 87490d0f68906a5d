-- ===== src/Tests/Grow.antt =====
-- A run of growproc, and its theorem at a concrete input.
use os_project.Prelude.{◌≡◌, refl, sym, ap, inr, for_range, ℕ}
use os_project.Prelude.Int.{ℤ, pos}
use os_project.Prelude.Outcome.{Outcome, ok, panic, fault, ok-injective}
use os_project.Proc.{Kernel}
use os_project.Proc.Table.{each}
use os_project.Proc.Grow.{Resizes, grow_other, set_sizes, resize, growproc}
use os_project.Tests.Fixtures.{services, threaded}

abbrev grown : Outcome (Kernel ℤ ℕ × ℤ) → Kernel ℤ ℕ
grown (ok (k, r)) = k
grown panic = threaded
grown fault = threaded

services-Resizes : Resizes services
services-Resizes = record {
  grows = λ l e. inr (sym (ap (λ p. p.0) (ok-injective e)));
  shrinks = λ l e. sym (ap (λ p. p.0) (ok-injective e));
}

-- The thread in slot 2 grows with the process in slot 1.
grows_by_8192 : growproc 1 (pos 8192) threaded ≡ ok (grown (growproc 1 (pos 8192) threaded), pos 0)
unfolding growproc resize set_sizes grow_other each for_range
grows_by_8192 = refl
