-- ===== src/Tests/Proc.antt =====
-- Runs of the operations on the process table, and their theorems at concrete inputs.
use os_project.Prelude.{ℕ}
use os_project.Prelude.Int.{ℤ}
use os_project.Prelude.Outcome.{Outcome, ok, panic, fault}
use os_project.Proc.{sleeping, proc, Kernel, modify}
use os_project.Tests.Fixtures.{shares, services, queued}

-- Slot 1 sleeps on its own address, as in wait.
abbrev waiting : Kernel ℤ ℕ
waiting = modify 1 (λ p. record p { state = sleeping; chan = proc 1 }) queued

-- The state and the result of a call that succeeds.
abbrev state_after : Outcome (Kernel ℤ ℕ × ℤ) → Kernel ℤ ℕ
state_after (ok (k, r)) = k
state_after panic = queued
state_after fault = queued
