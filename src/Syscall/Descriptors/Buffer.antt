-- ===== src/Syscall/Descriptors/Buffer.antt =====
-- sys_read writes to no memory but the buffer that it was given.
use os_project.Prelude.{ℕ, ◌+◌, ◌<◌, ◌≤◌, ◌≡◌, ◌⊎◌}
use os_project.Prelude.Outcome.{Outcome}
use os_project.Pipe.{Pipe}
use os_project.Fs.File.Labels.{Labels}
use os_project.Fs.File.Read.{file_byte}
use os_project.Files.{File}
use os_project.Syscall.Args.{InUser}
use os_project.Syscall.Descriptors.{Task}

-- The memory after a read of `m` bytes of the file to `p`, of which `n` were asked for.
pub record ReadTo (t : Task) (f p n m : ℕ) (t' : Task) : Type 0 where
  pub buffer : InUser t.user p n
  pub count : m ≤ n
  pub filled :
      (i : ℕ)
      → i < m
      → t'.user.mem (p + i) ≡ file_byte (t.table f).ip t.volume ((t.table f).off + i)
  pub others : (a : ℕ) → (a < p) ⊎ (p + m ≤ a) → t'.user.mem a ≡ t.user.mem a
