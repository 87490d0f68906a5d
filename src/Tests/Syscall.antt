-- ===== src/Tests/Syscall.antt =====
-- A process with the arguments 0, 200 and 100 on its stack, and a file open as 0.
use os_project.Prelude.{ℕ, ◌<◌, ◌≤◌, ◌≡◌, ◌≢◌, ◌⊎◌, refl, arith, update, none, some}
use os_project.Prelude.Int.{pos}
use os_project.Syscall.{User, argint, argptr, fetchint, fetchstr}
use os_project.Syscall.Args.{Pointed, argptr_lem}
use os_project.Syscall.Strings.{IsString, fetchstr_lem}
use os_project.Syscall.Descriptors.{Task}
use os_project.Tests.File.{volume}
use os_project.Tests.Files.{table}

abbrev user : User
user = record { mem = update (update (λ a. 0) 108 200) 112 100; sz = 4096; esp = 100 }

-- The pointer 200 to 100 bytes.
argptr_lem_example : Pointed (pos 100) user (argint 1 user) (argptr 1 (pos 100) user)
argptr_lem_example = argptr_lem 1 (pos 100) user (omega arith) (omega arith)

takes_200 : argptr 1 (pos 100) user ≡ some 200
unfolding argptr argint fetchint
takes_200 = refl

-- 3897 bytes from 200 on end behind the memory.
refuses_200 : argptr 1 (pos 3897) user ≡ none
unfolding argptr argint fetchint
refuses_200 = refl

fetchstr_lem_example :
    ((len : ℕ) × (fetchstr user 108 ≡ some (108, len)) × IsString user 108 len)
    ⊎ ((fetchstr user 108 ≡ none) × ((j : ℕ) → 108 ≤ j → j < 4096 → user.mem j ≢ 0))
fetchstr_lem_example = fetchstr_lem user 108

abbrev task : Task
task = record {
  user = user;
  ofile = update (λ fd. none) 0 (some 0);
  table = table;
  volume = volume;
}
