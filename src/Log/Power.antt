-- ===== src/Log/Power.antt =====
-- The disk and the buffer cache as log.c uses them, and the loss of power.
use os_project.Prelude.{ℕ, zero, suc, Option, none, some, update}

-- The words of a block, and the blocks of a disk.
abbrev pub Block : Type 0
Block = ℕ → ℕ

abbrev pub Disk : Type 0
Disk = ℕ → Block

-- `cache` holds the buffers that are dirty; a clean buffer has what the disk has. The power fails
-- when `writes` blocks have been written.
pub record Machine : Type 0 where
  pub disk : Disk
  pub cache : ℕ → Option Block
  pub writes : ℕ

-- The end of a piece of code: it goes on, or the power is off, and the disk is left.
pub data Powered (A : Type 0) : Type 0 where
  on : A → Powered A
  off : Disk → Powered A

infixl 5 ◌>>=◌
abbrev pub ◌>>=◌ : {A B : Type 0} → Powered A → (A → Powered B) → Powered B
on a >>= f = f a
off d >>= f = off d

-- bread: the contents of the cached block, or of the disk's.
unfoldable pub bread : Machine → ℕ → Block
bread m b = elim (m.cache b) [ none ↦ m.disk b | some w ↦ w ]

-- bwrite of a buffer with the contents `w`, which leaves it clean
unfoldable pub bwrite : ℕ → Block → Machine → Powered Machine
bwrite b w m = elim m.writes [
  | zero ↦ off m.disk
  | suc n ↦ on (record { disk = update m.disk b w; cache = update m.cache b none; writes = n })
]
