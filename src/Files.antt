-- ===== src/Files.antt =====
-- xv6-public/file.c: reads and writes of an open file, over pipes and inodes.
pub mod Chunks
pub mod Write
pub mod Read
pub mod Holes
pub mod Table
use os_project.Prelude.{
  ℕ, zero, suc, ◌+◌, ◌-◌, ◌%◌, ◌^◌, Bool, true, false, not, List, [], ◌∷◌, ltb, ◌==◌, if◌then◌else◌,
  length,
}
use os_project.Prelude.Int.{ℤ, pos, negsuc}
use os_project.Prelude.Outcome.{Outcome, ok, panic, fault, ◌>>=◌}
use os_project.Pipe.{
  Pipe, WriteEnd, wrote, write_failed, write_sleeps, pipewrite, ReadEnd, read, read_failed,
  read_sleeps, piperead,
}
use os_project.Fs.{Volume}
use os_project.Fs.Bmap.{Inode}
use os_project.Fs.Inode.{ilock}
use os_project.Fs.File.{Devices, readi, writei}

pub data FileType : Type 0 where
  fd_none : FileType
  fd_pipe : FileType
  fd_inode : FileType

-- struct file, with what its pointers point to.
pub record File : Type 0 where
  pub type : FileType
  pub ref : ℕ
  pub readable : Bool
  pub writable : Bool
  pub pipe : Pipe
  pub ip : Inode
  pub off : ℕ

-- A call returns, or it sleeps on the pipe.
pub data Call (A : Type 0) : Type 0 where
  returned : File → Volume → A → Call A
  asleep : File → Volume → Call A

-- The count of bytes of one transaction: ((MAXOPBLOCKS-1-1-2) / 2) * 512
abbrev pub max_chunk : ℕ
max_chunk = 1536

unfoldable pub bytes_from : ℕ → ℕ → (ℕ → ℕ) → List ℕ
bytes_from zero i addr = []
bytes_from (suc n) i addr = addr i ∷ bytes_from n (i + 1) addr

abbrev pub piped : File → Volume → ℕ → WriteEnd → Call ℤ
piped f v n (wrote p) = returned (record f { pipe = p }) v (pos n)
piped f v n (write_failed p) = returned (record f { pipe = p }) v (negsuc 0)
piped f v n (write_sleeps bs p) = asleep (record f { pipe = p }) v

-- The cases of a call by the type of the file.
abbrev pub of_type {ℓ} : {A : Type ℓ} → FileType → A → A → A → A
of_type fd_none none pipe inode = none
of_type fd_pipe none pipe inode = pipe
of_type fd_inode none pipe inode = inode

-- n1
abbrev pub chunk_of : ℕ → ℕ
chunk_of left = if ltb max_chunk left then max_chunk else left

-- The loop of filewrite and pfilewrite, with fuel. The volume counts the call among those in a transaction, as
-- begin_op and end_op around each chunk make it. `next` is the offset behind a chunk of the length it is given.
unfoldable pub write_chunks :
    Devices
    → (ℕ → ℕ → ℕ)
    → ℕ
    → ℕ
    → ℕ
    → (ℕ → ℕ)
    → ℕ
    → Inode
    → Volume
    → Outcome (ℕ × ℕ × Inode × Volume)
write_chunks devsw next zero i n addr off ip v = if ltb i n then fault else ok (i, off, ip, v)
write_chunks devsw next (suc fuel) i n addr off ip v = elim (ltb i n) [
  | false ↦ ok (i, off, ip, v)
  | true ↦ do
    let n1 = chunk_of (n - i)
    ip1 ← ilock ip v
    (ip2, v2, r) ← writei devsw ip1 v (λ k. addr (i + k)) off n1
    elim r [
      | negsuc e ↦ ok (i, off, ip2, v2)
      | pos k ↦
          if k == n1 then write_chunks devsw next fuel (i + k) n addr (next off k) ip2 v2 else panic
    ]
]

-- The end of the calls on an inode: i == n ? n : -1
abbrev pub chunks_end : ℕ → ℕ → ℤ
chunks_end i n = if i == n then pos n else negsuc 0

abbrev pub advance : ℕ → ℕ → ℕ
advance off k = (off + k) % 2 ^ 32

abbrev pub stay : ℕ → ℕ → ℕ
stay off k = off

unfoldable pub filewrite :
    Devices → Bool → List ((Pipe → Pipe) × Bool) → (ℕ → ℕ) → ℕ → File → Volume → Outcome (Call ℤ)
filewrite devsw killed sleeps addr n f v =
    if not f.writable
    then ok (returned f v (negsuc 0))
    else of_type f.type panic
        (ok (piped f v n (pipewrite killed sleeps (bytes_from n 0 addr) f.pipe)))
        (write_chunks devsw advance n 0 n addr f.off f.ip v >>= λ (r : ℕ × ℕ × Inode × Volume).
          ok (returned (record f { off = r.1; ip = r.2 }) r.3 (chunks_end r.0 n)))

unfoldable pub pfilewrite :
    Devices
    → Bool
    → List ((Pipe → Pipe) × Bool)
    → (ℕ → ℕ)
    → ℕ
    → ℕ
    → File
    → Volume
    → Outcome (Call ℤ)
pfilewrite devsw killed sleeps addr n off f v =
    if not f.writable
    then ok (returned f v (negsuc 0))
    else of_type f.type panic
        (ok (piped f v n (pipewrite killed sleeps (bytes_from n 0 addr) f.pipe)))
        (write_chunks devsw stay n 0 n addr off f.ip v >>= λ (r : ℕ × ℕ × Inode × Volume).
          ok (returned (record f { ip = r.2 }) r.3 (chunks_end r.0 n)))
