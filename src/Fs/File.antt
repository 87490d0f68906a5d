-- ===== src/Fs/File.antt =====
-- readi and writei of fs.c. The source and the target of a copy are memories of their own, indexed from 0.
pub mod Labels
pub mod Step
pub mod Grow
pub mod Map
pub mod Put
pub mod Read
pub mod Write
pub mod Size
use os_project.Prelude.{
  ℕ, zero, suc, ◌+◌, ◌-◌, ◌*◌, ◌/◌, ◌%◌, ◌^◌, Bool, true, false, not, ◌&&◌, ◌||◌, ltb, leb, ◌==◌,
  if◌then◌else◌, Option, none, some,
}
use os_project.Prelude.Int.{ℤ, pos, negsuc}
use os_project.Prelude.Outcome.{Outcome, ok, panic, fault, ◌>>=◌}
use os_project.Fs.{Volume, put_block, block_size}
use os_project.Fs.Bmap.{Inode, bmap, max_file}
use os_project.Fs.Inode.{iupdate}

-- T_DEV, NDEV
abbrev pub t_dev : ℕ
t_dev = 3

abbrev pub ndev : ℕ
ndev = 10

-- The `m` bytes of `from` at `s` in place of those of `to` at `d`: memmove between two memories.
abbrev pub copy : ℕ → ℕ → ℕ → (ℕ → ℕ) → (ℕ → ℕ) → ℕ → ℕ
copy d s m from to i = if leb d i && ltb i (d + m) then from (s + (i - d)) else to i

-- m = min(n - tot, BSIZE - off%BSIZE)
abbrev pub chunk : ℕ → ℕ → ℕ
chunk left off =
    if ltb left (block_size - off % block_size) then left else block_size - off % block_size

-- The loop of readi, with fuel: `left` is n - tot.
unfoldable pub read_loop :
    ℕ → ℕ → ℕ → ℕ → Inode → Volume → (ℕ → ℕ) → Outcome (Inode × Volume × (ℕ → ℕ))
read_loop zero tot left off ip v dst = if left == 0 then ok (ip, v, dst) else fault
read_loop (suc fuel) tot left off ip v dst = elim (left == 0) [
  | true ↦ ok (ip, v, dst)
  | false ↦ do
    (ip', v', b) ← bmap (off / block_size) ip v
    let m = chunk left off
    read_loop fuel (tot + m) (left - m) (off + m) ip' v'
        (copy tot (off % block_size) m (v'.blocks b) dst)
]

-- The loop of writei.
unfoldable pub write_loop : ℕ → ℕ → ℕ → ℕ → (ℕ → ℕ) → Inode → Volume → Outcome (Inode × Volume)
write_loop zero tot left off src ip v = if left == 0 then ok (ip, v) else fault
write_loop (suc fuel) tot left off src ip v = elim (left == 0) [
  | true ↦ ok (ip, v)
  | false ↦ do
    (ip', v', b) ← bmap (off / block_size) ip v
    let m = chunk left off
    write_loop fuel (tot + m) (left - m) (off + m) src ip'
        (put_block b (copy (off % block_size) tot m src (v'.blocks b)) v')
]

-- devsw: what reads and writes a device, by its major number.
pub record Devices : Type 0 where
  pub reads : ℕ → Option ((ℕ → ℕ) → ℕ → (ℕ → ℕ) × ℤ)
  pub writes : ℕ → Option ((ℕ → ℕ) → ℕ → ℤ)

-- The end of a read: the inode, the volume, the target, and the result.
unfoldable pub readi :
    Devices → Inode → Volume → (ℕ → ℕ) → ℕ → ℕ → Outcome (Inode × Volume × (ℕ → ℕ) × ℤ)
readi devsw ip v dst off n =
    if ip.type == t_dev
    then (elim (if leb ndev ip.major then none else devsw.reads ip.major) [
      | none ↦ ok (ip, v, dst, negsuc 0)
      | some read ↦ let (dst', r) = read dst n in ok (ip, v, dst', r)
    ])
    else if ltb ip.size off || ltb ((off + n) % 2 ^ 32) off
    then ok (ip, v, dst, negsuc 0)
    else (let n' = if ltb ip.size (off + n) then ip.size - off else n in
        read_loop n' 0 n' off ip v dst >>= λ (r : Inode × Volume × (ℕ → ℕ)).
        ok (r.0, r.1, r.2, pos n'))

-- The end of writei behind its loop.
abbrev pub grow : ℕ → ℕ → Inode × Volume → Inode × Volume
grow n off (ip, v) =
    if ltb 0 n && ltb ip.size off
    then (record ip { size = off }, iupdate (record ip { size = off }) v)
    else (ip, v)

unfoldable pub writei : Devices → Inode → Volume → (ℕ → ℕ) → ℕ → ℕ → Outcome (Inode × Volume × ℤ)
writei devsw ip v src off n =
    if ip.type == t_dev
    then (elim (if leb ndev ip.major then none else devsw.writes ip.major) [
      | none ↦ ok (ip, v, negsuc 0)
      | some write ↦ ok (ip, v, write src n)
    ])
    else if ltb ((off + n) % 2 ^ 32) off
    then ok (ip, v, negsuc 0)
    else if ltb (max_file * block_size) (off + n)
    then ok (ip, v, negsuc 0)
    else (write_loop n 0 n off src ip v >>= λ (r : Inode × Volume).
        let (ip', v') = grow n (off + n) r in ok (ip', v', pos n))
