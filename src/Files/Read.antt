-- ===== src/Files/Read.antt =====
-- fileread, pfileread and filestat.
use os_project.Prelude.{
  ℕ, ◌+◌, ◌-◌, ◌*◌, ◌^◌, ◌<◌, ◌≤◌, ◌≡◌, ◌⊎◌, inl, inr, ◌∙◌, refl, ap, Bool, true, not, ltb,
  if◌then◌else◌, arith, update, List, [], ◌∷◌, length,
}
use os_project.Prelude.Int.{ℤ, pos, negsuc}
use os_project.Prelude.Outcome.{Outcome, ok, panic, ◌>>=◌}
use os_project.Pipe.{Pipe, ReadEnd, read, read_failed, read_sleeps, piperead}
use os_project.Fs.{Volume, block_size}
use os_project.Fs.Bmap.{Inode, max_file}
use os_project.Fs.Inode.{ilock}
use os_project.Fs.File.{Devices, readi}
use os_project.Fs.File.Labels.{Labels}
use os_project.Fs.File.Grow.{Fills}
use os_project.Fs.File.Read.{OutOfFile, available, HasRead, readi_lem}
use os_project.Files.{FileType, fd_inode, of_type, File, Call, returned, asleep, advance, stay}
use os_project.Files.Chunks.{Ready, locks}

-- The bytes of a pipe at addr, from `i` on.
unfoldable pub store : List ℕ → ℕ → (ℕ → ℕ) → ℕ → ℕ
store [] i dst = dst
store (b ∷ bs) i dst = store bs (i + 1) (update dst i b)

-- The target of a read, and the result.
abbrev pub Read : Type 0
Read = (ℕ → ℕ) × ℤ

abbrev pub from_pipe : (ℕ → ℕ) → File → Volume → ReadEnd → Call Read
from_pipe dst f v (read bs p) = returned (record f { pipe = p }) v (store bs 0 dst, pos (length bs))
from_pipe dst f v (read_failed p) = returned (record f { pipe = p }) v (dst, negsuc 0)
from_pipe dst f v (read_sleeps p) = asleep (record f { pipe = p }) v

-- if((r = readi(f->ip, addr, f->off, n)) > 0) f->off += r;
abbrev pub go_on : (ℕ → ℕ → ℕ) → ℕ → ℤ → ℕ
go_on next off (pos k) = next off k
go_on next off (negsuc k) = off

-- The reads of an inode at `off`, where `next` is the offset of the file afterwards.
abbrev pub read_inode :
    Devices → (ℕ → ℕ → ℕ) → ℕ → (ℕ → ℕ) → ℕ → File → Volume → Outcome (Call Read)
read_inode devsw next off dst n f v = do
  ip1 ← ilock f.ip v
  (ip2, v2, dst2, r) ← readi devsw ip1 v dst off n
  ok (returned (record f { off = go_on next f.off r; ip = ip2 }) v2 (dst2, r))

unfoldable pub fileread :
    Devices → Bool → List ((Pipe → Pipe) × Bool) → (ℕ → ℕ) → ℕ → File → Volume → Outcome (Call Read)
fileread devsw killed sleeps dst n f v =
    if not f.readable
    then ok (returned f v (dst, negsuc 0))
    else of_type f.type panic (ok (from_pipe dst f v (piperead killed sleeps n f.pipe)))
        (read_inode devsw advance f.off dst n f v)

unfoldable pub pfileread :
    Devices
    → Bool
    → List ((Pipe → Pipe) × Bool)
    → (ℕ → ℕ)
    → ℕ
    → ℕ
    → File
    → Volume
    → Outcome (Call Read)
pfileread devsw killed sleeps dst n off f v =
    if not f.readable
    then ok (returned f v (dst, negsuc 0))
    else of_type f.type panic (ok (from_pipe dst f v (piperead killed sleeps n f.pipe)))
        (read_inode devsw stay off dst n f v)

-- struct stat
pub record Stat : Type 0 where
  pub type : ℕ
  pub dev : ℕ
  pub ino : ℕ
  pub nlink : ℕ
  pub size : ℕ

abbrev pub stati : Inode → Stat
stati ip = record { type = ip.type; dev = ip.dev; ino = ip.inum; nlink = ip.nlink; size = ip.size }

unfoldable pub filestat : File → Volume → Stat → Outcome (File × Stat × ℤ)
filestat f v st =
    of_type f.type (ok (f, st, negsuc 0)) (ok (f, st, negsuc 0))
      (ilock f.ip v >>= λ ip. ok (record f { ip = ip }, stati ip, pos 0))

pub branch :
    {A : Type 0} (x y z u : A) (w : Bool) (t : FileType)
    → w ≡ true
    → t ≡ fd_inode
    → (if not w then x else of_type t y z u) ≡ u
branch x y z u w t e g = rw (e, g) refl

pub filestat_lem :
    (f : File) (v : Volume) (st : Stat)
    → f.type ≡ fd_inode
    → (1 ≤ f.ip.ref) × (f.ip.valid ≡ true)
    → filestat f v st ≡ ok (record f { ip = f.ip }, stati f.ip, pos 0)
unfolding filestat
filestat_lem f v st t live =
    ap
      (λ q.
        of_type q (ok (f, st, negsuc 0)) (ok (f, st, negsuc 0))
          (ilock f.ip v >>= λ ip. ok (record f { ip = ip }, stati ip, pos 0)))
      t
    ∙ ap (λ q. q >>= λ ip. ok (record f { ip = ip }, stati ip, pos 0)) (locks f.ip v live)

no_wrap :
    (off n size : ℕ)
    → off ≤ size
    → size ≤ max_file * block_size
    → advance off (if ltb size (off + n) then size - off else n)
      ≡ off + (if ltb size (off + n) then size - off else n)
no_wrap off n size l m = ground arith

-- fileread of a readable file with an inode that is no device, which is in use and read from the
-- disk, and no longer than the largest file: behind the size it is -1 and nothing changes.
-- Otherwise it panics, and then no block of the volume is free or no call is in a transaction, or
-- it returns the bytes that the file has at the offset, up to the size, goes on by their count,
-- and no byte of the file changes. fileread opens no transaction itself.
pub fileread_lem :
    (devsw : Devices) (killed : Bool) (sleeps : List ((Pipe → Pipe) × Bool)) (ls : Labels)
    (dst : ℕ → ℕ) (n : ℕ) (f : File) (v : Volume)
    → f.readable ≡ true
    → f.type ≡ fd_inode
    → Ready ls f.ip v
    → f.ip.size ≤ max_file * block_size
    → f.off < 2 ^ 32
    → n < 2 ^ 32
    → (OutOfFile f.ip f.off n
        × (fileread devsw killed sleeps dst n f v
            ≡ ok (returned (record f { ip = f.ip }) v (dst, negsuc 0))))
      ⊎ ((f.off ≤ f.ip.size)
          × (((fileread devsw killed sleeps dst n f v ≡ panic) × Fills v)
              ⊎ ((ip' : Inode) × (v' : Volume) × (dst' : ℕ → ℕ) × (ls' : Labels) × (fileread devsw
                      killed sleeps dst n f v
                    ≡ ok (
                        returned
                          (record f { off = f.off + available f.ip f.off n; ip = ip' })
                          v'
                          (dst', pos (available f.ip f.off n))))
                  × HasRead ls 0 (available f.ip f.off n) f.off f.ip v dst ls' ip' v' dst')))
unfolding fileread
fileread_lem devsw killed sleeps ls dst n f v w t r small lo ln =
    let through =
      branch (ok (returned f v (dst, negsuc 0))) panic
        (ok (from_pipe dst f v (piperead killed sleeps n f.pipe)))
        (read_inode devsw advance f.off dst n f v) f.readable f.type w t
      ∙ ap (λ q. q >>= after) (locks f.ip v r.live) in
    elim (readi_lem devsw ls f.ip v dst f.off n r.file r.volume r.tree small lo ln) [
      | inl (out, e) ↦ inl (out, through ∙ ap (λ q. q >>= last) e)
      | inr (inside, sum, inl (e, full)) ↦
          inr (inside, inl (through ∙ ap (λ q. q >>= last) e, full))
      | inr (inside, sum, inr (ip', v', dst', ls', e, h)) ↦ inr (
        inside,
        inr (
          ip',
          v',
          dst',
          ls',
          through
              ∙ ap (λ q. q >>= last) e
              ∙ ap
                  (λ q. ok (
                    returned (record f { off = q; ip = ip' }) v'
                      (dst', pos (available f.ip f.off n))))
                  (no_wrap f.off n f.ip.size inside small),
          h,
        ),
      )
    ]
  where
    last : Inode × Volume × (ℕ → ℕ) × ℤ → Outcome (Call Read)
    last q = ok (returned (record f { off = go_on advance f.off q.3; ip = q.0 }) q.1 (q.2, q.3))

    after : Inode → Outcome (Call Read)
    after ip = readi devsw ip v dst f.off n >>= last
