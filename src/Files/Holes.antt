-- ===== src/Files/Holes.antt =====
-- fileread while no call is in a transaction: it does not open one itself.
use os_project.Prelude.{
  ℕ, zero, suc, ◌+◌, ◌-◌, ◌*◌, ◌/◌, ◌%◌, ◌^◌, ◌<◌, ◌≤◌, ◌≡◌, ◌≢◌, ◌⊎◌, inl, inr, ◌∙◌, refl, sym, ap,
  Bool, true, false, ltb, ◌||◌, ◌==◌, arith, Bool-cases, List,
}
use os_project.Prelude.Int.{ℤ, pos, negsuc}
use os_project.Prelude.Outcome.{Outcome, ok, panic, ◌>>=◌}
use os_project.Pipe.{Pipe, piperead}
use os_project.Fs.{Volume, block_size}
use os_project.Fs.Free.{IsVolume}
use os_project.Fs.Bmap.{Inode, bmap, max_file}
use os_project.Fs.Bmap.Address.{address_of, IsFile, bmap_lem}
use os_project.Fs.Bmap.Hole.{bmap-hole}
use os_project.Fs.File.{Devices, t_dev, copy, chunk, read_loop, readi}
use os_project.Fs.File.Read.{chunk_bounds, same_block, available}
use os_project.Files.{File, fd_inode, Call, returned, advance}
use os_project.Files.Chunks.{locks}
use os_project.Files.Read.{Read, branch, from_pipe, go_on, read_inode, fileread}

-- A block that is there is found, and nothing changes.
bmap-there :
    (bn : ℕ) (ip : Inode) (v : Volume)
    → IsVolume v
    → IsFile ip v
    → bn < max_file
    → address_of ip v bn ≢ 0
    → bmap bn ip v ≡ ok (ip, v, address_of ip v bn)
bmap-there bn ip v h f l n = elim (bmap_lem bn ip v h f l) [
  | inl (_, z, _, _, _) ↦ absurd (n z)
  | inr (ip', v', b, e, m) ↦ let (i, w, a) = m.stays n in e ∙ λ t. ok (i t, w t, a t)
]

-- The bytes `off` to `off + left` of the file have a hole at `x`.
pub record HasHole (ip : Inode) (v : Volume) (off left x : ℕ) : Type 0 where
  pub low : off ≤ x
  pub high : x < off + left
  pub hole : address_of ip v (x / block_size) ≡ 0

-- They have none.
abbrev pub IsWhole : Inode → Volume → ℕ → ℕ → Type 0
IsWhole ip v off left = (x : ℕ) → off ≤ x → x < off + left → address_of ip v (x / block_size) ≢ 0

abbrev LoopEnds : Inode → Volume → ℕ → ℕ → Outcome (Inode × Volume × (ℕ → ℕ)) → Type 0
LoopEnds ip v off left r =
    ((x : ℕ) × HasHole ip v off left x × (r ≡ panic))
    ⊎ ((dst : ℕ → ℕ) × IsWhole ip v off left × (r ≡ ok (ip, v, dst)))

-- The bytes of a chunk are those of its block.
chunk-IsWhole :
    (ip : Inode) (v : Volume) (off left : ℕ)
    → left ≢ 0
    → address_of ip v (off / block_size) ≢ 0
    → IsWhole ip v (off + chunk left off) (left - chunk left off)
    → IsWhole ip v off left
chunk-IsWhole ip v off left n there rest x low high =
    elim (Bool-cases (ltb x (off + chunk left off))) [
      | inr far ↦
          let (one, most, within) = chunk_bounds left off n in
          rest x (ground arith) (omega (arith, most))
      | inl near ↦ λ z.
          let (one, most, within) = chunk_bounds left off n in
          let same = (same_block off (chunk left off) (x - off) within (ground arith)).0 in
          let e : off + (x - off) ≡ x = omega arith in
          there (ap (address_of ip v) (sym same ∙ ap (λ q. q / block_size) e) ∙ z)
    ]

read_loop-LoopEnds :
    (fuel tot left off : ℕ) (ip : Inode) (v : Volume) (dst : ℕ → ℕ)
    → IsVolume v
    → IsFile ip v
    → v.outstanding ≡ 0
    → left ≤ fuel
    → off + left ≤ max_file * block_size
    → LoopEnds ip v off left (read_loop fuel tot left off ip v dst)
unfolding read_loop
read_loop-LoopEnds zero tot left off ip v dst h f idle enough fits =
    let none : (left == 0) ≡ true = ground arith in
    inr (dst, (λ x low high. absurd (omega arith)), rw none refl)
read_loop-LoopEnds (suc fuel) tot left off ip v dst h f idle enough fits =
    elim (Bool-cases (left == 0)) [
      | inl none ↦ inr (dst, (λ x low high. absurd (ground arith)), rw (none, read_loop) refl)
      | inr more ↦
          let n : left ≢ 0 = ground arith in
          let inside : off / block_size < max_file = omega arith in
          elim (Bool-cases (address_of ip v (off / block_size) == 0)) [
            | inl here ↦ inl (
              off,
              record { low = omega arith; high = omega arith; hole = ground arith },
              rw (more, bmap-hole (off / block_size) ip v inside idle (ground arith), read_loop)
                  refl,
            )
            | inr there ↦
                let m = chunk left off in
                let b = address_of ip v (off / block_size) in
                let nz : b ≢ 0 = ground arith in
                let (one, most, within) = chunk_bounds left off n in
                rw (more, bmap-there (off / block_size) ip v h f inside nz, read_loop)
                  (elim (read_loop-LoopEnds fuel (tot + m) (left - m) (off + m) ip v
                    (copy tot (off % block_size) m (v.blocks b) dst) h f idle
                    (omega (arith, one, enough)) (omega (arith, most, fits))) [
                      | inl (x, at, e) ↦ inl (
                        x,
                        record {
                          low = omega (arith, at.low);
                          high = omega (arith, most, at.high);
                          hole = at.hole;
                        },
                        e,
                      )
                      | inr (dst', whole, e) ↦ inr (dst', chunk-IsWhole ip v off left n nz whole, e)
                    ])
          ]
    ]

-- fileread within the size of a readable file with an inode that is no device, which is in use and read
-- from the disk, with its blocks and tables in use on a well-formed volume, while no call is in a
-- transaction: it panics, and then the file has no block for one of the bytes to be read, or it has a
-- block for each, and fileread returns their count, goes on by it, and changes neither the inode nor
-- the volume.
pub fileread_alone :
    (devsw : Devices) (killed : Bool) (sleeps : List ((Pipe → Pipe) × Bool)) (dst : ℕ → ℕ) (n : ℕ)
    (f : File) (v : Volume)
    → f.readable ≡ true
    → f.type ≡ fd_inode
    → f.ip.type ≢ t_dev
    → (1 ≤ f.ip.ref) × (f.ip.valid ≡ true)
    → IsVolume v
    → IsFile f.ip v
    → v.outstanding ≡ 0
    → f.off ≤ f.ip.size
    → f.ip.size ≤ max_file * block_size
    → f.off + n < 2 ^ 32
    → ((x : ℕ) × HasHole f.ip v f.off (available f.ip f.off n) x
        × (fileread devsw killed sleeps dst n f v ≡ panic))
      ⊎ ((dst' : ℕ → ℕ) × IsWhole f.ip v f.off (available f.ip f.off n)
          × (fileread devsw killed sleeps dst n f v
              ≡ ok (
                  returned
                    (record f { off = advance f.off (available f.ip f.off n) })
                    v
                    (dst', pos (available f.ip f.off n)))))
unfolding fileread readi
fileread_alone devsw killed sleeps dst n f v r t file live h tree idle low small sum =
    let m = available f.ip f.off n in
    let through =
      branch (ok (returned f v (dst, negsuc 0))) panic
        (ok (from_pipe dst f v (piperead killed sleeps n f.pipe)))
        (read_inode devsw advance f.off dst n f v) f.readable f.type r t
      ∙ ap (λ q. q >>= after) (locks f.ip v live) in
    let disk : (f.ip.type == t_dev) ≡ false = ground arith in
    let inside : (ltb f.ip.size f.off || ltb ((f.off + n) % 2 ^ 32) f.off) ≡ false = ground arith in
    let start : readi devsw f.ip v dst f.off n ≡ (read_loop m 0 m f.off f.ip v dst >>= counted) =
      rw (disk, inside, readi) refl in
    let on : fileread devsw killed sleeps dst n f v
        ≡ (read_loop m 0 m f.off f.ip v dst >>= counted >>= last) =
      through ∙ ap (λ q. q >>= last) start in
    elim (read_loop-LoopEnds m 0 m f.off f.ip v dst h tree idle (omega arith) (fits low)) [
      | inl (x, at, e) ↦ inl (x, at, on ∙ ap (λ q. q >>= counted >>= last) e)
      | inr (dst', whole, e) ↦ inr (dst', whole, on ∙ ap (λ q. q >>= counted >>= last) e)
    ]
  where
    counted : Inode × Volume × (ℕ → ℕ) → Outcome (Inode × Volume × (ℕ → ℕ) × ℤ)
    counted r = ok (r.0, r.1, r.2, pos (available f.ip f.off n))

    last : Inode × Volume × (ℕ → ℕ) × ℤ → Outcome (Call Read)
    last q = ok (returned (record f { off = go_on advance f.off q.3; ip = q.0 }) q.1 (q.2, q.3))

    after : Inode → Outcome (Call Read)
    after ip = readi devsw ip v dst f.off n >>= last

    fits : f.off ≤ f.ip.size → f.off + available f.ip f.off n ≤ max_file * block_size
    fits l = ground arith
