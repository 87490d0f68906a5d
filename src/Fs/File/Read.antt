-- ===== src/Fs/File/Read.antt =====
-- readi: the bytes of the file.
use os_project.Prelude.{
  ℕ, zero, suc, ◌+◌, ◌-◌, ◌*◌, ◌/◌, ◌%◌, ◌^◌, ◌<◌, ◌≤◌, ◌≡◌, ◌≢◌, ◌⊎◌, inl, inr, ◌∙◌, refl, sym, ap,
  Bool, true, false, ◌&&◌, ◌||◌, leb, ltb, ◌==◌, if◌then◌else◌, arith, Bool-cases,
}
use mathlib.Core.Path.{ap₂}
use os_project.Prelude.Int.{pos, negsuc}
use os_project.Prelude.Outcome.{Outcome, ok, panic}
use os_project.Fs.{Volume, block_size}
use os_project.Fs.Free.{IsVolume}
use os_project.Fs.Bmap.{Inode, max_file}
use os_project.Fs.File.{Devices, t_dev, copy, chunk, read_loop, readi}
use os_project.Fs.File.Labels.{Labels, IsTree}
use os_project.Fs.File.Step.{content_at}
use os_project.Fs.File.Grow.{Fills, Fills-before}
use os_project.Fs.File.Map.{content_of, Mapped, bmap-Mapped}
use os_project.Fs.File.Put.{Later, Later-refl, Later-trans, Kept-Later}

-- Byte `x` of the file.
abbrev pub file_byte : Inode → Volume → ℕ → ℕ
file_byte ip v x = content_of ip v (x / block_size) (x % block_size)

pub chunk_bounds :
    (left off : ℕ)
    → left ≢ 0
    → (1 ≤ chunk left off)
      × (chunk left off ≤ left)
      × (off % block_size + chunk left off ≤ block_size)
chunk_bounds left off n = (ground arith, ground arith, ground arith)

pub same_block :
    (off m k : ℕ)
    → off % block_size + m ≤ block_size
    → k < m
    → ((off + k) / block_size ≡ off / block_size) × ((off + k) % block_size ≡ off % block_size + k)
same_block off m k h l = (omega arith, omega arith)

-- The block of the file holds the bytes that the copy takes.
pub block_byte :
    (ls ls' : Labels) (ip ip' : Inode) (v v' : Volume) (b off m k : ℕ)
    → Mapped ls (off / block_size) ip v ls' ip' v' b
    → off < max_file * block_size
    → off % block_size + m ≤ block_size
    → k < m
    → v'.blocks b (off % block_size + k) ≡ file_byte ip v (off + k)
block_byte ls ls' ip ip' v v' b off m k mp l h lk =
    let (same, at) = same_block off m k h lk in
    let o = off % block_size + k in
    sym (there (b == 0) (v'.blocks b o) (nonzero b mp.at.held.high))
    ∙ ap (λ q. content_at v' q o) (sym mp.is)
    ∙ mp.contents (off / block_size) o (omega arith)
    ∙ ap₂ (λ p q. content_of ip v p q) (sym same) (sym at)
  where
    there : (t : Bool) (x : ℕ) → t ≡ false → (if t then 0 else x) ≡ x
    there t x e = ground arith

    nonzero : (b : ℕ) → 1 < b → (b == 0) ≡ false
    nonzero b l = ground arith

-- A loop that keeps the bytes of the file, and copies `left` of them from `off` to `tot`.
pub record HasRead (ls : Labels) (tot left off : ℕ) (ip : Inode) (v : Volume) (dst : ℕ → ℕ)
    (ls' : Labels) (ip' : Inode) (v' : Volume) (dst' : ℕ → ℕ) : Type 0 where
  pub volume : IsVolume v'
  pub tree : IsTree ls' ip' v'
  pub later : Later ls ls' v v'
  pub same : ip' ≡ record ip { addrs = ip'.addrs }
  pub bytes : (x : ℕ) → x < max_file * block_size → file_byte ip' v' x ≡ file_byte ip v x
  pub out :
      (i : ℕ)
      → dst' i
        ≡ (if leb tot i && ltb i (tot + left) then file_byte ip v (off + (i - tot)) else dst i)

abbrev pub ReadEnds :
    Labels → ℕ → ℕ → ℕ → Inode → Volume → (ℕ → ℕ) → Outcome (Inode × Volume × (ℕ → ℕ)) → Type 0
ReadEnds ls tot left off ip v dst r =
    ((r ≡ panic) × Fills v)
    ⊎ ((ip' : Inode) × (v' : Volume) × (dst' : ℕ → ℕ) × (ls' : Labels) × (r ≡ ok (ip', v', dst'))
        × HasRead ls tot left off ip v dst ls' ip' v' dst')

nothing_read :
    (ls : Labels) (tot off : ℕ) (ip : Inode) (v : Volume) (dst : ℕ → ℕ)
    → IsVolume v
    → IsTree ls ip v
    → (left : ℕ) → left ≡ 0
    → HasRead ls tot left off ip v dst ls ip v dst
nothing_read ls tot off ip v dst h t left e = record {
  volume = h;
  tree = t;
  later = Later-refl ls v;
  same = refl;
  bytes = λ x l. refl;
  out = λ i. none_of i (file_byte ip v (off + (i - tot))) (dst i);
}
  where
    none_of : (i x y : ℕ) → y ≡ (if leb tot i && ltb i (tot + left) then x else y)
    none_of i x y = ground arith

-- The bytes that the rest copies are bytes of the file as it was.
pub rest_of :
    (t : Bool) (x x' y : ℕ) → (t ≡ true → x ≡ x') → (if t then x else y) ≡ (if t then x' else y)
rest_of true x x' y e = e refl
rest_of false x x' y e = refl

after_chunk :
    (ls ls' : Labels) (ip ip' : Inode) (v v' : Volume) (bn b tot m left off i : ℕ)
    → Mapped ls bn ip v ls' ip' v' b
    → off + left ≤ max_file * block_size
    → (leb (tot + m) i && ltb i (tot + m + (left - m))) ≡ true
    → file_byte ip' v' (off + m + (i - (tot + m))) ≡ file_byte ip v (off + (i - tot))
after_chunk ls ls' ip ip' v v' bn b tot m left off i mp fits e =
    let at : off + m + (i - (tot + m)) ≡ off + (i - tot) = ground arith in
    let inside : off + (i - tot) < max_file * block_size = ground arith in
    ap (file_byte ip' v') at
    ∙ mp.contents ((off + (i - tot)) / block_size) ((off + (i - tot)) % block_size) (omega arith)

-- The target after a chunk and the rest.
pub two_copies :
    (tot m left i : ℕ) (x y z : ℕ)
    → m ≤ left
    → (tot ≤ i → i < tot + m → y ≡ x)
    → (if leb (tot + m) i && ltb i (tot + m + (left - m))
        then x
        else if leb tot i && ltb i (tot + m)
        then y
        else z)
      ≡ (if leb tot i && ltb i (tot + left) then x else z)
two_copies tot m left i x y z l e = ground arith

pub read_loop_lem :
    (fuel tot left off : ℕ) (ls : Labels) (ip : Inode) (v : Volume) (dst : ℕ → ℕ)
    → IsVolume v
    → IsTree ls ip v
    → left ≤ fuel
    → off + left ≤ max_file * block_size
    → ReadEnds ls tot left off ip v dst (read_loop fuel tot left off ip v dst)
unfolding read_loop
read_loop_lem zero tot left off ls ip v dst h t enough fits =
    let z : (left == 0) ≡ true = ground arith in
    inr (ip, v, dst, ls, rw z refl, nothing_read ls tot off ip v dst h t left (omega arith))
read_loop_lem (suc fuel) tot left off ls ip v dst h t enough fits = elim (Bool-cases (left == 0)) [
  | inl z ↦ inr (
    ip,
    v,
    dst,
    ls,
    rw (z, read_loop) refl,
    nothing_read ls tot off ip v dst h t left (ground arith),
  )
  | inr more ↦
      let n : left ≢ 0 = ground arith in
      let (one, most, inside) = chunk_bounds left off n in
      let m = chunk left off in
      elim (bmap-Mapped ls (off / block_size) ip v h t (omega arith)) [
        | inl (e, full) ↦ inl (rw (more, e, read_loop) refl, full)
        | inr (ip1, v1, b, ls1, e, mp) ↦
            let dst1 = copy tot (off % block_size) m (v1.blocks b) dst in
            elim (read_loop_lem fuel (tot + m) (left - m) (off + m) ls1 ip1 v1 dst1 mp.volume
              mp.tree (omega arith) (omega arith)) [
                | inl (e', full) ↦ inl (
                  rw (more, e, e', read_loop) refl,
                  Fills-before v v1 mp.kept.grew.sb_is mp.kept.grew.trans_is mp.kept.grew.used full,
                )
                | inr (ip2, v2, dst2, ls2, e', r) ↦ inr (
                  ip2,
                  v2,
                  dst2,
                  ls2,
                  rw (more, e, e', read_loop) refl,
                  (record {
                    volume = r.volume;
                    tree = r.tree;
                    later = Later-trans ls ls1 ls2 v v1 v2 (Kept-Later ls ls1 v v1 mp.kept) r.later;
                    same = r.same ∙ ap (λ (x : Inode). record x { addrs = ip2.addrs }) mp.same;
                    bytes = λ x l.
                        r.bytes x l ∙ mp.contents (x / block_size) (x % block_size) (omega arith);
                    out = λ i.
                        r.out i
                        ∙ rest_of (leb (tot + m) i && ltb i (tot + m + (left - m))) _
                            (file_byte ip v (off + (i - tot))) (dst1 i)
                            (after_chunk ls ls1 ip ip1 v v1 (off / block_size) b tot m left off i mp
                              fits)
                        ∙ two_copies tot m left i _ _ (dst i) most (λ low up.
                          block_byte ls ls1 ip ip1 v v1 b off m (i - tot) mp (omega arith) inside
                            (omega arith));
                  }),
                )
              ]
      ]
]

-- The count of bytes that a read finds.
abbrev pub available : Inode → ℕ → ℕ → ℕ
available ip off n = if ltb ip.size (off + n) then ip.size - off else n

abbrev pub OutOfFile : Inode → ℕ → ℕ → Type 0
OutOfFile ip off n = (ip.size < off) ⊎ (2 ^ 32 ≤ off + n)

out_of :
    (size off n : ℕ)
    → off < 2 ^ 32
    → n < 2 ^ 32
    → (((ltb size off || ltb ((off + n) % 2 ^ 32) off) ≡ true)
        × ((size < off) ⊎ (2 ^ 32 ≤ off + n)))
      ⊎ (((ltb size off || ltb ((off + n) % 2 ^ 32) off) ≡ false)
          × (off ≤ size)
          × (off + n < 2 ^ 32))
out_of size off n a b = elim (Bool-cases (ltb size off)) [
  | inl e ↦ inl (rw e refl, inl (ground arith))
  | inr e ↦ elim (Bool-cases (ltb (off + n) (2 ^ 32))) [
    | inl l ↦ inr (ground arith, ground arith, ground arith)
    | inr l ↦ inl (ground arith, inr (ground arith))
  ]
]

pub readi_lem :
    (devsw : Devices) (ls : Labels) (ip : Inode) (v : Volume) (dst : ℕ → ℕ) (off n : ℕ)
    → ip.type ≢ t_dev
    → IsVolume v
    → IsTree ls ip v
    → ip.size ≤ max_file * block_size
    → off < 2 ^ 32
    → n < 2 ^ 32
    → (OutOfFile ip off n × (readi devsw ip v dst off n ≡ ok (ip, v, dst, negsuc 0)))
      ⊎ ((off ≤ ip.size)
          × (off + n < 2 ^ 32)
          × (((readi devsw ip v dst off n ≡ panic) × Fills v)
              ⊎ ((ip' : Inode) × (v' : Volume) × (dst' : ℕ → ℕ) × (ls' : Labels) × (readi devsw ip v
                      dst off n
                    ≡ ok (ip', v', dst', pos (available ip off n)))
                  × HasRead ls 0 (available ip off n) off ip v dst ls' ip' v' dst')))
unfolding readi
readi_lem devsw ls ip v dst off n file h t small lo ln =
    let f : (ip.type == t_dev) ≡ false = ground arith in
    elim (out_of ip.size off n lo ln) [
      | inl (e, out) ↦ inl (out, rw (f, e, readi) refl)
      | inr (e, inside, sum) ↦
          let m = available ip off n in
          elim (read_loop_lem m 0 m off ls ip v dst h t (omega arith) (fits inside)) [
            | inl (e', full) ↦ inr (inside, sum, inl (rw (f, e, e', readi) refl, full))
            | inr (ip', v', dst', ls', e', r) ↦
                inr (inside, sum, inr (ip', v', dst', ls', rw (f, e, e', readi) refl, r))
          ]
    ]
  where
    fits : off ≤ ip.size → off + available ip off n ≤ max_file * block_size
    fits l = ground arith
