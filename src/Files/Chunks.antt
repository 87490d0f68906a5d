-- ===== src/Files/Chunks.antt =====
-- The loop of filewrite writes the bytes in their order.
use os_project.Prelude.{
  ℕ, zero, suc, ◌+◌, ◌-◌, ◌*◌, ◌/◌, ◌^◌, ◌<◌, ◌≤◌, ◌≡◌, ◌≢◌, ◌⊎◌, inl, inr, ◌∙◌, refl, sym, ap,
  true, false, ◌&&◌, leb, ltb, ◌==◌, if◌then◌else◌, arith, Bool-cases,
}
use mathlib.Core.Path.{subst, ap₂}
use os_project.Prelude.Int.{pos, negsuc}
use os_project.Prelude.Outcome.{Outcome, ok, panic}
use os_project.Fs.{SuperBlock, Volume, block_size}
use os_project.Fs.Free.{IsVolume}
use os_project.Fs.Bmap.{Inode, max_file}
use os_project.Fs.Inode.{inode_block, ilock}
use os_project.Fs.File.{Devices, t_dev, writei}
use os_project.Fs.File.Labels.{Labels, IsTree}
use os_project.Fs.File.Grow.{Fills, Fills-before}
use os_project.Fs.File.Put.{Later, Later-refl, Later-trans}
use os_project.Fs.File.Read.{file_byte}
use os_project.Fs.File.Write.{OutOfTree, OutOfTree-Later}
use os_project.Fs.File.Size.{grows, Wrote, writei_lem}
use os_project.Files.{chunk_of, write_chunks, advance}

-- What the writing of `p` bytes from `i` on at `off` makes of a file.
pub record Stored (ls : Labels) (p i off : ℕ) (addr : ℕ → ℕ) (ip : Inode) (v : Volume)
    (ls' : Labels) (ip' : Inode) (v' : Volume) : Type 0 where
  pub volume : IsVolume v'
  pub tree : IsTree ls' ip' v'
  pub later : Later ls ls' v v'
  pub same : ip' ≡ record ip { addrs = ip'.addrs; size = ip'.size }
  pub size : ip'.size ≡ (if grows ip.size off p then off + p else ip.size)
  pub bytes :
      (x : ℕ)
      → x < max_file * block_size
      → file_byte ip' v' x
        ≡ (if leb off x && ltb x (off + p) then addr (i + (x - off)) else file_byte ip v x)

nothing-Stored :
    (ls : Labels) (i off : ℕ) (addr : ℕ → ℕ) (ip : Inode) (v : Volume)
    → IsVolume v
    → IsTree ls ip v
    → Stored ls 0 i off addr ip v ls ip v
nothing-Stored ls i off addr ip v h t = record {
  volume = h;
  tree = t;
  later = Later-refl ls v;
  same = refl;
  size = no_size ip.size;
  bytes = λ x l. none_of x (addr (i + (x - off))) (file_byte ip v x);
}
  where
    no_size : (s : ℕ) → s ≡ (if grows s off 0 then off + 0 else s)
    no_size s = ground arith

    none_of : (x a b : ℕ) → b ≡ (if leb off x && ltb x (off + 0) then a else b)
    none_of x a b = ground arith

sizes :
    (off m p a b c : ℕ)
    → 1 ≤ m
    → b ≡ (if grows a off m then off + m else a)
    → c ≡ (if grows b (off + m) p then off + m + p else b)
    → c ≡ (if grows a off (m + p) then off + (m + p) else a)
sizes off m p a b c one e f = ground arith

both :
    (off m p x y z t u : ℕ)
    → (off + m ≤ x → y ≡ t)
    → z ≡ (if leb off x && ltb x (off + m) then t else u)
    → (if leb (off + m) x && ltb x (off + m + p) then y else z)
      ≡ (if leb off x && ltb x (off + (m + p)) then t else u)
both off m p x y z t u e f = ground arith

-- A chunk and what is stored behind it.
chunk_then :
    (ls ls1 ls2 : Labels) (m p i off : ℕ) (addr : ℕ → ℕ) (ip ip1 ip2 : Inode) (v v1 v2 : Volume)
    → 1 ≤ m
    → Wrote ls off m (λ k. addr (i + k)) ip v ls1 ip1 v1
    → Stored ls1 p (i + m) (off + m) addr ip1 v1 ls2 ip2 v2
    → Stored ls (m + p) i off addr ip v ls2 ip2 v2
chunk_then ls ls1 ls2 m p i off addr ip ip1 ip2 v v1 v2 one w s = record {
  volume = s.volume;
  tree = s.tree;
  later = Later-trans ls ls1 ls2 v v1 v2 w.later s.later;
  same = s.same ∙ ap (λ (x : Inode). record x { addrs = ip2.addrs; size = ip2.size }) w.same;
  size = sizes off m p ip.size ip1.size ip2.size one w.size s.size;
  bytes = λ x l.
      s.bytes x l
      ∙ both off m p x _ (file_byte ip1 v1 x) (addr (i + (x - off))) (file_byte ip v x)
          (λ low. ap addr (omega arith)) (w.bytes x l);
}

-- An inode that is locked and in use, and its file.
pub record Ready (ls : Labels) (ip : Inode) (v : Volume) : Type 0 where
  pub file : ip.type ≢ t_dev
  pub live : (1 ≤ ip.ref) × (ip.valid ≡ true)
  pub volume : IsVolume v
  pub tree : IsTree ls ip v
  pub inode : OutOfTree ls v (inode_block ip.inum v)

pub Ready-Wrote :
    (ls ls' : Labels) (off m : ℕ) (src : ℕ → ℕ) (ip ip' : Inode) (v v' : Volume)
    → Ready ls ip v
    → Wrote ls off m src ip v ls' ip' v'
    → Ready ls' ip' v'
Ready-Wrote ls ls' off m src ip ip' v v' r w = record {
  file = λ e. r.file (sym (ap (λ (x : Inode). x.type) w.same) ∙ e);
  live = (
    subst (λ q. 1 ≤ q) (sym (ap (λ (x : Inode). x.ref) w.same)) r.live.0,
    ap (λ (x : Inode). x.valid) w.same ∙ r.live.1,
  );
  volume = w.volume;
  tree = w.tree;
  inode =
      subst (OutOfTree ls' v')
        (sym (
          ap₂ (λ q (sb : SuperBlock). q / 8 + sb.inodestart) (ap (λ (x : Inode). x.inum) w.same)
            w.later.sb_is))
        (OutOfTree-Later ls ls' v v' (inode_block ip.inum v) w.later r.inode);
}

pub locks : (ip : Inode) (v : Volume) → (1 ≤ ip.ref) × (ip.valid ≡ true) → ilock ip v ≡ ok ip
unfolding ilock
locks ip v (l, e) = let t : ltb ip.ref 1 ≡ false = ground arith in rw (t, e, ilock) refl

module _ (devsw : Devices) (next : ℕ → ℕ → ℕ) (fuel i n off : ℕ) (addr : ℕ → ℕ) (ip : Inode)
    (v : Volume) (more : ltb i n ≡ true) (lock : ilock ip v ≡ ok ip) where
  pub chunk_panics :
      writei devsw ip v (λ k. addr (i + k)) off (chunk_of (n - i)) ≡ panic
      → write_chunks devsw next (suc fuel) i n addr off ip v ≡ panic
  unfolding write_chunks
  chunk_panics e = rw (more, lock, e, write_chunks) refl

  chunk_refused :
      (ip' : Inode) (v' : Volume)
      → writei devsw ip v (λ k. addr (i + k)) off (chunk_of (n - i)) ≡ ok (ip', v', negsuc 0)
      → write_chunks devsw next (suc fuel) i n addr off ip v ≡ ok (i, off, ip', v')
  unfolding write_chunks
  chunk_refused ip' v' e = rw (more, lock, e, write_chunks) refl

  pub chunk_written :
      (ip' : Inode) (v' : Volume)
      → writei devsw ip v (λ k. addr (i + k)) off (chunk_of (n - i))
        ≡ ok (ip', v', pos (chunk_of (n - i)))
      → write_chunks devsw next (suc fuel) i n addr off ip v
        ≡ write_chunks devsw next fuel
            (i + chunk_of (n - i))
            n
            addr
            (next off (chunk_of (n - i)))
            ip'
            v'
  unfolding write_chunks
  chunk_written ip' v' e =
      let same : (chunk_of (n - i) == chunk_of (n - i)) ≡ true = ground arith in
      rw (more, lock, e, write_chunks) (rw same refl)

-- The end of the loop: all is written, or the rest passes the largest file.
abbrev pub ChunksEnd :
    Labels → ℕ → ℕ → ℕ → (ℕ → ℕ) → Inode → Volume → Outcome (ℕ × ℕ × Inode × Volume) → Type 0
ChunksEnd ls i n off addr ip v r =
    ((r ≡ panic) × Fills v)
    ⊎ ((p : ℕ) × (ip' : Inode) × (v' : Volume) × (ls' : Labels) × (r ≡ ok (i + p, off + p, ip', v'))
        × Stored ls p i off addr ip v ls' ip' v'
        × ((p ≡ 0) ⊎ (off + p ≤ max_file * block_size))
        × ((i + p ≡ n) ⊎ ((i + p < n) × (max_file * block_size < off + (n - i)))))

chunk_bounds :
    (i n : ℕ)
    → i < n
    → (1 ≤ chunk_of (n - i)) × (chunk_of (n - i) ≤ n - i) × (chunk_of (n - i) < 2 ^ 32)
chunk_bounds i n l = (ground arith, ground arith, ground arith)

same_end :
    (a b c d : ℕ) (ip : Inode) (v : Volume)
    → a ≡ b
    → c ≡ d
    → ◌≡◌ {A = Outcome (ℕ × ℕ × Inode × Volume)} (ok (a, c, ip, v)) (ok (b, d, ip, v))
same_end a b c d ip v e f = ap₂ (λ p q. ok (p, q, ip, v)) e f

pub no_chunk :
    (devsw : Devices) (next : ℕ → ℕ → ℕ) (fuel i n off : ℕ) (addr : ℕ → ℕ) (ip : Inode) (v : Volume)
    → ltb i n ≡ false
    → write_chunks devsw next fuel i n addr off ip v ≡ ok (i, off, ip, v)
unfolding write_chunks
no_chunk devsw next zero i n off addr ip v e = rw e refl
no_chunk devsw next (suc fuel) i n off addr ip v e = rw (e, write_chunks) refl

ended :
    (devsw : Devices) (fuel i n off : ℕ) (addr : ℕ → ℕ) (ls : Labels) (ip : Inode) (v : Volume)
    → Ready ls ip v
    → i ≤ n
    → ltb i n ≡ false
    → ChunksEnd ls i n off addr ip v (write_chunks devsw advance fuel i n addr off ip v)
ended devsw fuel i n off addr ls ip v r low e =
    let done : i ≡ n = ground arith in
    inr (
      0,
      ip,
      v,
      ls,
      no_chunk devsw advance fuel i n off addr ip v e
          ∙ same_end i (i + 0) off (off + 0) ip v (omega arith) (omega arith),
      nothing-Stored ls i off addr ip v r.volume r.tree,
      inl refl,
      inl (omega (arith, done)),
    )

-- The loop ends with a panic, on a full volume or outside a transaction, or has written some of the bytes, and all of them but where the
-- file would be too large.
pub write_chunks_lem :
    (devsw : Devices) (fuel i n off : ℕ) (addr : ℕ → ℕ) (ls : Labels) (ip : Inode) (v : Volume)
    → Ready ls ip v
    → i ≤ n
    → n - i ≤ fuel
    → off + (n - i) < 2 ^ 32
    → ChunksEnd ls i n off addr ip v (write_chunks devsw advance fuel i n addr off ip v)
write_chunks_lem devsw zero i n off addr ls ip v r low enough sum =
    ended devsw zero i n off addr ls ip v r low (ground arith)
write_chunks_lem devsw (suc fuel) i n off addr ls ip v r low enough sum =
    elim (Bool-cases (ltb i n)) [
      | inr e ↦ ended devsw (suc fuel) i n off addr ls ip v r low e
      | inl more ↦
          let m = chunk_of (n - i) in
          let (one, most, small) = chunk_bounds i n (ground arith) in
          let lock = locks ip v r.live in
          elim (writei_lem devsw ls ip v (λ k. addr (i + k)) off m r.file r.volume r.tree r.inode
            (omega (arith, sum)) small) [
              | inl (far, e) ↦ inr (
                0,
                ip,
                v,
                ls,
                chunk_refused devsw advance fuel i n off addr ip v more lock ip v e
                    ∙ same_end i (i + 0) off (off + 0) ip v (omega arith) (omega arith),
                nothing-Stored ls i off addr ip v r.volume r.tree,
                inl refl,
                inr (omega (arith, one, most), omega (arith, far, most)),
              )
              | inr (fits, inl (e, full)) ↦
                  inl (chunk_panics devsw advance fuel i n off addr ip v more lock e, full)
              | inr (fits, inr (ip1, v1, ls1, e, w)) ↦
                  let on = chunk_written devsw advance fuel i n off addr ip v more lock ip1 v1 e in
                  let at : advance off m ≡ off + m = omega (arith, sum, most) in
                  let on' =
                    on ∙ ap (λ q. write_chunks devsw advance fuel (i + m) n addr q ip1 v1) at in
                  elim (write_chunks_lem devsw fuel (i + m) n (off + m) addr ls1 ip1 v1
                    (Ready-Wrote ls ls1 off m (λ k. addr (i + k)) ip ip1 v v1 r w)
                    (omega (arith, most, low)) (omega (arith, one, enough))
                    (omega (arith, most, sum))) [
                      | inl (e', full) ↦ inl (
                        on' ∙ e',
                        Fills-before v v1 w.later.sb_is w.later.trans_is w.later.used full,
                      )
                      | inr (p, ip2, v2, ls2, e', s, up, end) ↦ inr (
                        m + p,
                        ip2,
                        v2,
                        ls2,
                        on'
                            ∙ e'
                            ∙ same_end (i + m + p) (i + (m + p)) (off + m + p) (off + (m + p)) ip2
                                v2 (omega arith) (omega arith),
                        chunk_then ls ls1 ls2 m p i off addr ip ip1 ip2 v v1 v2 one w s,
                        reached p m fits up,
                        all_or_far p m most end,
                      )
                    ]
            ]
    ]
  where
    reached :
        (p m : ℕ)
        → off + m ≤ max_file * block_size
        → (p ≡ 0) ⊎ (off + m + p ≤ max_file * block_size)
        → (m + p ≡ 0) ⊎ (off + (m + p) ≤ max_file * block_size)
    reached p m f up = inr (omega (arith, f, up))

    all_or_far :
        (p m : ℕ)
        → m ≤ n - i
        → (i + m + p ≡ n) ⊎ ((i + m + p < n) × (max_file * block_size < off + m + (n - (i + m))))
        → (i + (m + p) ≡ n) ⊎ ((i + (m + p) < n) × (max_file * block_size < off + (n - i)))
    all_or_far p m l (inl e) = inl (omega (arith, e))
    all_or_far p m l (inr (f, g)) = inr (omega (arith, f), omega (arith, g, l))
