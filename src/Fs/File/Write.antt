-- ===== src/Fs/File/Write.antt =====
-- The loop of writei: the bytes of the file.
use os_project.Prelude.{
  ℕ, zero, suc, ◌+◌, ◌-◌, ◌*◌, ◌/◌, ◌%◌, ◌<◌, ◌≤◌, ◌≡◌, ◌≢◌, ◌⊎◌, inl, inr, ◌∙◌, refl, sym, ap,
  true, ◌&&◌, leb, ltb, ◌==◌, if◌then◌else◌, arith, Bool-cases,
}
use mathlib.Core.Path.{ap₂}
use os_project.Prelude.Outcome.{Outcome, ok, panic}
use os_project.Fs.{Volume, block_size, put_block}
use os_project.Fs.Free.{IsVolume}
use os_project.Fs.Bmap.{Inode, max_file}
use os_project.Fs.Bmap.Held.{Held, Held-mono}
use os_project.Fs.Bmap.Entry.{put_block-IsVolume}
use os_project.Fs.Bmap.Address.{address_of}
use os_project.Fs.File.{copy, chunk, write_loop}
use os_project.Fs.File.Labels.{Labels, IsTree, address_of-injective}
use os_project.Fs.File.Step.{content_at}
use os_project.Fs.File.Grow.{Fills, Fills-before}
use os_project.Fs.File.Map.{Mapped, bmap-Mapped}
use os_project.Fs.File.Put.{
  Later, Later-refl, Later-trans, Kept-Later, put_block-Later, put_block-IsTree,
  put_block-address_of, put_block-content_of, put_block-content_at,
}
use os_project.Fs.File.Read.{file_byte, chunk_bounds, rest_of, two_copies}

-- The blocks in use that are no part of the file.
abbrev pub OutOfTree : Labels → Volume → ℕ → Type 0
OutOfTree ls v c = Held v c × (ls.left c ≡ 0) × (max_file ≤ ls.base c)

pub OutOfTree-Later :
    (ls ls' : Labels) (v v' : Volume) (c : ℕ)
    → Later ls ls' v v'
    → OutOfTree ls v c
    → OutOfTree ls' v' c
OutOfTree-Later ls ls' v v' c k (h, z, far) =
    let (l, b) = k.agree c h in (Held-mono v v' c k.sb_is k.used h, l ∙ z, omega (arith, b, far))

-- What the writing of `left` bytes at `off` makes of a file.
pub record HasWritten (ls : Labels) (tot left off : ℕ) (src : ℕ → ℕ) (ip : Inode) (v : Volume)
    (ls' : Labels) (ip' : Inode) (v' : Volume) : Type 0 where
  pub volume : IsVolume v'
  pub tree : IsTree ls' ip' v'
  pub later : Later ls ls' v v'
  pub same : ip' ≡ record ip { addrs = ip'.addrs }
  pub others : (c : ℕ) → OutOfTree ls v c → v'.blocks c ≡ v.blocks c
  pub bytes :
      (x : ℕ)
      → x < max_file * block_size
      → file_byte ip' v' x
        ≡ (if leb off x && ltb x (off + left) then src (tot + (x - off)) else file_byte ip v x)

-- A byte of a block behind a chunk, by its place in the file.
in_chunk :
    (off m x tot : ℕ) (src w : ℕ → ℕ) (y : ℕ)
    → off % block_size + m ≤ block_size
    → x / block_size ≡ off / block_size
    → w (x % block_size) ≡ y
    → copy (off % block_size) tot m src w (x % block_size)
      ≡ (if leb off x && ltb x (off + m) then src (tot + (x - off)) else y)
in_chunk off m x tot src w y l e is =
    ap (λ t. if t then src (tot + (x % block_size - off % block_size)) else w (x % block_size))
      (same_test x e)
    ∙ ap₂ (λ p q. if leb off x && ltb x (off + m) then src (tot + p) else q) (omega (arith, e)) is
  where
    same_test :
        (x : ℕ)
        → x / block_size ≡ off / block_size
        → (leb (off % block_size) (x % block_size) && ltb (x % block_size) (off % block_size + m))
          ≡ (leb off x && ltb x (off + m))
    same_test x e =
        shifted (off / block_size) off (off % block_size) x (x % block_size) (omega arith)
          (omega (arith, e))
      where
        shifted :
            (q off o x r : ℕ)
            → off ≡ 512 * q + o
            → x ≡ 512 * q + r
            → (leb o r && ltb r (o + m)) ≡ (leb off x && ltb x (off + m))
        shifted q off o x r e f = ground arith

out_of_chunk :
    (off m x y z : ℕ)
    → off % block_size + m ≤ block_size
    → x / block_size ≢ off / block_size
    → y ≡ (if leb off x && ltb x (off + m) then z else y)
out_of_chunk off m x y z l d = outside (omega (arith, l, d))
  where
    outside : (x < off) ⊎ (off + m ≤ x) → y ≡ (if leb off x && ltb x (off + m) then z else y)
    outside d = ground arith

module _ (ls ls' : Labels) (ip ip' : Inode) (v v' : Volume) (b off tot m : ℕ) (src : ℕ → ℕ)
    (mp : Mapped ls (off / block_size) ip v ls' ip' v' b)
    (inside : off % block_size + m ≤ block_size) (low : off < max_file * block_size) where
  abbrev written : ℕ → ℕ
  written = copy (off % block_size) tot m src (v'.blocks b)

  there : (w : Volume) (o : ℕ) → content_at w b o ≡ w.blocks b o
  there w o = if_there b (w.blocks b o) mp.at.held.high
    where
      if_there : (b x : ℕ) → 1 < b → (if b == 0 then 0 else x) ≡ x
      if_there b x l = ground arith

  -- The bytes of the file behind one chunk.
  chunk_bytes :
      (x : ℕ)
      → x < max_file * block_size
      → file_byte ip' (put_block b written v') x
        ≡ (if leb off x && ltb x (off + m) then src (tot + (x - off)) else file_byte ip v x)
  chunk_bytes x l = elim (Bool-cases (x / block_size == off / block_size)) [
    | inl same ↦
        let e : x / block_size ≡ off / block_size = ground arith in
        let was : v'.blocks b (x % block_size) ≡ file_byte ip v x =
          sym (there v' (x % block_size))
          ∙ ap (λ q. content_at v' q (x % block_size)) (sym (ap (address_of ip' v') e ∙ mp.is))
          ∙ mp.contents (x / block_size) (x % block_size) (omega arith) in
        ap (λ q. content_at (put_block b written v') q (x % block_size))
          (ap (address_of ip' (put_block b written v')) e
            ∙ put_block-address_of ls' v' b written mp.at.held mp.at.left ip' (off / block_size)
                mp.tree (omega arith)
            ∙ mp.is)
        ∙ put_block-content_at ls' v' b written mp.at.held mp.at.left (x % block_size)
        ∙ in_chunk off m x tot src (v'.blocks b) (file_byte ip v x) inside e was
    | inr other ↦
        let d : x / block_size ≢ off / block_size = ground arith in
        put_block-content_of ls' v' b written mp.at.held mp.at.left ip' (x / block_size)
          (x % block_size) mp.tree (omega arith)
          (λ e. d (
            address_of-injective ls' ip' v' (x / block_size) (off / block_size) mp.tree
              (omega arith) (omega arith) (λ z. omega (arith, z, e, mp.at.held.high))
              (e ∙ sym mp.is)))
        ∙ mp.contents (x / block_size) (x % block_size) (omega arith)
        ∙ out_of_chunk off m x (file_byte ip v x) (src (tot + (x - off))) inside d
  ]

  step : Later ls ls' v (put_block b written v')
  step =
      Later-trans ls ls' ls' v v' (put_block b written v') (Kept-Later ls ls' v v' mp.kept)
        (put_block-Later ls' v' b written mp.at.held mp.at.left)

  other_block : (c : ℕ) → OutOfTree ls v c → (put_block b written v').blocks c ≡ v.blocks c
  other_block c o =
      put_other (λ z. omega (
        arith,
        (OutOfTree-Later ls ls' v (put_block b written v') c step o).2,
        ap ls'.base z,
        mp.at.base,
        low,
      ))
      ∙ mp.kept.blocks c o.0 o.1
    where
      put_other : c ≢ b → (put_block b written v').blocks c ≡ v'.blocks c
      put_other d = ground arith

  -- A chunk and the rest of the loop.
  chunk_and_rest :
      (ls2 : Labels) (ip2 : Inode) (v2 : Volume) (left : ℕ)
      → 1 ≤ m
      → m ≤ left
      → off + left ≤ max_file * block_size
      → HasWritten ls' (tot + m) (left - m) (off + m) src ip' (put_block b written v') ls2 ip2 v2
      → HasWritten ls tot left off src ip v ls2 ip2 v2
  chunk_and_rest ls2 ip2 v2 left one most fits r = record {
    volume = r.volume;
    tree = r.tree;
    later = Later-trans ls ls' ls2 v (put_block b written v') v2 step r.later;
    same = r.same ∙ ap (λ (x : Inode). record x { addrs = ip2.addrs }) mp.same;
    others = λ c o.
        r.others c (OutOfTree-Later ls ls' v (put_block b written v') c step o) ∙ other_block c o;
    bytes = λ x l.
        r.bytes x l
        ∙ rest_of (leb (off + m) x && ltb x (off + m + (left - m))) _ (src (tot + (x - off)))
            (file_byte ip' (put_block b written v') x) (λ c. ap src (later_place x c))
        ∙ ap
            (λ q.
              if leb (off + m) x && ltb x (off + m + (left - m)) then src (tot + (x - off)) else q)
            (chunk_bytes x l)
        ∙ two_copies off m left x (src (tot + (x - off))) _ (file_byte ip v x) most (λ _ _. refl);
  }
    where
      later_place :
          (x : ℕ)
          → (leb (off + m) x && ltb x (off + m + (left - m))) ≡ true
          → tot + m + (x - (off + m)) ≡ tot + (x - off)
      later_place x e = ground arith

abbrev pub WriteEnds :
    Labels → ℕ → ℕ → ℕ → (ℕ → ℕ) → Inode → Volume → Outcome (Inode × Volume) → Type 0
WriteEnds ls tot left off src ip v r =
    ((r ≡ panic) × Fills v)
    ⊎ ((ip' : Inode) × (v' : Volume) × (ls' : Labels) × (r ≡ ok (ip', v'))
        × HasWritten ls tot left off src ip v ls' ip' v')

nothing_written :
    (ls : Labels) (tot off : ℕ) (src : ℕ → ℕ) (ip : Inode) (v : Volume)
    → IsVolume v
    → IsTree ls ip v
    → (left : ℕ) → left ≡ 0
    → HasWritten ls tot left off src ip v ls ip v
nothing_written ls tot off src ip v h t left e = record {
  volume = h;
  tree = t;
  later = Later-refl ls v;
  same = refl;
  others = λ c o. refl;
  bytes = λ x l. none_of x (src (tot + (x - off))) (file_byte ip v x);
}
  where
    none_of : (i x y : ℕ) → y ≡ (if leb off i && ltb i (off + left) then x else y)
    none_of i x y = ground arith

pub write_loop_lem :
    (fuel tot left off : ℕ) (src : ℕ → ℕ) (ls : Labels) (ip : Inode) (v : Volume)
    → IsVolume v
    → IsTree ls ip v
    → left ≤ fuel
    → off + left ≤ max_file * block_size
    → WriteEnds ls tot left off src ip v (write_loop fuel tot left off src ip v)
unfolding write_loop
write_loop_lem zero tot left off src ls ip v h t enough fits =
    let z : (left == 0) ≡ true = ground arith in
    inr (ip, v, ls, rw z refl, nothing_written ls tot off src ip v h t left (omega arith))
write_loop_lem (suc fuel) tot left off src ls ip v h t enough fits = elim (Bool-cases (left == 0)) [
  | inl z ↦ inr (
    ip,
    v,
    ls,
    rw (z, write_loop) refl,
    nothing_written ls tot off src ip v h t left (ground arith),
  )
  | inr more ↦
      let n : left ≢ 0 = ground arith in
      let (one, most, inside) = chunk_bounds left off n in
      let m = chunk left off in
      elim (bmap-Mapped ls (off / block_size) ip v h t (omega arith)) [
        | inl (e, full) ↦ inl (rw (more, e, write_loop) refl, full)
        | inr (ip1, v1, b, ls1, e, mp) ↦
            let w = copy (off % block_size) tot m src (v1.blocks b) in
            let put = put_block-Later ls1 v1 b w mp.at.held mp.at.left in
            let next =
              Later-trans ls ls1 ls1 v v1 (put_block b w v1) (Kept-Later ls ls1 v v1 mp.kept) put in
            elim (write_loop_lem fuel (tot + m) (left - m) (off + m) src ls1 ip1 (put_block b w v1)
              (put_block-IsVolume b w v1 mp.volume mp.at.held)
              (put_block-IsTree ls1 v1 b w mp.at.held mp.at.left ip1 mp.tree) (omega arith)
              (omega arith)) [
                | inl (e', full) ↦ inl (
                  rw (more, e, e', write_loop) refl,
                  Fills-before v (put_block b w v1) next.sb_is next.trans_is next.used full,
                )
                | inr (ip2, v2, ls2, e', r) ↦ inr (
                  ip2,
                  v2,
                  ls2,
                  rw (more, e, e', write_loop) refl,
                  chunk_and_rest ls ls1 ip ip1 v v1 b off tot m src mp inside (omega arith) ls2 ip2
                      v2 left one most fits r,
                )
              ]
      ]
]
