-- ===== src/Fs/File/Size.antt =====
-- writei: the bytes, the size, and the inode on the disk.
use os_project.Prelude.{
  ℕ, ◌+◌, ◌-◌, ◌*◌, ◌/◌, ◌%◌, ◌^◌, ◌<◌, ◌≤◌, ◌≡◌, ◌≢◌, ◌⊎◌, inl, inr, ◌∙◌, refl, sym, ap, Bool,
  true, false, ◌&&◌, leb, ltb, ◌==◌, if◌then◌else◌, arith, Bool-cases,
}
use mathlib.Core.Path.{subst, ap₂}
use os_project.Prelude.Int.{pos, negsuc}
use os_project.Prelude.Outcome.{ok, panic}
use os_project.Fs.{SuperBlock, Volume, block_size, put_block}
use os_project.Fs.Free.{IsVolume}
use os_project.Fs.Bmap.{Inode, max_file}
use os_project.Fs.Bmap.Entry.{put_block-IsVolume}
use os_project.Fs.Bmap.Address.{address_of}
use os_project.Fs.Inode.{inode_block, dinode_of, dinode_at, set_words, iupdate}
use os_project.Fs.File.{Devices, t_dev, grow, writei}
use os_project.Fs.File.Labels.{Labels, IsTree, address_of-At}
use os_project.Fs.File.Grow.{Fills}
use os_project.Fs.File.Put.{
  Later, Later-trans, put_block-Later, put_block-IsTree, put_block-content_of,
}
use os_project.Fs.File.Read.{file_byte}
use os_project.Fs.File.Write.{OutOfTree, OutOfTree-Later, HasWritten, write_loop_lem}

-- The write makes the file longer.
abbrev pub grows : ℕ → ℕ → ℕ → Bool
grows size off n = ltb 0 n && ltb size (off + n)

pub record Wrote (ls : Labels) (off n : ℕ) (src : ℕ → ℕ) (ip : Inode) (v : Volume) (ls' : Labels)
    (ip' : Inode) (v' : Volume) : Type 0 where
  pub volume : IsVolume v'
  pub tree : IsTree ls' ip' v'
  pub later : Later ls ls' v v'
  pub same : ip' ≡ record ip { addrs = ip'.addrs; size = ip'.size }
  pub size : ip'.size ≡ (if grows ip.size off n then off + n else ip.size)
  pub saved : v'.blocks (inode_block ip.inum v) ≡ (
      if grows ip.size off n
      then set_words (dinode_of ip') (dinode_at ip.inum) (v.blocks (inode_block ip.inum v))
      else v.blocks (inode_block ip.inum v))
  pub others : (c : ℕ) → OutOfTree ls v c → c ≢ inode_block ip.inum v → v'.blocks c ≡ v.blocks c
  pub bytes :
      (x : ℕ)
      → x < max_file * block_size
      → file_byte ip' v' x
        ≡ (if leb off x && ltb x (off + n) then src (x - off) else file_byte ip v x)

-- A block of the file is not the block of an inode.
apart :
    (ls : Labels) (ip : Inode) (v : Volume) (n c : ℕ)
    → IsTree ls ip v
    → n < max_file
    → OutOfTree ls v c
    → address_of ip v n ≢ c
apart ls ip v n c t l o e =
    let at = address_of-At ls ip v n t l (λ z. omega (arith, z, e, o.0.high)) in
    omega (arith, at.base, ap ls.base e, o.2, l)

module _ (ls ls' : Labels) (off n : ℕ) (src : ℕ → ℕ) (ip ip' : Inode) (v v' : Volume)
    (o : OutOfTree ls v (inode_block ip.inum v))
    (w : HasWritten ls 0 n off src ip v ls' ip' v') where
  same_size : ip'.size ≡ ip.size
  same_size = ap (λ (x : Inode). x.size) w.same

  same_inum : ip'.inum ≡ ip.inum
  same_inum = ap (λ (x : Inode). x.inum) w.same

  same_block : inode_block ip'.inum v' ≡ inode_block ip.inum v
  same_block = ap₂ (λ p (s : SuperBlock). p / 8 + s.inodestart) same_inum w.later.sb_is

  out : OutOfTree ls' v' (inode_block ip'.inum v')
  out =
      subst (OutOfTree ls' v') (sym same_block)
        (OutOfTree-Later ls ls' v v' (inode_block ip.inum v) w.later o)

  from_zero :
      (x : ℕ)
      → (if leb off x && ltb x (off + n) then src (0 + (x - off)) else file_byte ip v x)
        ≡ (if leb off x && ltb x (off + n) then src (x - off) else file_byte ip v x)
  from_zero x =
      ap (λ q. if leb off x && ltb x (off + n) then src q else file_byte ip v x) (omega arith)

  -- The file keeps its size.
  Wrote-kept : grows ip.size off n ≡ false → Wrote ls off n src ip v ls' ip' v'
  Wrote-kept e = record {
    volume = w.volume;
    tree = w.tree;
    later = w.later;
    same = w.same ∙ sym (ap (λ x. record ip { addrs = ip'.addrs; size = x }) same_size);
    size = rw e same_size;
    saved = rw e (w.others (inode_block ip.inum v) o);
    others = λ c oc d. w.others c oc;
    bytes = λ x l. w.bytes x l ∙ from_zero x;
  }

  longer : Inode
  longer = record ip' { size = off + n }

  -- The file is longer, and iupdate has written its inode.
  Wrote-longer : grows ip.size off n ≡ true → Wrote ls off n src ip v ls' longer (iupdate longer v')
  unfolding longer iupdate
  Wrote-longer e =
      let k = inode_block ip'.inum v' in
      let words = set_words (dinode_of longer) (dinode_at ip'.inum) (v'.blocks k) in
      record {
        volume = put_block-IsVolume k words v' w.volume out.0;
        tree = size_of (put_block-IsTree ls' v' k words out.0 out.1 ip' w.tree);
        later =
            Later-trans ls ls' ls' v v' (put_block k words v') w.later
              (put_block-Later ls' v' k words out.0 out.1);
        same = ap (λ (x : Inode). record x { addrs = ip'.addrs; size = off + n }) w.same;
        size = rw e refl;
        saved =
            at_put k (inode_block ip.inum v) words v' same_block
            ∙ ap₂ (λ p q. set_words (dinode_of longer) (dinode_at p) q) same_inum
                (ap v'.blocks same_block ∙ w.others (inode_block ip.inum v) o)
            ∙ rw e refl;
        others = λ c oc d. off_put k c words v' (λ z. d (z ∙ same_block)) ∙ w.others c oc;
        bytes = λ x l.
            put_block-content_of ls' v' k words out.0 out.1 ip' (x / block_size) (x % block_size)
              w.tree (omega arith) (apart ls' ip' v' (x / block_size) k w.tree (omega arith) out)
            ∙ w.bytes x l
            ∙ from_zero x;
      }
    where
      size_of : {u : Volume} → IsTree ls' ip' u → IsTree ls' (record ip' { size = off + n }) u
      size_of t = record { roots = t.roots; entries = t.entries }

      at_put : (k c : ℕ) (q : ℕ → ℕ) (u : Volume) → k ≡ c → (put_block k q u).blocks c ≡ q
      at_put k c q u e = ground arith

      off_put : (k c : ℕ) (q : ℕ → ℕ) (u : Volume) → c ≢ k → (put_block k q u).blocks c ≡ u.blocks c
      off_put k c q u e = ground arith

  grow-grows :
      (t : Bool)
      → grows ip.size off n ≡ t
      → grow n (off + n) (ip', v') ≡ (if t then (longer, iupdate longer v') else (ip', v'))
  unfolding longer
  grow-grows t e =
      ap
        (λ q.
          if q
          then (record ip' { size = off + n }, iupdate (record ip' { size = off + n }) v')
          else (ip', v'))
        (ap (λ x. grows x off n) same_size ∙ e)

pub writei_lem :
    (devsw : Devices) (ls : Labels) (ip : Inode) (v : Volume) (src : ℕ → ℕ) (off n : ℕ)
    → ip.type ≢ t_dev
    → IsVolume v
    → IsTree ls ip v
    → OutOfTree ls v (inode_block ip.inum v)
    → off < 2 ^ 32
    → n < 2 ^ 32
    → ((max_file * block_size < off + n) × (writei devsw ip v src off n ≡ ok (ip, v, negsuc 0)))
      ⊎ ((off + n ≤ max_file * block_size)
          × (((writei devsw ip v src off n ≡ panic) × Fills v)
              ⊎ ((ip' : Inode) × (v' : Volume) × (ls' : Labels) × (writei devsw ip v src off n
                    ≡ ok (ip', v', pos n))
                  × Wrote ls off n src ip v ls' ip' v')))
unfolding writei
writei_lem devsw ls ip v src off n file h t o lo ln =
    let f : (ip.type == t_dev) ≡ false = ground arith in
    elim (too_far off n lo ln) [
      | inl (far, inl wraps) ↦ inl (far, rw (f, wraps, writei) refl)
      | inl (far, inr (e, e')) ↦ inl (far, rw (f, e, e', writei) refl)
      | inr (fits, e, e') ↦ elim (write_loop_lem n 0 n off src ls ip v h t (omega arith) fits) [
        | inl (p, full) ↦ inr (fits, inl (rw (f, e, e', p, writei) refl, full))
        | inr (ip', v', ls', p, w) ↦ elim (Bool-cases (grows ip.size off n)) [
          | inl g ↦ inr (
            fits,
            inr (
              longer ls ls' off n src ip ip' v v' o w,
              iupdate (longer ls ls' off n src ip ip' v v' o w) v',
              ls',
              rw (f, e, e', p, grow-grows ls ls' off n src ip ip' v v' o w true g, writei) refl,
              Wrote-longer ls ls' off n src ip ip' v v' o w g,
            ),
          )
          | inr g ↦ inr (
            fits,
            inr (
              ip',
              v',
              ls',
              rw (f, e, e', p, grow-grows ls ls' off n src ip ip' v v' o w false g, writei) refl,
              Wrote-kept ls ls' off n src ip ip' v v' o w g,
            ),
          )
        ]
      ]
    ]
  where
    too_far :
        (off n : ℕ)
        → off < 2 ^ 32
        → n < 2 ^ 32
        → ((max_file * block_size < off + n)
            × ((ltb ((off + n) % 2 ^ 32) off ≡ true)
                ⊎ ((ltb ((off + n) % 2 ^ 32) off ≡ false)
                    × (ltb (max_file * block_size) (off + n) ≡ true))))
          ⊎ ((off + n ≤ max_file * block_size)
              × (ltb ((off + n) % 2 ^ 32) off ≡ false)
              × (ltb (max_file * block_size) (off + n) ≡ false))
    too_far off n a b = elim (Bool-cases (ltb (max_file * block_size) (off + n))) [
      | inr e ↦ inr (ground arith, ground arith, e)
      | inl e ↦ elim (Bool-cases (ltb ((off + n) % 2 ^ 32) off)) [
        | inl wraps ↦ inl (ground arith, inl wraps)
        | inr e' ↦ inl (ground arith, inr (e', e))
      ]
    ]
