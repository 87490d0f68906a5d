-- ===== src/Fs/File/Put.antt =====
-- A change of a block of contents, which is no table of the file.
use os_project.Prelude.{
  ℕ, suc, ◌+◌, ◌*◌, ◌<◌, ◌≡◌, ◌≢◌, inl, inr, ◌∙◌, refl, sym, ap, true, ◌==◌, if◌then◌else◌, arith,
  update, Bool-cases, List, [], ◌∷◌, length,
}
use mathlib.Core.Path.{subst}
use os_project.Fs.{SuperBlock, Volume, put_block, in_use}
use os_project.Fs.Bits.{word}
use os_project.Fs.Bmap.{Inode, max_file}
use os_project.Fs.Bmap.Held.{Held, Held-mono}
use os_project.Fs.Bmap.Entry.{put_block-in_use}
use os_project.Fs.Bmap.Levels.{slot_of, entries_of}
use os_project.Fs.Bmap.Walk.{address, address-zero, address-cons, address-nil}
use os_project.Fs.Bmap.Address.{address_of}
use os_project.Fs.File.Labels.{
  Labels, span, At, AreEntries, IsLabelled, IsTree, level, first, Leads-places,
}
use os_project.Fs.File.Step.{content_at, Kept}
use os_project.Fs.File.Map.{content_of}

-- What a run of these changes keeps: blocks in use, and the labels of the blocks that were held.
pub record Later (ls ls' : Labels) (v v' : Volume) : Type 0 where
  pub sb_is : v'.sb ≡ v.sb
  pub trans_is : v'.outstanding ≡ v.outstanding
  pub used : (c : ℕ) → c < v.sb.size → in_use v c ≡ true → in_use v' c ≡ true
  pub agree : (c : ℕ) → Held v c → (ls'.left c ≡ ls.left c) × (ls'.base c ≡ ls.base c)

pub Later-refl : (ls : Labels) (v : Volume) → Later ls ls v v
Later-refl ls v = record {
  sb_is = refl;
  trans_is = refl;
  used = λ c l u. u;
  agree = λ c h. (refl, refl);
}

pub Kept-Later : (ls ls' : Labels) (v v' : Volume) → Kept ls ls' v v' → Later ls ls' v v'
Kept-Later ls ls' v v' k = record {
  sb_is = k.grew.sb_is;
  trans_is = k.grew.trans_is;
  used = k.grew.used;
  agree = k.agree;
}

pub Later-trans :
    (ls ls1 ls2 : Labels) (v v1 v2 : Volume)
    → Later ls ls1 v v1
    → Later ls1 ls2 v1 v2
    → Later ls ls2 v v2
Later-trans ls ls1 ls2 v v1 v2 g h = record {
  sb_is = h.sb_is ∙ g.sb_is;
  trans_is = h.trans_is ∙ g.trans_is;
  used = λ c l u. h.used c (subst (λ (s : SuperBlock). c < s.size) (sym g.sb_is) l) (g.used c l u);
  agree = λ c held.
      let held1 = Held-mono v v1 c g.sb_is g.used held in
      ((h.agree c held1).0 ∙ (g.agree c held).0, (h.agree c held1).1 ∙ (g.agree c held).1);
}

module _ (ls : Labels) (v : Volume) (c : ℕ) (w : ℕ → ℕ) (held : Held v c)
    (left : ls.left c ≡ 0) where
  pub put_block-Later : Later ls ls v (put_block c w v)
  put_block-Later = record {
    sb_is = refl;
    trans_is = refl;
    used = λ b l u. put_block-in_use c w v held b l ∙ u;
    agree = λ b h. (refl, refl);
  }

  Held-put_block : (b : ℕ) → Held v b → Held (put_block c w v) b
  Held-put_block b h =
      Held-mono v (put_block c w v) b refl (λ b l u. put_block-in_use c w v held b l ∙ u) h

  Held-of_put_block : (b : ℕ) → Held (put_block c w v) b → Held v b
  Held-of_put_block b h = record {
    high = h.high;
    inside = h.inside;
    used = sym (put_block-in_use c w v held b h.inside) ∙ h.used;
    away = h.away;
  }

  put_At : (l n b : ℕ) → At ls v l n b → At ls (put_block c w v) l n b
  put_At l n b at = record { held = Held-put_block b at.held; left = at.left; base = at.base }

  put_rest : (b : ℕ) → b ≢ c → (put_block c w v).blocks b ≡ v.blocks b
  put_rest b d = ground arith

  -- A table keeps its entries.
  put_word :
      (t l j : ℕ) → ls.left t ≡ suc l → word ((put_block c w v).blocks t) j ≡ word (v.blocks t) j
  put_word t l j e = ap (λ q. word q j) (put_rest t (λ q. omega (arith, e, left, ap ls.left q)))

  pub put_block-IsLabelled : IsLabelled ls v → IsLabelled ls (put_block c w v)
  put_block-IsLabelled lab t l i h e small there =
      let same = put_word t l i e in
      subst (At ls (put_block c w v) l (ls.base t + i * span l)) (sym same) (
        put_At l (ls.base t + i * span l) (word (v.blocks t) i)
          (lab t l i (Held-of_put_block t h) e small (λ z. there (same ∙ z))))

  pub put_block-IsTree : (ip : Inode) → IsTree ls ip v → IsTree ls ip (put_block c w v)
  put_block-IsTree ip h = record {
    roots = λ s l n. put_At (level s) (first s) (ip.addrs s) (h.roots s l n);
    entries = put_block-IsLabelled h.entries;
  }

  put_address :
      (is : List ℕ) (a b : ℕ)
      → IsLabelled ls v
      → AreEntries is
      → (a ≢ 0 → At ls v (length is) b a)
      → address (put_block c w v) a is ≡ address v a is
  put_address [] a b lab small at = address-nil (put_block c w v) a ∙ sym (address-nil v a)
  put_address (i ∷ is) a b lab small at = elim (Bool-cases (a == 0)) [
    | inl none_there ↦
        let z : a ≡ 0 = ground arith in
        address-zero (put_block c w v) a (i ∷ is) z ∙ sym (address-zero v a (i ∷ is) z)
    | inr there ↦
        let n : a ≢ 0 = ground arith in
        address-cons (put_block c w v) a i is n
        ∙ ap (λ q. address (put_block c w v) q is) (put_word a (length is) i (at n).left)
        ∙ put_address is (word (v.blocks a) i) (ls.base a + i * span (length is)) lab small.1
            (λ m. lab a (length is) i (at n).held (at n).left small.0 m)
        ∙ sym (address-cons v a i is n)
  ]

  pub put_block-address_of :
      (ip : Inode) (n : ℕ)
      → IsTree ls ip v
      → n < max_file
      → address_of ip (put_block c w v) n ≡ address_of ip v n
  put_block-address_of ip n h l =
      let (s, len, small, num) = Leads-places n l in
      put_address (entries_of n) (ip.addrs (slot_of n)) (first (slot_of n)) h.entries small
        (λ there.
          let at = h.roots (slot_of n) s there in
          record { held = at.held; left = at.left ∙ sym len; base = at.base })

  -- The bytes of another block of the file.
  pub put_block-content_of :
      (ip : Inode) (n o : ℕ)
      → IsTree ls ip v
      → n < max_file
      → address_of ip v n ≢ c
      → content_of ip (put_block c w v) n o ≡ content_of ip v n o
  put_block-content_of ip n o h l d =
      ap (λ q. content_at (put_block c w v) q o) (put_block-address_of ip n h l)
      ∙ ap (λ q. if address_of ip v n == 0 then 0 else q)
          (ap (λ q. q o) (put_rest (address_of ip v n) d))

  pub put_block-content_at : (o : ℕ) → content_at (put_block c w v) c o ≡ w o
  put_block-content_at o = at_c c w o (λ z. omega (arith, held.high))
    where
      at_c :
          (c : ℕ) (w : ℕ → ℕ) (o : ℕ)
          → c ≢ 0
          → (if c == 0 then 0 else (update v.blocks c w) c o) ≡ w o
      at_c c w o n = ground arith
