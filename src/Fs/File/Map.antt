-- ===== src/Fs/File/Map.antt =====
-- bmap for a block number of a labelled file.
use os_project.Prelude.{
  ℕ, ◌<◌, ◌≡◌, ◌≢◌, ◌⊎◌, inl, inr, ◌∙◌, refl, sym, ap, ◌==◌, arith, update, Bool-cases, List,
  length,
}
use mathlib.Core.Path.{subst, ap₂}
use os_project.Prelude.Outcome.{Outcome, ok, panic, ok-injective}
use os_project.Fs.{Volume}
use os_project.Fs.Free.{IsVolume}
use os_project.Fs.Alloc.{balloc_lem}
use os_project.Fs.Bmap.{Inode, slot_block, bmap, max_file}
use os_project.Fs.Bmap.Levels.{slot_of, entries_of, slot_walk, bmap-slot_walk}
use os_project.Fs.Bmap.Walk.{address, address-zero}
use os_project.Fs.Bmap.Address.{address_of, bmap_lem}
use os_project.Fs.File.Labels.{
  Labels, At, AreEntries, IsTree, IsTree-IsFile, level, first, Leads-places,
}
use os_project.Fs.File.Step.{
  content_at, content_at-zero, content_at-new, Kept, Kept-refl, Kept-At, Kept-trans, label,
  label-same, new-Kept,
}
use os_project.Fs.File.Grow.{Allocated-New, Fills, Fills-full, Fills-before, walk-StepEnds}

-- A byte of the file: byte `o` of its block `n`; 0 where there is no block.
abbrev pub content_of : Inode → Volume → ℕ → ℕ → ℕ
content_of ip v n o = content_at v (address_of ip v n) o

-- What a slot with a block makes of a file.
record Slotted (ls : Labels) (i : ℕ) (ip : Inode) (v : Volume) (ls' : Labels) (ip' : Inode)
    (v' : Volume) (a : ℕ) : Type 0 where
  pub volume : IsVolume v'
  pub kept : Kept ls ls' v v'
  pub tree : IsTree ls' ip' v'
  pub is : ip'.addrs i ≡ a
  pub at : At ls' v' (level i) (first i) a
  pub same : ip' ≡ record ip { addrs = ip'.addrs }
  pub others : (j : ℕ) → j ≢ i → ip'.addrs j ≡ ip.addrs j
  pub contents :
      (is : List ℕ) (o : ℕ)
      → AreEntries is
      → length is ≡ level i
      → content_at v' (address v' (ip'.addrs i) is) o ≡ content_at v (address v (ip.addrs i) is) o

slot_block-Slotted :
    (ls : Labels) (i : ℕ) (ip : Inode) (v : Volume)
    → IsVolume v
    → IsTree ls ip v
    → i < 13
    → ((slot_block i ip v ≡ panic) × Fills v)
      ⊎ ((ip' : Inode) × (v' : Volume) × (a : ℕ) × (ls' : Labels) × (slot_block i ip v
            ≡ ok (ip', v', a))
          × Slotted ls i ip v ls' ip' v' a)
unfolding slot_block
slot_block-Slotted ls i ip v h tree small = elim (Bool-cases (ip.addrs i == 0)) [
  | inr there ↦ inr (
    ip,
    v,
    ip.addrs i,
    ls,
    rw (there, slot_block) refl,
    (record {
      volume = h;
      kept = Kept-refl ls v tree.entries;
      tree = tree;
      is = refl;
      at = tree.roots i small (ground arith);
      same = refl;
      others = λ j d. refl;
      contents = λ is o e l. refl;
    }),
  )
  | inl none_yet ↦
      let z : ip.addrs i ≡ 0 = ground arith in
      elim (balloc_lem v h) [
        | inl (full, e) ↦ inl (rw (none_yet, e, slot_block) refl, Fills-full v full)
        | inr (v1, b, e, a) ↦
            let new = Allocated-New v v1 b h a in
            let ls1 = label ls b (level i) (first i) in
            let kept =
              new-Kept ls v v1 0 0 b (level i) (first i) new (λ ht. absurd (omega (arith, ht.high)))
                tree.entries in
            let at : At ls1 v1 (level i) (first i) b = record {
              held = new.held;
              left = (label-same ls b (level i) (first i)).0;
              base = (label-same ls b (level i) (first i)).1;
            } in
            inr (
              record ip { addrs = update ip.addrs i b },
              v1,
              b,
              ls1,
              rw (none_yet, e, slot_block) refl,
              (record {
                volume = a.volume;
                kept = kept;
                tree = record { roots = roots v1 b ls1 kept at; entries = kept.labelled };
                is = at_i b;
                at = at;
                same = refl;
                others = off_i b;
                contents = λ is o en l.
                    ap (λ q. content_at v1 (address v1 q is) o) (at_i b)
                    ∙ content_at-new v1 b is o (λ q. omega (arith, new.held.high)) new.zeroed
                    ∙ sym (
                        content_at-zero v (address v (ip.addrs i) is) o
                          (address-zero v (ip.addrs i) is z));
              }),
            )
      ]
]
  where
    at_i : (b : ℕ) → update ip.addrs i b i ≡ b
    at_i b = ground arith

    off_i : (b j : ℕ) → j ≢ i → update ip.addrs i b j ≡ ip.addrs j
    off_i b j d = ground arith

    roots :
        (v1 : Volume) (b : ℕ) (ls1 : Labels)
        → Kept ls ls1 v v1
        → At ls1 v1 (level i) (first i) b
        → (s : ℕ) → s < 13
        → update ip.addrs i b s ≢ 0
        → At ls1 v1 (level s) (first s) (update ip.addrs i b s)
    roots v1 b ls1 k at s l n = elim (Bool-cases (i == s)) [
      | inl same ↦
          let e : i ≡ s = ground arith in
          subst (λ q. At ls1 v1 (level q) (first q) (update ip.addrs i b q)) e
            (subst (At ls1 v1 (level i) (first i)) (sym (at_i b)) at)
      | inr other ↦
          let off = off_i b s (ground arith) in
          subst (At ls1 v1 (level s) (first s)) (sym off) (
            Kept-At ls ls1 v v1 (level s) (first s) (ip.addrs s) k
              (tree.roots s l (λ z. n (off ∙ z))))
    ]

-- What bmap makes of a labelled file where it returns `b`: no byte of the file changes.
pub record Mapped (ls : Labels) (bn : ℕ) (ip : Inode) (v : Volume) (ls' : Labels) (ip' : Inode)
    (v' : Volume) (b : ℕ) : Type 0 where
  pub volume : IsVolume v'
  pub kept : Kept ls ls' v v'
  pub tree : IsTree ls' ip' v'
  pub at : At ls' v' 0 bn b
  pub is : address_of ip' v' bn ≡ b
  pub same : ip' ≡ record ip { addrs = ip'.addrs }
  pub contents : (n o : ℕ) → n < max_file → content_of ip' v' n o ≡ content_of ip v n o

IsTree-kept :
    (ls ls' : Labels) (ip : Inode) (v v' : Volume)
    → IsTree ls ip v
    → Kept ls ls' v v'
    → IsTree ls' ip v'
IsTree-kept ls ls' ip v v' h k = record {
  roots = λ s l n. Kept-At ls ls' v v' (level s) (first s) (ip.addrs s) k (h.roots s l n);
  entries = k.labelled;
}

contents_kept :
    (ls ls' : Labels) (ip : Inode) (v v' : Volume) (n o : ℕ)
    → IsTree ls ip v
    → Kept ls ls' v v'
    → n < max_file
    → content_of ip v' n o ≡ content_of ip v n o
contents_kept ls ls' ip v v' n o h k l =
    let (s, len, small, num) = Leads-places n l in
    k.contents (entries_of n) (ip.addrs (slot_of n)) (first (slot_of n)) o small (λ there.
      let at = h.roots (slot_of n) s there in
      record { held = at.held; left = at.left ∙ sym len; base = at.base })

slot_contents :
    (ls ls' : Labels) (i : ℕ) (ip ip' : Inode) (v v' : Volume) (a n o : ℕ)
    → IsTree ls ip v
    → Slotted ls i ip v ls' ip' v' a
    → n < max_file
    → content_of ip' v' n o ≡ content_of ip v n o
slot_contents ls ls' i ip ip' v v' a n o h k l = elim (Bool-cases (slot_of n == i)) [
  | inl at ↦
      let (s, len, small, num) = Leads-places n l in
      let e : i ≡ slot_of n = ground arith in
      subst
        (λ q.
          content_at v' (address v' (ip'.addrs q) (entries_of n)) o
          ≡ content_at v (address v (ip.addrs q) (entries_of n)) o)
        e (k.contents (entries_of n) o small (len ∙ ap level (sym e)))
  | inr off ↦
      ap (λ q. content_at v' (address v' q (entries_of n)) o) (k.others (slot_of n) (ground arith))
      ∙ contents_kept ls ls' ip v v' n o h k.kept l
]

ok-triple :
    {a a' : Inode} {b b' : Volume} {c c' : ℕ}
    → ◌≡◌ {A = Outcome (Inode × Volume × ℕ)} (ok (a, b, c)) (ok (a', b', c'))
    → (a ≡ a') × (b ≡ b') × (c ≡ c')
ok-triple e =
    (ap (λ p. p.0) (ok-injective e), ap (λ p. p.1) (ok-injective e), ap (λ p. p.2) (ok-injective e))

-- The address that bmap returns is the one of the file from then on.
bmap-address :
    (ls : Labels) (bn : ℕ) (ip ip' : Inode) (v v' : Volume) (b : ℕ)
    → IsVolume v
    → IsTree ls ip v
    → bn < max_file
    → bmap bn ip v ≡ ok (ip', v', b)
    → address_of ip' v' bn ≡ b
bmap-address ls bn ip ip' v v' b h tree l e =
    elim (bmap_lem bn ip v h (IsTree-IsFile ls ip v tree) l) [
      | inl (e', z, w, g, f) ↦ absurd (cc (sym e ∙ e'))
      | inr (ip1, v1, b1, e', m) ↦
          let (i_is, v_is, b_is) = ok-triple (sym e' ∙ e) in
          ap₂ (λ x y. address_of x y bn) (sym i_is) (sym v_is) ∙ m.at ∙ b_is
    ]

pub bmap-Mapped :
    (ls : Labels) (bn : ℕ) (ip : Inode) (v : Volume)
    → IsVolume v
    → IsTree ls ip v
    → bn < max_file
    → ((bmap bn ip v ≡ panic) × Fills v)
      ⊎ ((ip' : Inode) × (v' : Volume) × (b : ℕ) × (ls' : Labels) × (bmap bn ip v ≡ ok (ip', v', b))
          × Mapped ls bn ip v ls' ip' v' b)
unfolding slot_walk
bmap-Mapped ls bn ip v h tree l =
    let (s, len, small, num) = Leads-places bn l in
    let through = bmap-slot_walk bn ip v l in
    elim (slot_block-Slotted ls (slot_of bn) ip v h tree s) [
      | inl (e, full) ↦ inl (through ∙ rw e refl, full)
      | inr (ip', v1, a, ls1, e, k) ↦
          let at : At ls1 v1 (length (entries_of bn)) (first (slot_of bn)) a = record {
            held = k.at.held;
            left = k.at.left ∙ sym len;
            base = k.at.base;
          } in
          elim (walk-StepEnds (entries_of bn) ls1 v1 a (first (slot_of bn)) k.volume k.kept.labelled
            at small) [
              | inl (e', full) ↦ inl (
                through ∙ rw (e, e') refl,
                Fills-before v v1 k.kept.grew.sb_is k.kept.grew.trans_is k.kept.grew.used full,
              )
              | inr (v', b, ls', e', h', m, at') ↦
                  let is : bmap bn ip v ≡ ok (ip', v', b) = through ∙ rw (e, e') refl in
                  inr (
                    ip',
                    v',
                    b,
                    ls',
                    is,
                    (record {
                      volume = h';
                      kept = Kept-trans ls ls1 ls' v v1 v' k.kept m;
                      tree = IsTree-kept ls1 ls' ip' v1 v' k.tree m;
                      at = record { held = at'.held; left = at'.left; base = at'.base ∙ num };
                      is = bmap-address ls bn ip ip' v v' b h tree l is;
                      same = k.same;
                      contents = λ n o ln.
                          contents_kept ls1 ls' ip' v1 v' n o k.tree m ln
                          ∙ slot_contents ls ls1 (slot_of bn) ip ip' v v1 a n o tree k ln;
                    }),
                  )
            ]
    ]
