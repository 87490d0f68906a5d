-- ===== src/Fs/Bmap/Address.antt =====
-- bmap: the block of a file under each block number.
use os_project.Prelude.{
  ℕ, ◌<◌, ◌≡◌, ◌≢◌, ◌⊎◌, inl, inr, ◌∙◌, refl, sym, ap, false, ◌==◌, arith, update, Bool-cases, List,
}
use mathlib.Core.Path.{subst}
use os_project.Prelude.Outcome.{ok, panic}
use os_project.Fs.{Volume, in_use}
use os_project.Fs.Free.{IsVolume}
use os_project.Fs.Alloc.{IsStuck, balloc_lem}
use os_project.Fs.Bmap.{Inode, slot_block, bmap, max_file}
use os_project.Fs.Bmap.Held.{Held, HeldPath, HeldPath-head, Grew, Grew-refl, Grew-trans}
use os_project.Fs.Bmap.Entry.{new-HeldPath, Allocated-Held, Allocated-Grew}
use os_project.Fs.Bmap.Fill.{Stepped, Stepped-old}
use os_project.Fs.Bmap.Levels.{slot_of, entries_of, slot_walk, bmap-slot_walk}
use os_project.Fs.Bmap.Walk.{
  address-zero, address, address-Grew, Stepped-trans, Stepped-missing, walk_lem,
}

-- slot_block panics with no block free, or fills the slot if it is empty, and no other.
pub slot_block_lem :
    (i : ℕ) (ip : Inode) (v : Volume)
    → IsVolume v
    → (ip.addrs i ≢ 0 → Held v (ip.addrs i))
    → ((slot_block i ip v ≡ panic) × (ip.addrs i ≡ 0) × IsStuck v)
      ⊎ ((ip' : Inode) × (v' : Volume) × (b : ℕ) × (slot_block i ip v ≡ ok (ip', v', b))
          × Stepped v (ip.addrs i) b v'
          × (ip'.addrs i ≡ b)
          × ((j : ℕ) → j ≢ i → ip'.addrs j ≡ ip.addrs j)
          × (ip.addrs i ≢ 0 → ip' ≡ ip))
unfolding slot_block
slot_block_lem i ip v h held = elim (Bool-cases (ip.addrs i == 0)) [
  | inr there ↦
      let n : ip.addrs i ≢ 0 = ground arith in
      inr (
        ip,
        v,
        ip.addrs i,
        rw (there, slot_block) refl,
        Stepped-old v _ h n (held n),
        refl,
        λ j d. refl,
        λ _. refl,
      )
  | inl none_yet ↦
      let z : ip.addrs i ≡ 0 = ground arith in
      elim (balloc_lem v h) [
        | inl (full, e) ↦ inl (rw (none_yet, e, slot_block) refl, z, full)
        | inr (v1, b, e, a) ↦ inr (
          record ip { addrs = update ip.addrs i b },
          v1,
          b,
          rw (none_yet, e, slot_block) refl,
          (record {
            volume = a.volume;
            grew = Allocated-Grew v v1 b a;
            nonzero = λ q. omega (arith, (Allocated-Held v v1 b h a).high);
            held = Allocated-Held v v1 b h a;
            stays = λ n. absurd (n z);
            fresh = λ _. (a.was_free, a.zeroed);
          }),
          at i b,
          away i b,
          λ n. absurd (n z),
        )
      ]
]
  where
    at : (i b : ℕ) → update ip.addrs i b i ≡ b
    at i b = ground arith

    away : (i b j : ℕ) → j ≢ i → update ip.addrs i b j ≡ ip.addrs j
    away i b j d = ground arith

-- What a slot and a walk from it make of the file.
record Reached (s : ℕ) (is : List ℕ) (ip : Inode) (v : Volume) (ip' : Inode) (v' : Volume) (b : ℕ)
    : Type 0 where
  pub stepped : Stepped v (address v (ip.addrs s) is) b v'
  pub at : address v' (ip'.addrs s) is ≡ b
  pub others : (j : ℕ) → j ≢ s → ip'.addrs j ≡ ip.addrs j
  pub same : ip.addrs s ≢ 0 → ip' ≡ ip
  pub paths : (js : List ℕ) → HeldPath v (ip.addrs s) js → HeldPath v' (ip'.addrs s) js

slot_paths :
    (s : ℕ) (ip ip' : Inode) (v v1 v' : Volume) (a : ℕ)
    → Stepped v (ip.addrs s) a v1
    → Grew v1 v'
    → ip'.addrs s ≡ a
    → (js : List ℕ) → HeldPath v (ip.addrs s) js
    → HeldPath v' (ip'.addrs s) js
slot_paths s ip ip' v v1 v' a st g at js p = elim (Bool-cases (ip.addrs s == 0)) [
  | inl none_yet ↦
      subst (λ c. HeldPath v' c js) (sym at)
        (g.paths a js (new-HeldPath v1 a st.held (st.fresh (ground arith)).1 js))
  | inr there ↦
      let same = (st.stays (ground arith)).1 in
      subst (λ c. HeldPath v' c js) (sym (at ∙ same)) (g.paths _ js (st.grew.paths _ js p))
]

slot_walk_lem :
    (s : ℕ) (is : List ℕ) (ip : Inode) (v : Volume)
    → IsVolume v
    → HeldPath v (ip.addrs s) is
    → ((slot_walk s is ip v ≡ panic)
        × (address v (ip.addrs s) is ≡ 0)
        × (w : Volume) × Grew v w
        × IsStuck w)
      ⊎ ((ip' : Inode) × (v' : Volume) × (b : ℕ) × (slot_walk s is ip v ≡ ok (ip', v', b))
          × Reached s is ip v ip' v' b)
unfolding slot_walk
slot_walk_lem s is ip v h p = elim (slot_block_lem s ip v h (HeldPath-head v is (ip.addrs s) p)) [
  | inl (e, z, full) ↦ inl (rw e refl, address-zero v (ip.addrs s) is z, v, Grew-refl v, full)
  | inr (ip', v1, a, e, st, at, others, same) ↦
      let p1 : HeldPath v1 a is =
        subst (λ c. HeldPath v1 c is) at
          (slot_paths s ip ip' v v1 v1 a st (Grew-refl v1) at is p) in
      elim (walk_lem a is v1 st.volume st.held p1) [
        | inl (e', z, w, g, full) ↦ inl (
          rw (e, e') refl,
          Stepped-missing v v1 (ip.addrs s) a is st z,
          w,
          Grew-trans v v1 w st.grew g,
          full,
        )
        | inr (v', b, e', t, there) ↦ inr (
          ip',
          v',
          b,
          rw (e, e') refl,
          (record {
            stepped = Stepped-trans v v1 v' (ip.addrs s) a b is st t;
            at = ap (λ c. address v' c is) at ∙ there;
            others = others;
            same = same;
            paths = slot_paths s ip ip' v v1 v' a st t.grew at;
          }),
        )
      ]
]

-- The block of the file for a block number; 0 where there is none.
abbrev pub address_of : Inode → Volume → ℕ → ℕ
address_of ip v bn = address v (ip.addrs (slot_of bn)) (entries_of bn)

-- The blocks and tables of the file are blocks of contents in use.
abbrev pub IsFile : Inode → Volume → Type 0
IsFile ip v = (bn : ℕ) → bn < max_file → HeldPath v (ip.addrs (slot_of bn)) (entries_of bn)

-- What bmap makes of a file where it returns `b`.
pub record Mapped (bn : ℕ) (ip : Inode) (v : Volume) (ip' : Inode) (v' : Volume) (b : ℕ)
    : Type 0 where
  pub volume : IsVolume v'
  pub file : IsFile ip' v'
  pub at : address_of ip' v' bn ≡ b
  pub held : Held v' b
  pub stays : address_of ip v bn ≢ 0 → (ip' ≡ ip) × (v' ≡ v) × (b ≡ address_of ip v bn)
  pub fresh : address_of ip v bn ≡ 0 → (in_use v b ≡ false) × (v'.blocks b ≡ (λ _. 0))
  pub kept :
      (n : ℕ) → n < max_file → address_of ip v n ≢ 0 → address_of ip' v' n ≡ address_of ip v n

Reached-Mapped :
    (bn : ℕ) (ip ip' : Inode) (v v' : Volume) (b : ℕ)
    → IsFile ip v
    → Reached (slot_of bn) (entries_of bn) ip v ip' v' b
    → Mapped bn ip v ip' v' b
Reached-Mapped bn ip ip' v v' b h r = record {
  volume = r.stepped.volume;
  file = λ n l. file n (h n l);
  at = r.at;
  held = r.stepped.held;
  stays = λ n.
      let (same, is) = r.stepped.stays n in
      (r.same (λ e. n (address-zero v (ip.addrs (slot_of bn)) (entries_of bn) e)), same, is);
  fresh = r.stepped.fresh;
  kept = λ n l there.
      ap (λ c. address v' c (entries_of n))
        (root n (λ e. there (address-zero v (ip.addrs (slot_of n)) (entries_of n) e)))
      ∙ address-Grew v v' (ip.addrs (slot_of n)) (entries_of n) r.stepped.grew (h n l) there;
}
  where
    file :
        (n : ℕ)
        → HeldPath v (ip.addrs (slot_of n)) (entries_of n)
        → HeldPath v' (ip'.addrs (slot_of n)) (entries_of n)
    file n p = elim (Bool-cases (slot_of n == slot_of bn)) [
      | inl at ↦
          let e : slot_of bn ≡ slot_of n = ground arith in
          subst
            (λ s. HeldPath v (ip.addrs s) (entries_of n) → HeldPath v' (ip'.addrs s) (entries_of n))
            e (r.paths (entries_of n)) p
      | inr off ↦
          subst (λ c. HeldPath v' c (entries_of n)) (sym (r.others (slot_of n) (ground arith)))
            (r.stepped.grew.paths (ip.addrs (slot_of n)) (entries_of n) p)
    ]

    root : (n : ℕ) → ip.addrs (slot_of n) ≢ 0 → ip'.addrs (slot_of n) ≡ ip.addrs (slot_of n)
    root n there = elim (Bool-cases (slot_of n == slot_of bn)) [
      | inl at ↦
          let e : slot_of bn ≡ slot_of n = ground arith in
          ap (λ (x : Inode). x.addrs (slot_of n)) (r.same (λ z. there (ap ip.addrs (sym e) ∙ z)))
      | inr off ↦ r.others (slot_of n) (ground arith)
    ]

pub bmap_lem :
    (bn : ℕ) (ip : Inode) (v : Volume)
    → IsVolume v
    → IsFile ip v
    → bn < max_file
    → ((bmap bn ip v ≡ panic) × (address_of ip v bn ≡ 0) × (w : Volume) × Grew v w × IsStuck w)
      ⊎ ((ip' : Inode) × (v' : Volume) × (b : ℕ) × (bmap bn ip v ≡ ok (ip', v', b))
          × Mapped bn ip v ip' v' b)
bmap_lem bn ip v h f l =
    let through = bmap-slot_walk bn ip v l in
    elim (slot_walk_lem (slot_of bn) (entries_of bn) ip v h (f bn l)) [
      | inl (e, z, w, g, full) ↦ inl (through ∙ e, z, w, g, full)
      | inr (ip', v', b, e, r) ↦ inr (ip', v', b, through ∙ e, Reached-Mapped bn ip ip' v v' b f r)
    ]
