-- ===== src/Fs/Trunc/Slots.antt =====
-- The slots of an inode in itrunc: each frees the blocks behind it, then its own, and is cleared.
use os_project.Prelude.{
  ℕ, ◌+◌, ◌≤◌, ◌<◌, ◌≡◌, ◌⊎◌, inl, inr, ◌∙◌, refl, sym, ap, true, false, ◌==◌, arith, update,
  Bool-cases, List, [], ◌∷◌, ◌++◌, All,
}
use mathlib.Core.Path.{subst}
use os_project.Prelude.Outcome.{Outcome, ok, panic, fault, ◌>>=◌}
use os_project.Fs.{Volume, bfree}
use os_project.Fs.Free.{IsVolume}
use os_project.Fs.Bmap.{Inode}
use os_project.Fs.Trunc.{free_slot}
use os_project.Fs.Trunc.Freeing.{
  free_all, free_all-append, free_all-nil, Agree, IsContents, free_all-AgreeEnds, Frees, All-split,
  then_block,
}

-- The blocks that a slot with the address `a` leads to.
unfoldable pub slot_blocks : (ℕ → List ℕ) → ℕ → List ℕ
slot_blocks bs a = elim (a == 0) [ true ↦ [] | false ↦ bs a ++ a ∷ [] ]

-- The first `m` slots are cleared, and nothing else is changed.
pub record Cleared (m : ℕ) (ip ip' : Inode) : Type 0 where
  pub low : (j : ℕ) → j < m → ip'.addrs j ≡ 0
  pub high : (j : ℕ) → m ≤ j → ip'.addrs j ≡ ip.addrs j
  pub rest : (ip'.inum ≡ ip.inum) × (ip'.type ≡ ip.type) × (ip'.nlink ≡ ip.nlink)

-- The code `r` frees the blocks `bs`, and clears the slots below `m`.
abbrev pub SlotsEnd : Volume → Inode → ℕ → List ℕ → Volume → Outcome (Inode × Volume) → Type 0
SlotsEnd v ip m bs v1 r =
    ((free_all bs v1 ≡ panic) × (r ≡ panic))
    ⊎ ((ip' : Inode) × (v2 : Volume) × (free_all bs v1 ≡ ok v2)
        × (r ≡ ok (ip', v2))
        × IsVolume v2
        × Agree v v2
        × Cleared m ip ip')

pub SlotsEnd-seq :
    (v : Volume) (ip : Inode) (m n : ℕ) (bs cs : List ℕ) (v1 : Volume)
    (r : Outcome (Inode × Volume)) (k : Inode × Volume → Outcome (Inode × Volume))
    → SlotsEnd v ip m bs v1 r
    → ((ip1 : Inode) (v2 : Volume)
        → IsVolume v2
        → Agree v v2
        → Cleared m ip ip1
        → SlotsEnd v ip n cs v2 (k (ip1, v2)))
    → SlotsEnd v ip n (bs ++ cs) v1 (r >>= k)
SlotsEnd-seq v ip m n bs cs v1 r k (inl (e, er)) next =
    inl (free_all-append bs cs v1 ∙ ap (λ q. q >>= free_all cs) e, ap (λ q. q >>= k) er)
SlotsEnd-seq v ip m n bs cs v1 r k (inr (ip1, v2, e, er, h2, g2, c)) next =
    elim (next ip1 v2 h2 g2 c) [
      | inl (e', er') ↦ inl (
        free_all-append bs cs v1 ∙ ap (λ q. q >>= free_all cs) e ∙ e',
        ap (λ q. q >>= k) er ∙ er',
      )
      | inr (ip', v3, e', er', h3, g3, c') ↦ inr (
        ip',
        v3,
        free_all-append bs cs v1 ∙ ap (λ q. q >>= free_all cs) e ∙ e',
        ap (λ q. q >>= k) er ∙ er',
        h3,
        g3,
        c',
      )
    ]

slot_blocks-zero : (bs : ℕ → List ℕ) (a : ℕ) → (a == 0) ≡ true → slot_blocks bs a ≡ []
unfolding slot_blocks
slot_blocks-zero bs a e = rw (e, slot_blocks) refl

slot_blocks-cons : (bs : ℕ → List ℕ) (a : ℕ) → (a == 0) ≡ false → slot_blocks bs a ≡ bs a ++ a ∷ []
unfolding slot_blocks
slot_blocks-cons bs a e = rw (e, slot_blocks) refl

Cleared-one :
    (i : ℕ) (ip ip1 : Inode)
    → Cleared i ip ip1
    → Cleared (i + 1) ip (record ip1 { addrs = update ip1.addrs i 0 })
Cleared-one i ip ip1 c = record {
  low = λ j l. ground (arith, c.low j);
  high = λ j l. ground (arith, c.high j);
  rest = c.rest;
}

Cleared-none :
    (i : ℕ) (ip ip1 : Inode) → Cleared i ip ip1 → ip1.addrs i ≡ 0 → Cleared (i + 1) ip ip1
Cleared-none i ip ip1 c z = record {
  low = λ j l. below j l;
  high = λ j l. c.high j (omega arith);
  rest = c.rest;
}
  where
    below : (j : ℕ) → j < i + 1 → ip1.addrs j ≡ 0
    below j l = elim (Bool-cases (j == i)) [
      | inl at ↦ ap ip1.addrs {x = j} {y = i} (ground arith) ∙ z
      | inr off ↦ c.low j (ground arith)
    ]

-- The inode and the volume where the slot is cleared.
abbrev pub clear_slot : ℕ → Inode → Outcome Volume → Outcome (Inode × Volume)
clear_slot i ip (ok w) = ok (record ip { addrs = update ip.addrs i 0 }, w)
clear_slot i ip panic = panic
clear_slot i ip fault = fault

abbrev done : Outcome Volume → Outcome Volume
done r = r >>= λ w. ok w

free_slot-cons :
    (below : ℕ → Volume → Outcome Volume) (i : ℕ) (ip : Inode) (v : Volume)
    → (ip.addrs i == 0) ≡ false
    → free_slot below i (ip, v)
      ≡ clear_slot i ip (done (below (ip.addrs i) v >>= bfree (ip.addrs i)))
unfolding free_slot
free_slot-cons below i ip v e = rw (e, free_slot) (bound (below (ip.addrs i) v))
  where
    cleared : (w : Volume) → Outcome (Inode × Volume)
    cleared w = ok (record ip { addrs = update ip.addrs i 0 }, w)

    freed : (q : Outcome Volume) → (q >>= cleared) ≡ clear_slot i ip (done q)
    freed (ok w) = refl
    freed panic = refl
    freed fault = refl

    bound :
        (r : Outcome Volume)
        → (r >>= λ (v1 : Volume). bfree (ip.addrs i) v1 >>= cleared)
          ≡ clear_slot i ip (done (r >>= bfree (ip.addrs i)))
    bound (ok v1) = freed (bfree (ip.addrs i) v1)
    bound panic = refl
    bound fault = refl

-- A slot that is not empty.
full_slot :
    (below : ℕ → Volume → Outcome Volume) (bs : ℕ → List ℕ) (i : ℕ) (v : Volume) (ip ip1 : Inode)
    (v1 : Volume)
    → IsVolume v
    → Frees v below bs
    → Cleared i ip ip1
    → Agree v v1
    → IsVolume v1
    → (ip1.addrs i == 0) ≡ false
    → All (IsContents v) (bs (ip1.addrs i) ++ ip1.addrs i ∷ [])
    → SlotsEnd v ip (i + 1) (bs (ip1.addrs i) ++ ip1.addrs i ∷ []) v1 (free_slot below i (ip1, v1))
full_slot below bs i v ip ip1 v1 h fr c g h1 there at =
    let a = ip1.addrs i in
    let (at_bs, at_a) = All-split (IsContents v) (bs a) (a ∷ []) at in
    let all_freed : done (below a v1 >>= bfree a) ≡ free_all (bs a ++ a ∷ []) v1 =
      then_block v v1 (bs a) [] a (below a v1 >>= bfree a) (λ w. ok w) h g h1 at_bs at_a.0
        (ap (λ r. r >>= bfree a) (fr a v1 g h1 at_a.0 at_bs)) (λ v3 g3 h3. sym (free_all-nil v3)) in
    let is : free_slot below i (ip1, v1) ≡ clear_slot i ip1 (free_all (bs a ++ a ∷ []) v1) =
      free_slot-cons below i ip1 v1 there ∙ ap (clear_slot i ip1) all_freed in
    elim (free_all-AgreeEnds (bs a ++ a ∷ []) v v1 h g h1 at) [
      | inl e ↦ inl (e, is ∙ ap (clear_slot i ip1) e)
      | inr (v2, e, h2, g2) ↦ inr (
        record ip1 { addrs = update ip1.addrs i 0 },
        v2,
        e,
        is ∙ ap (clear_slot i ip1) e,
        h2,
        g2,
        Cleared-one i ip ip1 c,
      )
    ]

-- One slot.
pub free_slot-SlotsEnd :
    (below : ℕ → Volume → Outcome Volume) (bs : ℕ → List ℕ) (i : ℕ) (v : Volume) (ip ip1 : Inode)
    (v1 : Volume)
    → IsVolume v
    → Frees v below bs
    → Cleared i ip ip1
    → Agree v v1
    → IsVolume v1
    → All (IsContents v) (slot_blocks bs (ip.addrs i))
    → SlotsEnd v ip (i + 1) (slot_blocks bs (ip.addrs i)) v1 (free_slot below i (ip1, v1))
unfolding free_slot
free_slot-SlotsEnd below bs i v ip ip1 v1 h fr c g h1 at =
    let same : ip1.addrs i ≡ ip.addrs i = c.high i (omega arith) in
    elim (Bool-cases (ip.addrs i == 0)) [
      | inl empty ↦
          let z : ip1.addrs i ≡ 0 = ground arith in
          rw (slot_blocks-zero bs (ip.addrs i) empty) (
            inr (
              ip1,
              v1,
              free_all-nil v1,
              rw (ap (λ a. a == 0) same ∙ empty, free_slot) refl,
              h1,
              g,
              Cleared-none i ip ip1 c z,
            ))
      | inr there ↦
          let eq = slot_blocks-cons bs (ip.addrs i) there ∙ ap (λ a. bs a ++ a ∷ []) (sym same) in
          subst (λ l. SlotsEnd v ip (i + 1) l v1 (free_slot below i (ip1, v1))) (sym eq)
            (full_slot below bs i v ip ip1 v1 h fr c g h1 (ap (λ a. a == 0) same ∙ there)
              (subst (All (IsContents v)) eq at))
    ]
