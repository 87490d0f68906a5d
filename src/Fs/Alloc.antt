-- ===== src/Fs/Alloc.antt =====
-- balloc and bfree: which block is returned, and what of the volume they keep.
use os_project.Prelude.{
  ℕ, zero, suc, ◌+◌, ◌<◌, ◌≡◌, ◌≢◌, ◌⊎◌, inl, inr, ◌∙◌, refl, sym, ap, Bool, true, false, ◌==◌,
  if◌then◌else◌, arith, ltb, Bool-cases, below_suc,
}
use mathlib.Core.Path.{subst}
use os_project.Prelude.Outcome.{Outcome, ok, panic}
use os_project.Fs.Bits.{set_bit, clear_bit}
use os_project.Fs.{
  SuperBlock, Volume, readsb, super_of, bzero, in_use, change_map, balloc_from, balloc, bfree,
}
use os_project.Fs.Free.{
  IsMapBlock, IsVolume, map_block-IsMapBlock, Marked, allocate-Marked, bzero-blocks,
  in_use-change_map, change_map-rest, change_map-sb, change_map-outstanding, clear_rule,
}

-- What a change of the bit of `b` to `new` keeps, where it leaves the superblock and the map in use.
pub Marked-IsVolume :
    (new : Bool) (b : ℕ) (v v' : Volume) (kept : ℕ → Type 0)
    → IsVolume v
    → Marked new b v v' kept
    → kept 1
    → ((c : ℕ) → c < v.sb.size → in_use v c ≡ true → (c < 2) ⊎ IsMapBlock v c → in_use v' c ≡ true)
    → IsVolume v'
Marked-IsVolume new b v v' kept h m k stays =
    let size_is = ap (λ (s : SuperBlock). s.size) m.sb_is in
    let start_is = ap (λ (s : SuperBlock). s.bmapstart) m.sb_is in
    record {
      small = omega (arith, size_is, h.small);
      super_is =
          ap super_of (m.rest 1 (λ at. omega (arith, at.0, h.behind)) k) ∙ h.super_is ∙ sym m.sb_is;
      boot = (omega (arith, size_is, h.boot.0), stays 0 h.boot.0 h.boot.1 (inl (omega arith)));
      super = (omega (arith, size_is, h.super.0), stays 1 h.super.0 h.super.1 (inl (omega arith)));
      behind = omega (arith, start_is, h.behind);
      maps = λ c at.
          let at' : IsMapBlock v c =
            (omega (arith, start_is, at.0), omega (arith, start_is, size_is, at.1)) in
          let (l, used) = h.maps c at' in (omega (arith, size_is, l), stays c l used (inr at'));
    }

-- What balloc makes of a volume where it returns `b`.
pub record Allocated (v : Volume) (b : ℕ) (v' : Volume) : Type 0 where
  pub inside : b < v.sb.size
  pub was_free : in_use v b ≡ false
  pub first : (c : ℕ) → c < b → in_use v c ≡ true
  pub zeroed : v'.blocks b ≡ λ _. 0
  pub marked : Marked true b v v' (λ c. b ≢ c)
  pub volume : IsVolume v'

allocated :
    (b : ℕ) (v : Volume)
    → IsVolume v
    → b < v.sb.size
    → in_use v b ≡ false
    → ((c : ℕ) → c < b → in_use v c ≡ true)
    → Allocated v b (bzero b (change_map set_bit b v))
allocated b v h l free before =
    let m = allocate-Marked b v h l free in
    record {
      inside = l;
      was_free = free;
      first = before;
      zeroed = (bzero-blocks b (change_map set_bit b v)).0;
      marked = m;
      volume =
          Marked-IsVolume true b v _ _ h m
            (λ e. absurd (cc (sym h.super.1 ∙ ap (in_use v) (sym e) ∙ free)))
            (λ c lc used _. m.map c lc ∙ stays (b == c) (in_use v c) used);
    }
  where
    stays : (t u : Bool) → u ≡ true → (if t then true else u) ≡ true
    stays t u e = ground arith

-- No block is free, or no call is in a transaction.
abbrev pub IsStuck : Volume → Type 0
IsStuck v = ((c : ℕ) → c < v.sb.size → in_use v c ≡ true) ⊎ (v.outstanding ≡ 0)

-- balloc panics with no free block and outside a transaction, and otherwise returns the first one.
abbrev pub BallocEnds : Volume → Outcome (Volume × ℕ) → Type 0
BallocEnds v r =
    (IsStuck v × (r ≡ panic)) ⊎ ((v' : Volume) × (b : ℕ) × (r ≡ ok (v', b)) × Allocated v b v')

balloc_from_lem :
    (left b : ℕ) (v : Volume)
    → IsVolume v
    → b + left ≡ v.sb.size
    → ((c : ℕ) → c < b → in_use v c ≡ true)
    → BallocEnds v (balloc_from left b v)
unfolding balloc_from
balloc_from_lem zero b v h e before = inl (inl (λ c l. before c (omega arith)), refl)
balloc_from_lem (suc left) b v h e before = elim (Bool-cases (in_use v b)) [
  | inl used ↦
      rw (used, balloc_from)
        (balloc_from_lem left (b + 1) v h (omega arith)
          (below_suc (λ c. in_use v c ≡ true) b before used))
  | inr free ↦ elim (Bool-cases (ltb v.outstanding 1)) [
    | inl idle ↦ rw (free, idle, balloc_from) (inl (inr (ground arith), refl))
    | inr busy ↦
        rw (free, busy, balloc_from) (inr (_, b, refl, allocated b v h (omega arith) free before))
  ]
]

-- On a volume whose boot block, superblock and map are in use, balloc panics where every block is or no call is in a transaction, and otherwise returns the first free block, now in use
-- and zeroed, with every other block that is not of the map as it was.
pub balloc_lem : (v : Volume) → IsVolume v → BallocEnds v (balloc v)
unfolding balloc
balloc_lem v h = balloc_from_lem v.sb.size 0 v h (omega arith) (λ c l. absurd (omega arith))

-- What bfree of `b` makes of a volume.
pub record Freed (v : Volume) (b : ℕ) (v' : Volume) : Type 0 where
  pub marked : Marked false b v v' (λ _. Unit {0})
  pub volume : IsVolume v'

readsb-same : (v : Volume) → IsVolume v → readsb v ≡ v
unfolding readsb
readsb-same v h = ap (λ (s : SuperBlock). record v { sb = s }) h.super_is

-- On such a volume bfree of a block of contents panics where the block is free already, and otherwise
-- clears its bit and changes nothing else but the block of the map.
pub bfree_lem :
    (b : ℕ) (v : Volume)
    → IsVolume v
    → b < v.sb.size
    → 1 < b
    → ¬ (IsMapBlock v b)
    → ((in_use v b ≡ false) × (bfree b v ≡ panic))
      ⊎ ((v' : Volume) × (bfree b v ≡ ok v') × (in_use v b ≡ true) × Freed v b v')
unfolding bfree
bfree_lem b v h l low away = elim (Bool-cases (in_use v b)) [
  | inl used ↦ inr (
    change_map clear_bit b v,
    rw (readsb-same v h, used, bfree)
        (ap (λ (v' : Volume). ok (change_map clear_bit b v')) (readsb-same v h)),
    used,
    freed,
  )
  | inr free ↦ inl (free, rw (readsb-same v h, free, bfree) refl)
]
  where
    marked : Marked false b v (change_map clear_bit b v) (λ _. Unit {0})
    marked = record {
      map = λ c lc. in_use-change_map clear_bit false b c v clear_rule;
      rest = λ c off _.
          change_map-rest clear_bit b c v
            (λ e. off (subst (IsMapBlock v) e (map_block-IsMapBlock v b l)));
      sb_is = change_map-sb clear_bit b v;
      trans_is = change_map-outstanding clear_bit b v;
    }

    stays : (c : ℕ) → (b ≢ c) → in_use v c ≡ true → (if b == c then false else in_use v c) ≡ true
    stays c d e = ground arith

    other : (c : ℕ) → (c < 2) ⊎ IsMapBlock v c → b ≢ c
    other c (inl small) e = omega arith
    other c (inr at) e = away (subst (IsMapBlock v) (sym e) at)

    freed : Freed v b (change_map clear_bit b v)
    freed = record {
      marked = marked;
      volume =
          Marked-IsVolume false b v _ _ h marked tt
            (λ c lc used which. marked.map c lc ∙ stays c (other c which) used);
    }
