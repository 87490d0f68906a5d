-- ===== src/Fs/Free.antt =====
-- balloc and bfree: the map of the blocks in use.
use os_project.Prelude.{
  ℕ, ◌+◌, ◌/◌, ◌%◌, ◌^◌, ◌≤◌, ◌<◌, ◌≡◌, ◌≢◌, inl, inr, ◌∙◌, refl, sym, ap, Bool, true, false, ◌&&◌,
  ◌==◌, if◌then◌else◌, arith, update, Bool-cases,
}
use mathlib.Core.Path.{subst}
use os_project.Fs.Bits.{has_bit, set_bit, clear_bit, has_bit-set_bit, has_bit-clear_bit}
use os_project.Fs.{
  SuperBlock, Volume, super_of, bzero, bits_per_block, map_block, in_use, change_map,
}

-- A block of the map itself.
abbrev pub IsMapBlock : Volume → ℕ → Type 0
IsMapBlock v c = (v.sb.bmapstart ≤ c) × (c ≤ v.sb.size / bits_per_block + v.sb.bmapstart)

bit_changed :
    (change : ℕ → ℕ → ℕ) (new : Bool) (f : ℕ → ℕ → ℕ) (b i k b' i' k' : ℕ)
    → ((k j x : ℕ) → has_bit (change x k) j ≡ (if k == j then new else has_bit x j))
    → has_bit (update f b (update (f b) i (change (f b i) k)) b' i') k'
      ≡ (if b == b' && (i == i' && k == k') then new else has_bit (f b' i') k')
bit_changed change new f b i k b' i' k' h = elim (Bool-cases (b == b')) [
  | inl same ↦ elim (Bool-cases (i == i')) [
    | inl byte ↦
        let e : b ≡ b' = ground arith in
        let e' : i ≡ i' = ground arith in rw (same, byte, h k k' (f b i), e, e') refl
    | inr other ↦ let e : b ≡ b' = ground arith in rw (same, other, e) refl
  ]
  | inr other ↦ rw other refl
]

same_bit :
    (b c s : ℕ)
    → (b / bits_per_block + s == c / bits_per_block + s
        && (b % bits_per_block / 8 == c % bits_per_block / 8
            && b % bits_per_block % 8 == c % bits_per_block % 8))
      ≡ (b == c)
same_bit b c s = ground arith

-- The bit of `b` is changed and no other.
pub in_use-change_map :
    (change : ℕ → ℕ → ℕ) (new : Bool) (b c : ℕ) (v : Volume)
    → ((k j x : ℕ) → has_bit (change x k) j ≡ (if k == j then new else has_bit x j))
    → in_use (change_map change b v) c ≡ (if b == c then new else in_use v c)
unfolding in_use change_map
in_use-change_map change new b c v h =
    bit_changed change new v.blocks (map_block b v) (b % bits_per_block / 8)
      (b % bits_per_block % 8) (map_block c v) (c % bits_per_block / 8) (c % bits_per_block % 8) h
    ∙ ap (λ t. if t then new else in_use v c) (same_bit b c v.sb.bmapstart)

pub change_map-rest :
    (change : ℕ → ℕ → ℕ) (b c : ℕ) (v : Volume)
    → map_block b v ≢ c
    → (change_map change b v).blocks c ≡ v.blocks c
unfolding change_map
change_map-rest change b c v h = ground arith

pub change_map-sb : (change : ℕ → ℕ → ℕ) (b : ℕ) (v : Volume) → (change_map change b v).sb ≡ v.sb
unfolding change_map
change_map-sb change b v = refl

pub change_map-outstanding :
    (change : ℕ → ℕ → ℕ) (b : ℕ) (v : Volume) → (change_map change b v).outstanding ≡ v.outstanding
unfolding change_map
change_map-outstanding change b v = refl

bzero-outstanding : (b : ℕ) (v : Volume) → (bzero b v).outstanding ≡ v.outstanding
unfolding bzero
bzero-outstanding b v = refl

-- A volume that mkfs has laid out: the superblock is the one on the disk, and it, the boot block and
-- the map are in use.
pub record IsVolume (v : Volume) : Type 0 where
  pub small : v.sb.size < 2 ^ 32
  pub super_is : super_of (v.blocks 1) ≡ v.sb
  pub boot : (0 < v.sb.size) × (in_use v 0 ≡ true)
  pub super : (1 < v.sb.size) × (in_use v 1 ≡ true)
  pub behind : 1 < v.sb.bmapstart
  pub maps : (c : ℕ) → IsMapBlock v c → (c < v.sb.size) × (in_use v c ≡ true)

pub map_block-IsMapBlock : (v : Volume) (c : ℕ) → c < v.sb.size → IsMapBlock v (map_block c v)
map_block-IsMapBlock v c l = (omega arith, omega arith)

set_rule : (k j x : ℕ) → has_bit (set_bit x k) j ≡ (if k == j then true else has_bit x j)
set_rule k j x = has_bit-set_bit k j x ∙ ground arith

pub clear_rule : (k j x : ℕ) → has_bit (clear_bit x k) j ≡ (if k == j then false else has_bit x j)
clear_rule k j x = has_bit-clear_bit k j x ∙ ground arith

-- The volume `v'` differs from `v` in the bit of `b`, and in the contents of the blocks that `kept`
-- leaves out.
pub record Marked (new : Bool) (b : ℕ) (v v' : Volume) (kept : ℕ → Type 0) : Type 0 where
  pub map : (c : ℕ) → c < v.sb.size → in_use v' c ≡ (if b == c then new else in_use v c)
  pub rest : (c : ℕ) → ¬ (IsMapBlock v c) → kept c → v'.blocks c ≡ v.blocks c
  pub sb_is : v'.sb ≡ v.sb
  pub trans_is : v'.outstanding ≡ v.outstanding

in_use-bzero : (b c : ℕ) (v : Volume) → b ≢ map_block c v → in_use (bzero b v) c ≡ in_use v c
unfolding in_use bzero
in_use-bzero b c v h = let t : (b == map_block c v) ≡ false = ground arith in rw t refl

pub bzero-blocks : (b : ℕ) (v : Volume) → ((bzero b v).blocks b ≡ λ _. 0) × ((bzero b v).sb ≡ v.sb)
unfolding bzero
bzero-blocks b v = (ground arith, refl)

bzero-rest : (b c : ℕ) (v : Volume) → b ≢ c → (bzero b v).blocks c ≡ v.blocks c
unfolding bzero
bzero-rest b c v h = ground arith

not_map :
    (v : Volume) (b c : ℕ) → IsVolume v → in_use v b ≡ false → c < v.sb.size → b ≢ map_block c v
not_map v b c h free l e =
    let used = (h.maps (map_block c v) (map_block-IsMapBlock v c l)).1 in
    let used' : in_use v b ≡ true = ap (in_use v) e ∙ used in absurd (cc (sym used' ∙ free))

pub allocate-Marked :
    (b : ℕ) (v : Volume)
    → IsVolume v
    → b < v.sb.size
    → in_use v b ≡ false
    → Marked true b v (bzero b (change_map set_bit b v)) (λ c. b ≢ c)
allocate-Marked b v h l free = record {
  map = λ c lc.
      in_use-bzero b c (change_map set_bit b v) (λ e.
        not_map v b c h free lc (
          e
          ∙ ap (λ (s : SuperBlock). c / bits_per_block + s.bmapstart) (change_map-sb set_bit b v)))
      ∙ in_use-change_map set_bit true b c v set_rule;
  rest = λ c away other.
      bzero-rest b c (change_map set_bit b v) other
      ∙ change_map-rest set_bit b c v
          (λ e. away (subst (IsMapBlock v) e (map_block-IsMapBlock v b l)));
  sb_is = (bzero-blocks b (change_map set_bit b v)).1 ∙ change_map-sb set_bit b v;
  trans_is = bzero-outstanding b (change_map set_bit b v) ∙ change_map-outstanding set_bit b v;
}
