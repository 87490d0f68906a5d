-- ===== src/Fs/Bmap/Levels.antt =====
-- The case of bmap for a block number, and the digits of the number.
use os_project.Prelude.{
  ℕ, ◌-◌, ◌/◌, ◌%◌, ◌≤◌, ◌<◌, ◌≡◌, ◌∙◌, refl, sym, true, false, ltb, if◌then◌else◌, arith, List, [],
  ◌∷◌,
}
use native.Mathlib.Decide.{dec_lt}
use os_project.Prelude.Outcome.{Outcome, ok, panic, fault, ◌>>=◌}
use os_project.Fs.{Volume}
use os_project.Fs.Bmap.{
  Inode, slot_block, entry_block, bmap_indirect, bmap_double, bmap_triple, bmap, max_file,
}
use os_project.Fs.Bmap.Walk.{walk}

-- The slot of the inode and the entries of the tables for a block number: its digits to the base
-- nindirect, behind the numbers of the smaller levels.
unfoldable pub slot_of : ℕ → ℕ
slot_of bn = if ltb bn 10 then bn else if ltb bn 138 then 10 else if ltb bn 16522 then 11 else 12

unfoldable pub entries_of : ℕ → List ℕ
entries_of bn =
    if ltb bn 10
    then []
    else if ltb bn 138
    then ((bn - 10) ∷ [])
    else if ltb bn 16522
    then (((bn - 138) / 128) ∷ ((bn - 138) % 128) ∷ [])
    else (((bn - 16522) / 128 / 128) ∷ ((bn - 16522) / 128 % 128) ∷ ((bn - 16522) % 128) ∷ [])

-- A slot and a walk from it.
unfoldable pub slot_walk : ℕ → List ℕ → Inode → Volume → Outcome (Inode × Volume × ℕ)
slot_walk s is ip v = do (ip', v1, a) ← slot_block s ip v; (v2, b) ← walk a is v1; ok (ip', v2, b)

walk_bind :
    {A : Type 0} (a i : ℕ) (is : List ℕ) (v : Volume) (k : Volume × ℕ → Outcome A)
    → (walk a (i ∷ is) v >>= k) ≡ (entry_block a i v >>= λ (r : Volume × ℕ). walk r.1 is r.0 >>= k)
unfolding walk
walk_bind a i is v k =
    elim (entry_block a i v)
      as (λ q.
        (q >>= (λ (r : Volume × ℕ). walk r.1 is r.0) >>= k)
        ≡ (q >>= λ (r : Volume × ℕ). walk r.1 is r.0 >>= k)) [
          | ok r ↦ refl
          | panic ↦ refl
          | fault ↦ refl
        ]

walk_nil : (a : ℕ) (v : Volume) → walk a [] v ≡ ok (v, a)
unfolding walk
walk_nil a v = refl

walk_one :
    {A : Type 0} (a i : ℕ) (v : Volume) (k : Volume × ℕ → Outcome A)
    → (walk a (i ∷ []) v >>= k) ≡ (entry_block a i v >>= k)
unfolding walk
walk_one a i v k = walk_bind a i [] v k

walk_two :
    {A : Type 0} (a i j : ℕ) (v : Volume) (k : Volume × ℕ → Outcome A)
    → (walk a (i ∷ j ∷ []) v >>= k)
      ≡ (entry_block a i v >>= λ (r : Volume × ℕ). entry_block r.1 j r.0 >>= k)
walk_two a i j v k = walk_bind a i (j ∷ []) v k ∙ λ t.
    entry_block a i v >>= λ (r : Volume × ℕ). walk_one r.1 j r.0 k t

walk_three :
    {A : Type 0} (a i j l : ℕ) (v : Volume) (k : Volume × ℕ → Outcome A)
    → (walk a (i ∷ j ∷ l ∷ []) v >>= k) ≡ (
        entry_block a i v >>= λ (r : Volume × ℕ).
        entry_block r.1 j r.0 >>= λ (q : Volume × ℕ). entry_block q.1 l q.0 >>= k)
walk_three a i j l v k = walk_bind a i (j ∷ l ∷ []) v k ∙ λ t.
    entry_block a i v >>= λ (r : Volume × ℕ). walk_two r.1 j l r.0 k t

-- The case of bmap for a block number of each level.
in_level :
    (bn : ℕ) (ip : Inode) (v : Volume) (s : ℕ) (is : List ℕ)
    → slot_of bn ≡ s
    → entries_of bn ≡ is
    → slot_walk (slot_of bn) (entries_of bn) ip v ≡ slot_walk s is ip v
in_level bn ip v s is e e' = rw (e, e') refl

slot_walk-nil : (s : ℕ) (ip : Inode) (v : Volume) → slot_walk s [] ip v ≡ slot_block s ip v
unfolding slot_walk walk
slot_walk-nil s ip v =
    elim (slot_block s ip v) as (λ q. (do (ip', v1, a) ← q; ok (ip', v1, a)) ≡ q) [
      | ok r ↦ refl
      | panic ↦ refl
      | fault ↦ refl
    ]

bmap_indirect-walk :
    (bn : ℕ) (ip : Inode) (v : Volume) → bmap_indirect bn ip v ≡ slot_walk 10 (bn ∷ []) ip v
unfolding bmap_indirect slot_walk
bmap_indirect-walk bn ip v = λ t. slot_block 10 ip v >>= λ (r : Inode × Volume × ℕ).
    sym (walk_one r.2 bn r.1 (λ (q : Volume × ℕ). ok (r.0, q.0, q.1))) t

bmap_double-walk :
    (bn : ℕ) (ip : Inode) (v : Volume)
    → bmap_double bn ip v ≡ slot_walk 11 (bn / 128 ∷ bn % 128 ∷ []) ip v
unfolding bmap_double slot_walk
bmap_double-walk bn ip v = λ t. slot_block 11 ip v >>= λ (r : Inode × Volume × ℕ).
    sym (walk_two r.2 (bn / 128) (bn % 128) r.1 (λ (q : Volume × ℕ). ok (r.0, q.0, q.1))) t

bmap_triple-walk :
    (bn : ℕ) (ip : Inode) (v : Volume)
    → bmap_triple bn ip v
      ≡ slot_walk 12 (bn / 16384 ∷ bn % 16384 / 128 ∷ bn % 16384 % 128 ∷ []) ip v
unfolding bmap_triple slot_walk
bmap_triple-walk bn ip v = λ t. slot_block 12 ip v >>= λ (r : Inode × Volume × ℕ).
    sym
      (walk_three r.2 (bn / 16384) (bn % 16384 / 128) (bn % 16384 % 128) r.1
        (λ (q : Volume × ℕ). ok (r.0, q.0, q.1)))
      t

pub levels :
    (bn : ℕ)
    → (10 ≤ bn → bn < 138 → (slot_of bn ≡ 10) × (entries_of bn ≡ (bn - 10) ∷ []))
      × (138 ≤ bn
          → bn < 16522
          → (slot_of bn ≡ 11) × (entries_of bn ≡ ((bn - 138) / 128) ∷ ((bn - 138) % 128) ∷ []))
      × (16522 ≤ bn
          → (slot_of bn ≡ 12)
            × (entries_of bn
                ≡ ((bn - 16522) / 128 / 128)
                  ∷ ((bn - 16522) / 128 % 128)
                  ∷ ((bn - 16522) % 128)
                  ∷ []))
      × (bn < 10 → (slot_of bn ≡ bn) × (entries_of bn ≡ []))
unfolding slot_of entries_of
levels bn = (
  λ lo hi. (ground arith, ground arith),
  λ lo hi. (ground arith, ground arith),
  λ lo. (ground arith, ground arith),
  λ hi. (ground arith, ground arith),
)

digits :
    (n : ℕ)
    → (n / 16384 ≡ n / 128 / 128) × (n % 16384 / 128 ≡ n / 128 % 128) × (n % 16384 % 128 ≡ n % 128)
digits n = (omega arith, omega arith, omega arith)

triple-walk :
    (bn m : ℕ) (ip : Inode) (v : Volume)
    → m ≡ bn - 16522
    → bmap_triple m ip v
      ≡ slot_walk 12
          (((bn - 16522) / 128 / 128) ∷ ((bn - 16522) / 128 % 128) ∷ ((bn - 16522) % 128) ∷ [])
          ip
          v
triple-walk bn m ip v e =
    let (d0, d1, d2) = digits m in bmap_triple-walk m ip v ∙ rw (d0, d1, d2, e) refl

-- bmap goes through the slot and the entries that the block number stands for.
pub bmap-slot_walk :
    (bn : ℕ) (ip : Inode) (v : Volume)
    → bn < max_file
    → bmap bn ip v ≡ slot_walk (slot_of bn) (entries_of bn) ip v
unfolding bmap
bmap-slot_walk bn ip v l =
    let (one, two, three, none_) = levels bn in
    elim (dec_lt bn 10) [
      | yes direct ↦
          let t : ltb bn 10 ≡ true = ground arith in
          let (s, is) = none_ direct in
          rw (t, bmap) (sym (in_level bn ip v bn [] s is ∙ slot_walk-nil bn ip v))
      | no n0 ↦ elim (dec_lt bn 138) [
        | yes indirect ↦
            let t0 : ltb bn 10 ≡ false = ground arith in
            let t1 : ltb (bn - 10) 128 ≡ true = ground arith in
            let (s, is) = one (omega arith) indirect in
            rw (t0, t1, bmap) (bmap_indirect-walk (bn - 10) ip v ∙ sym (in_level bn ip v _ _ s is))
        | no n1 ↦ elim (dec_lt bn 16522) [
          | yes double ↦
              let t0 : ltb bn 10 ≡ false = ground arith in
              let t1 : ltb (bn - 10) 128 ≡ false = ground arith in
              let t2 : ltb (bn - 10 - 128) 16384 ≡ true = ground arith in
              let m : bn - 10 - 128 ≡ bn - 138 = omega arith in
              let (s, is) = two (omega arith) double in
              rw (t0, t1, t2, bmap)
                (rw m (bmap_double-walk (bn - 138) ip v) ∙ sym (in_level bn ip v _ _ s is))
          | no n2 ↦
              let t0 : ltb bn 10 ≡ false = ground arith in
              let t1 : ltb (bn - 10) 128 ≡ false = ground arith in
              let t2 : ltb (bn - 10 - 128) 16384 ≡ false = ground arith in
              let t3 : ltb (bn - 10 - 128 - 16384) 2097152 ≡ true = ground arith in
              let (s, is) = three (omega arith) in
              rw (t0, t1, t2, t3, bmap)
                (triple-walk bn (bn - 10 - 128 - 16384) ip v (omega arith)
                  ∙ sym (in_level bn ip v _ _ s is))
        ]
      ]
    ]
