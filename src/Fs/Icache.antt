-- ===== src/Fs/Icache.antt =====
-- The inode cache of fs.c: iget, idup, and the end of iput.
use os_project.Prelude.{
  ℕ, zero, suc, ◌+◌, ◌<◌, ◌≡◌, ◌≢◌, ◌⊎◌, inl, inr, refl, Bool, true, false, ◌&&◌, ◌==◌, ltb,
  if◌then◌else◌, arith, update, Bool-cases, below_suc, Option, none, some,
}
use mathlib.Core.Path.{subst}
use os_project.Prelude.Outcome.{Outcome, ok, panic}
use os_project.Fs.Bmap.{Inode}

-- NINODE
abbrev pub ninode : ℕ
ninode = 50

-- icache.inode[]; an index stands for a pointer to an entry.
abbrev pub Icache : Type 0
Icache = ℕ → Inode

-- The test of the loop of iget.
abbrev pub is_cached : ℕ → ℕ → Inode → Bool
is_cached dev inum ip = ltb 0 ip.ref && (ip.dev == dev && ip.inum == inum)

-- The end of the loop: the entry of the inode, or the first free entry.
pub data Lookup : Type 0 where
  cached : ℕ → Lookup
  missing : Option ℕ → Lookup

-- empty == 0 && ip->ref == 0
abbrev pub remember : ℕ → Inode → Option ℕ → Option ℕ
remember i ip none = if ip.ref == 0 then some i else none
remember i ip (some e) = some e

unfoldable pub scan : ℕ → ℕ → Icache → ℕ → ℕ → Option ℕ → Lookup
scan dev inum c zero i empty = missing empty
scan dev inum c (suc n) i empty = elim (is_cached dev inum (c i)) [
  | true ↦ cached i
  | false ↦ scan dev inum c n (i + 1) (remember i (c i) empty)
]

abbrev pub recycle : ℕ → ℕ → Inode → Inode
recycle dev inum ip = record ip { dev = dev; inum = inum; ref = 1; valid = false }

unfoldable pub idup : ℕ → Icache → Icache
idup i c = update c i (record (c i) { ref = (c i).ref + 1 })

unfoldable pub iget : ℕ → ℕ → Icache → Outcome (Icache × ℕ)
iget dev inum c = elim (scan dev inum c ninode 0 none) [
  | cached i ↦ ok (idup i c, i)
  | missing none ↦ panic
  | missing (some i) ↦ ok (update c i (recycle dev inum (c i)), i)
]

-- What the scan says of the entries below `n`.
abbrev pub Scanned : ℕ → ℕ → Icache → ℕ → Option ℕ → Type 0
Scanned dev inum c n none = (i : ℕ) → i < n → (0 < (c i).ref) × (is_cached dev inum (c i) ≡ false)
Scanned dev inum c n (some e) =
    (e < n) × ((c e).ref ≡ 0) × ((i : ℕ) → i < n → is_cached dev inum (c i) ≡ false)

abbrev pub Found : ℕ → ℕ → Icache → Lookup → Type 0
Found dev inum c (cached i) = (i < ninode) × (is_cached dev inum (c i) ≡ true)
Found dev inum c (missing e) = Scanned dev inum c ninode e

remembered :
    (dev inum : ℕ) (c : Icache) (i : ℕ) (e : Option ℕ)
    → is_cached dev inum (c i) ≡ false
    → Scanned dev inum c i e
    → Scanned dev inum c (i + 1) (remember i (c i) e)
remembered dev inum c i none off h = elim (Bool-cases ((c i).ref == 0)) [
  | inl free ↦ rw free (
    omega arith,
    ground arith,
    below_suc (λ j. is_cached dev inum (c j) ≡ false) i (λ j l. (h j l).1) off,
  )
  | inr busy ↦ rw busy (
      below_suc (λ j. (0 < (c j).ref) × (is_cached dev inum (c j) ≡ false)) i h (ground arith, off))
]
remembered dev inum c i (some e) off h =
    (omega (arith, h.0), h.1, below_suc (λ j. is_cached dev inum (c j) ≡ false) i h.2 off)

scan-Found :
    (dev inum : ℕ) (c : Icache) (n i : ℕ) (e : Option ℕ)
    → i + n ≡ ninode
    → Scanned dev inum c i e
    → Found dev inum c (scan dev inum c n i e)
unfolding scan
scan-Found dev inum c zero i e total h =
    let at : i ≡ ninode = omega arith in subst (λ k. Scanned dev inum c k e) at h
scan-Found dev inum c (suc n) i e total h = elim (Bool-cases (is_cached dev inum (c i))) [
  | inl hit ↦ rw (hit, scan) (omega arith, hit)
  | inr off ↦
      rw (off, scan)
        (scan-Found dev inum c n (i + 1) (remember i (c i) e) (omega arith)
          (remembered dev inum c i e off h))
]

-- No inode has two entries in use.
abbrev pub IsUnique : Icache → Type 0
IsUnique c =
    (i j : ℕ)
    → i < ninode
    → j < ninode
    → 0 < (c i).ref
    → 0 < (c j).ref
    → (c i).dev ≡ (c j).dev
    → (c i).inum ≡ (c j).inum
    → i ≡ j

-- What iget does to the entry `i` that it returns.
abbrev pub Got : ℕ → ℕ → Icache → ℕ → Icache → Type 0
Got dev inum c i c' =
    (i < ninode)
    × (((is_cached dev inum (c i) ≡ true) × (c' i ≡ record (c i) { ref = (c i).ref + 1 }))
        ⊎ (((c i).ref ≡ 0) × (c' i ≡ recycle dev inum (c i))))
    × ((j : ℕ) → j ≢ i → c' j ≡ c j)
    × IsUnique c'

at_i : (c : Icache) (i : ℕ) (x : Inode) → update c i x i ≡ x
at_i c i x = ground arith

off_i : (c : Icache) (i : ℕ) (x : Inode) (j : ℕ) → j ≢ i → update c i x j ≡ c j
off_i c i x j d = ground arith

-- An entry that changes to one which no other entry in use stands for keeps the entries unique.
update-IsUnique :
    (c : Icache) (i : ℕ) (x : Inode)
    → IsUnique c
    → ((j : ℕ)
        → j < ninode
        → j ≢ i
        → 0 < (c j).ref
        → (c j).dev ≡ x.dev
        → (c j).inum ≡ x.inum
        → j ≡ i)
    → IsUnique (update c i x)
update-IsUnique c i x h alone a b la lb ra rb d n = elim (Bool-cases (a == i)) [
  | inl a_is ↦ elim (Bool-cases (b == i)) [
    | inl b_is ↦ ground arith
    | inr b_off ↦ ground (arith, alone b)
  ]
  | inr a_off ↦ elim (Bool-cases (b == i)) [
    | inl b_is ↦ ground (arith, alone a)
    | inr b_off ↦ ground (arith, h a b)
  ]
]

other_cached :
    (dev inum : ℕ) (x : Inode)
    → is_cached dev inum x ≡ false
    → 0 < x.ref
    → x.dev ≡ dev
    → x.inum ≢ inum
other_cached dev inum x off used d n = ground arith

idup-Got :
    (dev inum : ℕ) (c : Icache) (i : ℕ)
    → IsUnique c
    → i < ninode
    → is_cached dev inum (c i) ≡ true
    → Got dev inum c i (idup i c)
unfolding idup
idup-Got dev inum c i h l hit = (
  l,
  inl (hit, at_i c i (record (c i) { ref = (c i).ref + 1 })),
  off_i c i (record (c i) { ref = (c i).ref + 1 }),
  update-IsUnique c i (record (c i) { ref = (c i).ref + 1 }) h
      (λ j lj d used same_dev same_inum. h j i lj l used (in_use hit) same_dev same_inum),
)
  where
    in_use : is_cached dev inum (c i) ≡ true → 0 < (c i).ref
    in_use hit = ground arith

-- iget panics where the inode is not in the cache and every entry is in use. Otherwise it counts one
-- more reference to the entry of the inode, or takes a free entry for it with the one reference; it
-- changes no other entry, and no inode has two entries.
pub iget_lem :
    (dev inum : ℕ) (c : Icache)
    → IsUnique c
    → ((iget dev inum c ≡ panic)
        × ((i : ℕ) → i < ninode → (0 < (c i).ref) × (is_cached dev inum (c i) ≡ false)))
      ⊎ ((c' : Icache) × (i : ℕ) × (iget dev inum c ≡ ok (c', i)) × Got dev inum c i c')
unfolding iget
iget_lem dev inum c h =
    ends (scan dev inum c ninode 0 none) refl
      (scan-Found dev inum c ninode 0 none refl (λ i l. absurd (omega arith)))
  where
    ends :
        (r : Lookup)
        → scan dev inum c ninode 0 none ≡ r
        → Found dev inum c r
        → ((iget dev inum c ≡ panic)
            × ((i : ℕ) → i < ninode → (0 < (c i).ref) × (is_cached dev inum (c i) ≡ false)))
          ⊎ ((c' : Icache) × (i : ℕ) × (iget dev inum c ≡ ok (c', i)) × Got dev inum c i c')
    ends (cached i) e f = inr (idup i c, i, rw (e, iget) refl, idup-Got dev inum c i h f.0 f.1)
    ends (missing none) e f = inl (rw (e, iget) refl, f)
    ends (missing (some i)) e f = inr (
      update c i (recycle dev inum (c i)),
      i,
      rw (e, iget) refl,
      (
        f.0,
        inr (f.1, at_i c i (recycle dev inum (c i))),
        off_i c i (recycle dev inum (c i)),
        update-IsUnique c i (recycle dev inum (c i)) h (λ j lj d used same_dev same_inum.
            absurd (other_cached dev inum (c j) (f.2 j lj) used same_dev same_inum)),
      ),
    )
