-- ===== src/Bcache/Read.antt =====
-- bread does what log.c takes the buffer cache for: a dirty buffer, or the disk.
use os_project.Prelude.{
  ℕ, ◌<◌, ◌≡◌, ◌⊎◌, inl, inr, ◌∙◌, refl, sym, ap, Bool, true, false, not, ◌&&◌, ◌==◌, leb,
  if◌then◌else◌, arith, Bool-cases, List,
}
use mathlib.Core.Path.{subst}
use os_project.Prelude.Outcome.{Outcome, ok, panic, ◌>>=◌, ◌>>◌, panic_if}
use os_project.Log.Power.{Machine}
use os_project.Log.Power
use os_project.Bcache.{
  Buf, Bcache, MemDisk, nbuf, change, add_ref, reuse, holds_block, is_unused, locked, asleep,
  transfer, iderw, read_got, bread,
}
use os_project.Bcache.Scan.{backwards, IsFirst, IsCache}
use os_project.Bcache.Shows.{IsQuiet, Shows, Shows-bread, Shows-change, Shows-quiet}
use os_project.Bcache.Get.{change-same, change-IsCache, Took, bget_lem}

Took-Shows :
    (n : ℕ) (c c' : Bcache) (d : MemDisk) (m : Machine) (order : List ℕ) (b : ℕ)
    → Took 1 n c order b c'
    → Shows c d m
    → Shows c' d m
Took-Shows n c c' d m order b t s = Shows-change c c' d m b t.others (quiet t.how) s
  where
    not_dirty : (x : Buf) → (x.refcnt == 0 && not x.dirty) ≡ true → x.dirty ≡ false
    not_dirty x e = both x.dirty e
      where
        both : (t : Bool) → (x.refcnt == 0 && not t) ≡ true → t ≡ false
        both true e = ground arith
        both false e = refl

    quiet :
        ((holds_block 1 n c b ≡ true) × (c'.buf b ≡ add_ref (c.buf b)))
          ⊎ (((a : ℕ) → a < nbuf → holds_block 1 n c a ≡ false)
              × IsFirst (is_unused c) (backwards order) b
              × (c'.buf b ≡ reuse 1 n (c.buf b)))
        → IsQuiet d (c.buf b) (c'.buf b)
    quiet (inl (hit, same)) =
        subst (IsQuiet d (c.buf b)) (sym same) (inl (refl, refl, refl, refl, refl))
    quiet (inr (all, last, same)) =
        subst (IsQuiet d (c.buf b)) (sym same)
          (inr (not_dirty (c.buf b) last.passes, refl, λ v k. absurd (cc v)))

-- iderw of a locked buffer without contents.
abbrev fill : MemDisk → ℕ → Buf → Buf
fill d n x = record x { bytes = d.blocks n; valid = true }

pub passed : {A : Type 0} (t : Bool) (k : Outcome A) → t ≡ false → (panic_if t >> k) ≡ k
passed t k e = rw e refl

pub if_false : {A : Type 0} (t : Bool) (x y : A) → t ≡ false → (if t then x else y) ≡ y
if_false t x y e = rw e refl

pub if_true : {A : Type 0} (t : Bool) (x y : A) → t ≡ true → (if t then x else y) ≡ x
if_true t x y e = rw e refl

-- The guards of iderw.
pub iderw-transfer :
    (b n : ℕ) (c : Bcache) (d : MemDisk)
    → (c.buf b).locked ≡ true
    → ((c.buf b).valid && not (c.buf b).dirty) ≡ false
    → (c.buf b).dev ≡ 1
    → (c.buf b).blockno ≡ n
    → n < d.size
    → iderw b (c, d) ≡ ok (transfer b (c.buf b) c d)
unfolding iderw
iderw-transfer b n c d lock todo e k l =
    passed (not (c.buf b).locked) _ (ap not lock)
    ∙ passed ((c.buf b).valid && not (c.buf b).dirty) _ todo
    ∙ passed (not ((c.buf b).dev == 1)) _ (is_one (c.buf b).dev e)
    ∙ passed (leb d.size (c.buf b).blockno) _ (inside (c.buf b).blockno k)
  where
    is_one : (x : ℕ) → x ≡ 1 → not (x == 1) ≡ false
    is_one x e = ground arith

    inside : (x : ℕ) → x ≡ n → leb d.size x ≡ false
    inside x e = ground arith

iderw_read :
    (b n : ℕ) (c : Bcache) (d : MemDisk)
    → (c.buf b).locked ≡ true
    → (c.buf b).valid ≡ false
    → (c.buf b).dev ≡ 1
    → (c.buf b).blockno ≡ n
    → n < d.size
    → (c.buf b).dirty ≡ false
    → iderw b (c, d) ≡ ok (change b (fill d n) c, d)
iderw_read b n c d lock v e k l clean =
    iderw-transfer b n c d lock (ap (λ t. t && not (c.buf b).dirty) v) e k l
    ∙ ap ok (if_false (c.buf b).dirty _ _ clean)
    ∙ ap (λ q. ok (change b (fill d q) c, d)) k

-- The buffer with its lock taken.
abbrev lock_it : Buf → Buf
lock_it x = record x { locked = true }

-- What bread returns where it does not wait: a locked buffer of the block, with the contents that the machine shows.
pub record HasRead (n : ℕ) (order : List ℕ) (d : MemDisk) (m : Machine) (b : ℕ) (c : Bcache)
    : Type 0 where
  pub cache : IsCache c order
  pub shows : Shows c d m
  pub inside : b < nbuf
  pub lock : (c.buf b).locked ≡ true
  pub filled : (c.buf b).valid ≡ true
  pub is : ((c.buf b).dev ≡ 1) × ((c.buf b).blockno ≡ n)
  pub bytes : (c.buf b).bytes ≡ Power.bread m n

-- bread behind the lock.
read_locked :
    (n : ℕ) (c : Bcache) (d : MemDisk) (m : Machine) (order : List ℕ) (b : ℕ)
    → IsCache c order
    → Shows c d m
    → b < nbuf
    → (c.buf b).locked ≡ true
    → ((c.buf b).dev ≡ 1) × ((c.buf b).blockno ≡ n)
    → n < d.size
    → (c' : Bcache) × (read_got (locked b c) d ≡ ok (locked b c', d)) × HasRead n order d m b c'
read_locked n c d m order b h s l lock (e, k) inside = elim (Bool-cases (c.buf b).valid) [
  | inl v ↦ (
    c,
    if_true (c.buf b).valid _ _ v,
    record {
      cache = h;
      shows = s;
      inside = l;
      lock = lock;
      filled = v;
      is = (e, k);
      bytes = Shows-bread c d m order b n h s l v e k;
    },
  )
  | inr v ↦
      let clean = not_dirty (c.buf b).dirty (λ q. cc (sym v ∙ (s.fits b l).filled q)) in
      let c' = change b (fill d n) c in
      let same = change-same c b (fill d n) in
      let shows =
        Shows-quiet c d m b (fill d n) (inr (clean, clean, λ _ _. ap d.blocks (sym k))) s in
      let cache = change-IsCache c order b (fill d n) h (inl (refl, refl)) in
      let filled : (c'.buf b).valid ≡ true = ap (λ (x : Buf). x.valid) same in
      let e' : (c'.buf b).dev ≡ 1 = ap (λ (x : Buf). x.dev) same ∙ e in
      let k' : (c'.buf b).blockno ≡ n = ap (λ (x : Buf). x.blockno) same ∙ k in
      (
        c',
        if_false (c.buf b).valid _ _ v
            ∙ ap (λ q. q >>= λ (r : Bcache × MemDisk). ok (locked b r.0, r.1))
                (iderw_read b n c d lock v e k inside clean),
        record {
          cache = cache;
          shows = shows;
          inside = l;
          lock = ap (λ (x : Buf). x.locked) same ∙ lock;
          filled = filled;
          is = (e', k');
          bytes = Shows-bread c' d m order b n cache shows l filled e' k';
        },
      )
]
  where
    not_dirty : (t : Bool) → ¬ (t ≡ true) → t ≡ false
    not_dirty true h = absurd (h refl)
    not_dirty false h = refl

-- bread of a block of the disk on a cache that shows a machine: it panics, and then no buffer has the block and
-- each is referenced or dirty; or it sleeps, and then another holds the lock of the block's buffer; or it returns
-- a locked buffer with the contents that the machine shows, and the cache shows the same machine.
pub bread_lem :
    (n : ℕ) (c : Bcache) (d : MemDisk) (m : Machine) (order : List ℕ)
    → IsCache c order
    → Shows c d m
    → n < d.size
    → ((bread 1 n (c, d) ≡ panic)
        × ((a : ℕ) → a < nbuf → (holds_block 1 n c a ≡ false) × (is_unused c a ≡ false)))
      ⊎ ((b : ℕ) × (c' : Bcache) × (bread 1 n (c, d) ≡ ok (asleep b c', d))
          × Took 1 n c order b c'
          × ((c'.buf b).locked ≡ true)
          × Shows c' d m)
      ⊎ ((b : ℕ) × (c' : Bcache) × (bread 1 n (c, d) ≡ ok (locked b c', d))
          × HasRead n order d m b c')
unfolding bread
bread_lem n c d m order h s l = elim (bget_lem 1 n c order h) [
  | inl (e, busy) ↦ inl (ap (λ q. q >>= λ got. read_got got d) e, busy)
  | inr (b, c1, e, t) ↦
      let s1 = Took-Shows n c c1 d m order b t s in
      let on = ap (λ q. q >>= λ got. read_got got d) e in
      elim (Bool-cases (c1.buf b).locked) [
        | inl held ↦ inr (
            inl (
              b,
              c1,
              on ∙ ap (λ q. read_got q d) (if_true (c1.buf b).locked _ _ held),
              t,
              held,
              s1,
            ))
        | inr free ↦
            let same = change-same c1 b lock_it in
            let (c2, e2, r) =
              read_locked n (change b lock_it c1) d m order b
                (change-IsCache c1 order b lock_it t.cache (inl (refl, refl)))
                (Shows-quiet c1 d m b lock_it (inl (refl, refl, refl, refl, refl)) s1) t.inside
                (ap (λ (x : Buf). x.locked) same)
                (ap (λ (x : Buf). x.dev) same ∙ t.is.0, ap (λ (x : Buf). x.blockno) same ∙ t.is.1)
                l in
            inr (
              inr
                (b, c2, on ∙ ap (λ q. read_got q d) (if_false (c1.buf b).locked _ _ free) ∙ e2, r))
      ]
]
