-- ===== src/Bcache/Release.antt =====
-- brelse, and the cache that binit makes.
use os_project.Prelude.{
  ℕ, zero, suc, ◌+◌, ◌-◌, ◌^◌, ◌%◌, ◌≤◌, ◌<◌, ◌≡◌, ◌≢◌, ◌⊎◌, inl, inr, ◌∙◌, refl, ap, Bool, true,
  false, not, ◌==◌, if◌then◌else◌, arith, Bool-cases, List, [], ◌∷◌, ◌++◌, All, All-append,
  length-append, for_range_inv,
}
use mathlib.Core.Path.{subst}
use os_project.Prelude.Outcome.{ok, panic, ◌>>◌, panic_if}
use os_project.Bcache.{Buf, Bcache, nbuf, change, insert, unlink, blank, no_links, binit, brelse}
use os_project.Bcache.Ring.{Avoids, IsRing, unlink-IsRing, insert-IsRing, All-left, All-right}
use os_project.Bcache.Scan.{Has, Has-split, Has-moved, IsCache}
use os_project.Bcache.Get.{change-same, change-other, change-IsCache}

-- The buffer without its lock and with a reference less.
abbrev pub released : Buf → Buf
released x = record x { locked = false; refcnt = (x.refcnt + (2 ^ 32 - 1)) % 2 ^ 32 }

-- What brelse makes of a cache: without references the buffer is the first of the list.
pub record Released (c : Bcache) (order : List ℕ) (b : ℕ) (c' : Bcache) : Type 0 where
  pub before : List ℕ
  pub after : List ℕ
  pub split : order ≡ before ++ b ∷ after
  pub cache : IsCache c' (if (released (c.buf b)).refcnt == 0 then b ∷ (before ++ after) else order)
  pub same : c'.buf b ≡ released (c.buf b)
  pub others : (a : ℕ) → a ≢ b → c'.buf a ≡ c.buf a

moved-IsCache :
    (c : Bcache) (b : ℕ) (xs ys : List ℕ)
    → IsCache c (xs ++ b ∷ ys)
    → IsCache (insert b (unlink b c)) (b ∷ (xs ++ ys))
moved-IsCache c b xs ys h =
    let (ring, away, n) = unlink-IsRing c b xs ys h.ring in
    record {
      ring = insert-IsRing (unlink b c) b (xs ++ ys) ring away n;
      count = omega (arith, h.count, length-append xs (b ∷ ys), length-append xs ys);
      bound = (
        (All-right (λ x. x < nbuf) xs (b ∷ ys) h.bound).0,
        All-append (λ x. x < nbuf) xs ys (All-left (λ x. x < nbuf) xs (b ∷ ys) h.bound)
            (All-right (λ x. x < nbuf) xs (b ∷ ys) h.bound).1,
      );
      whole = λ a l. Has-moved a b xs ys (h.whole a l);
      one = h.one;
    }

-- brelse where the lock is held.
brelse_held :
    (c : Bcache) (b : ℕ)
    → (c.buf b).locked ≡ true
    → (t : Bool) → ((released (c.buf b)).refcnt == 0) ≡ t
    → brelse b c ≡ ok (if t then insert b (unlink b (change b released c)) else change b released c)
unfolding brelse
brelse_held c b held t e =
    let c1 = change b released c in
    let e' : ((c1.buf b).refcnt == 0) ≡ t =
      ap (λ (x : Buf). x.refcnt == 0) (change-same c b released) ∙ e in
    ap (λ q. panic_if (not q) >> ok (if (c1.buf b).refcnt == 0 then insert b (unlink b c1) else c1))
      held
    ∙ ap (λ q. ok (if q then insert b (unlink b c1) else c1)) e'

brelse_free : (c : Bcache) (b : ℕ) → (c.buf b).locked ≡ false → brelse b c ≡ panic
unfolding brelse
brelse_free c b free =
    let c1 = change b released c in
    ap (λ q. panic_if (not q) >> ok (if (c1.buf b).refcnt == 0 then insert b (unlink b c1) else c1))
      free

-- brelse of a buffer panics where its lock is free, and otherwise gives the lock and a reference back. The
-- buffer without references becomes the first of the list, and no other buffer changes.
pub brelse_lem :
    (c : Bcache) (order : List ℕ) (b : ℕ)
    → IsCache c order
    → b < nbuf
    → (((c.buf b).locked ≡ false) × (brelse b c ≡ panic))
      ⊎ (((c.buf b).locked ≡ true) × (c' : Bcache) × (brelse b c ≡ ok c') × Released c order b c')
brelse_lem c order b h l =
    let (xs, ys, split) = Has-split b order (h.whole b l) in
    let c1 = change b released c in
    let h1 = change-IsCache c order b released h (inl (refl, refl)) in
    let same = change-same c b released in
    elim (Bool-cases (c.buf b).locked) [
      | inr free ↦ inl (free, brelse_free c b free)
      | inl held ↦ elim (Bool-cases ((released (c.buf b)).refcnt == 0)) [
        | inl last ↦ inr (
          held,
          insert b (unlink b c1),
          brelse_held c b held true last,
          record {
            before = xs;
            after = ys;
            split = split;
            cache = rw last (moved-IsCache c1 b xs ys (subst (IsCache c1) split h1));
            same = same;
            others = λ a n. change-other c b a released n;
          },
        )
        | inr more ↦ inr (
          held,
          c1,
          brelse_held c b held false more,
          record {
            before = xs;
            after = ys;
            split = split;
            cache = rw more h1;
            same = same;
            others = λ a n. change-other c b a released n;
          },
        )
      ]
    ]

-- The buffers below `k`, the last one first.
abbrev pub below : ℕ → List ℕ
below zero = []
below (suc k) = k ∷ below k

below-bound : (k n : ℕ) → k ≤ n → All (λ x. x < n) (below k)
below-bound zero n l = tt
below-bound (suc k) n l = (omega (arith, l), below-bound k n (omega (arith, l)))

Avoids-below : (k n : ℕ) → k ≤ n → Avoids n (below k)
Avoids-below zero n l = tt
Avoids-below (suc k) n l = ((λ e. omega (arith, e, l)), Avoids-below k n (omega (arith, l)))

Has-below : (k b : ℕ) → b < k → Has b (below k)
Has-below zero b l = absurd (omega (arith, l))
Has-below (suc k) b l = elim (Bool-cases (k == b)) [
  | inl e ↦ inl (ground arith)
  | inr n ↦ inr (Has-below k b (ground arith))
]

binit-IsRing : IsRing binit (below nbuf) × (binit.buf ≡ λ b. blank)
unfolding binit
binit-IsRing =
    for_range_inv (λ k c. IsRing c (below k) × (c.buf ≡ λ b. blank)) insert nbuf 0 nbuf no_links
      refl
      (λ k c _ l h. (
        subst (λ n. IsRing (insert k c) (below n)) {x = suc k} {y = k + 1} (omega arith)
            (insert-IsRing c k (below k) h.0 (Avoids-below k k (omega arith))
              (λ e. omega (arith, e, l))),
        h.1,
      ))
      (record { links = (refl, refl); once = tt; off = tt }, refl)

pub binit-blank : (b : ℕ) → binit.buf b ≡ blank
binit-blank b = ap (λ (f : ℕ → Buf). f b) binit-IsRing.1

-- binit links all buffers, the last one first, and none of them holds a block of a device.
pub binit-IsCache : IsCache binit (below nbuf)
binit-IsCache = record {
  ring = binit-IsRing.0;
  count = refl;
  bound = below-bound nbuf nbuf (omega arith);
  whole = λ b l. Has-below nbuf b l;
  one = λ b b' l l' d e k. absurd (d (ap (λ (x : Buf). x.dev) (binit-blank b)));
}
