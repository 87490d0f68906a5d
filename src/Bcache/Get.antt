-- ===== src/Bcache/Get.antt =====
-- bget: a buffer of the block, cached or recycled.
use os_project.Prelude.{
  ℕ, ◌+◌, ◌<◌, ◌≡◌, ◌≢◌, ◌⊎◌, inl, inr, ◌∙◌, refl, sym, ap, Bool, true, false, ◌&&◌, ◌==◌, arith,
  Bool-cases, List, All,
}
use mathlib.Core.Path.{subst}
use os_project.Prelude.Outcome.{ok, panic}
use os_project.Bcache.{
  Buf, Bcache, nbuf, list_head, holds_block, is_unused, change, add_ref, reuse, acquire, bget,
}
use os_project.Bcache.Scan.{
  backwards, Links-backwards, All-backwards, All-of_backwards, length-backwards, IsFirst,
  find_buf_lem, Has, Has-All, Has-middle, IsCache,
}

pub change-same : (c : Bcache) (b : ℕ) (f : Buf → Buf) → (change b f c).buf b ≡ f (c.buf b)
change-same c b f = ground arith

pub change-other : (c : Bcache) (b a : ℕ) (f : Buf → Buf) → a ≢ b → (change b f c).buf a ≡ c.buf a
change-other c b a f n = ground arith

-- A change that leaves the block of the buffer, or gives it one that no buffer has.
pub change-IsCache :
    (c : Bcache) (order : List ℕ) (b : ℕ) (f : Buf → Buf)
    → IsCache c order
    → (((f (c.buf b)).dev ≡ (c.buf b).dev) × ((f (c.buf b)).blockno ≡ (c.buf b).blockno))
      ⊎ ((a : ℕ)
          → a < nbuf
          → ((c.buf a).dev ≡ (f (c.buf b)).dev)
          → ((c.buf a).blockno ≡ (f (c.buf b)).blockno)
          → ⊥)
    → IsCache (change b f c) order
change-IsCache c order b f h block = record {
  ring = record { links = h.ring.links; once = h.ring.once; off = h.ring.off };
  count = h.count;
  bound = h.bound;
  whole = h.whole;
  one = λ x y lx ly d e k. one x y lx ly d e k block;
}
  where
    dev_of : (x : ℕ) → x ≡ b → ((change b f c).buf x).dev ≡ (f (c.buf b)).dev
    dev_of x e =
        ap (λ q. ((change b f c).buf q).dev) e ∙ ap (λ (q : Buf). q.dev) (change-same c b f)

    block_of : (x : ℕ) → x ≡ b → ((change b f c).buf x).blockno ≡ (f (c.buf b)).blockno
    block_of x e =
        ap (λ q. ((change b f c).buf q).blockno) e ∙ ap (λ (q : Buf). q.blockno) (change-same c b f)

    one :
        (x y : ℕ)
        → x < nbuf
        → y < nbuf
        → ((change b f c).buf x).dev ≢ 0
        → ((change b f c).buf x).dev ≡ ((change b f c).buf y).dev
        → ((change b f c).buf x).blockno ≡ ((change b f c).buf y).blockno
        → (((f (c.buf b)).dev ≡ (c.buf b).dev) × ((f (c.buf b)).blockno ≡ (c.buf b).blockno))
          ⊎ ((a : ℕ)
              → a < nbuf
              → ((c.buf a).dev ≡ (f (c.buf b)).dev)
              → ((c.buf a).blockno ≡ (f (c.buf b)).blockno)
              → ⊥)
        → x ≡ y
    one x y lx ly d e k (inl (sd, sb)) =
        h.one x y lx ly (λ z. d (same_dev x ∙ z)) (sym (same_dev x) ∙ e ∙ same_dev y)
          (sym (same_block x) ∙ k ∙ same_block y)
      where
        same_dev : (x : ℕ) → ((change b f c).buf x).dev ≡ (c.buf x).dev
        same_dev x = elim (Bool-cases (x == b)) [
          | inl same ↦
              let e : x ≡ b = ground arith in dev_of x e ∙ sd ∙ ap (λ q. (c.buf q).dev) (sym e)
          | inr other ↦ ap (λ (q : Buf). q.dev) (change-other c b x f (ground arith))
        ]

        same_block : (x : ℕ) → ((change b f c).buf x).blockno ≡ (c.buf x).blockno
        same_block x = elim (Bool-cases (x == b)) [
          | inl same ↦
              let e : x ≡ b = ground arith in
              block_of x e ∙ sb ∙ ap (λ q. (c.buf q).blockno) (sym e)
          | inr other ↦ ap (λ (q : Buf). q.blockno) (change-other c b x f (ground arith))
        ]
    one x y lx ly d e k (inr new) = elim (Bool-cases (x == b)) [
      | inl at ↦ elim (Bool-cases (y == b)) [
        | inl at' ↦ ground arith
        | inr off' ↦
            let o = change-other c b y f (ground arith) in
            let z : x ≡ b = ground arith in
            absurd (
              new y ly (ap (λ (q : Buf). q.dev) (sym o) ∙ sym e ∙ dev_of x z)
                (ap (λ (q : Buf). q.blockno) (sym o) ∙ sym k ∙ block_of x z))
      ]
      | inr off ↦ elim (Bool-cases (y == b)) [
        | inl at' ↦
            let o = change-other c b x f (ground arith) in
            let z : y ≡ b = ground arith in
            absurd (
              new x lx (ap (λ (q : Buf). q.dev) (sym o) ∙ e ∙ dev_of y z)
                (ap (λ (q : Buf). q.blockno) (sym o) ∙ k ∙ block_of y z))
        | inr off' ↦
            let o = change-other c b x f (ground arith) in
            let o' = change-other c b y f (ground arith) in
            h.one x y lx ly (λ z. d (ap (λ (q : Buf). q.dev) o ∙ z))
              (ap (λ (q : Buf). q.dev) (sym o) ∙ e ∙ ap (λ (q : Buf). q.dev) o')
              (ap (λ (q : Buf). q.blockno) (sym o) ∙ k ∙ ap (λ (q : Buf). q.blockno) o')
      ]
    ]

-- The buffer `b` that bget returns, and the cache before its lock is taken.
pub record Took (dev blockno : ℕ) (c : Bcache) (order : List ℕ) (b : ℕ) (c' : Bcache) : Type 0 where
  pub cache : IsCache c' order
  pub inside : b < nbuf
  pub is : ((c'.buf b).dev ≡ dev) × ((c'.buf b).blockno ≡ blockno)
  pub others : (a : ℕ) → a ≢ b → c'.buf a ≡ c.buf a
  pub how :
      ((holds_block dev blockno c b ≡ true) × (c'.buf b ≡ add_ref (c.buf b)))
      ⊎ (((a : ℕ) → a < nbuf → holds_block dev blockno c a ≡ false)
          × IsFirst (is_unused c) (backwards order) b
          × (c'.buf b ≡ reuse dev blockno (c.buf b)))

module _ (dev blockno : ℕ) (c : Bcache) (order : List ℕ) (h : IsCache c order) where
  none_of :
      (test : ℕ → Bool) → All (λ x. test x ≡ false) order → (a : ℕ) → a < nbuf → test a ≡ false
  none_of test all a l = Has-All (λ x. test x ≡ false) a order (h.whole a l) all

  first_inside : (test : ℕ → Bool) (b : ℕ) → IsFirst test order b → b < nbuf
  first_inside test b f =
      Has-All (λ x. x < nbuf) b order (subst (Has b) (sym f.split) (Has-middle b f.before f.after))
        h.bound

  last_inside : (test : ℕ → Bool) (b : ℕ) → IsFirst test (backwards order) b → b < nbuf
  last_inside test b f =
      Has-All (λ x. x < nbuf) b (backwards order)
        (subst (Has b) (sym f.split) (Has-middle b f.before f.after))
        (All-backwards (λ x. x < nbuf) order h.bound)

  cached_is :
      (b : ℕ)
      → holds_block dev blockno c b ≡ true
      → ((c.buf b).dev ≡ dev) × ((c.buf b).blockno ≡ blockno)
  cached_is b e = both (c.buf b).dev (c.buf b).blockno e
    where
      both : (x y : ℕ) → (x == dev && y == blockno) ≡ true → (x ≡ dev) × (y ≡ blockno)
      both x y e = (ground arith, ground arith)

  not_cached :
      (a : ℕ)
      → holds_block dev blockno c a ≡ false
      → ((c.buf a).dev ≡ dev)
      → ((c.buf a).blockno ≡ blockno)
      → ⊥
  not_cached a e d k = both (c.buf a).dev (c.buf a).blockno e d k
    where
      both : (x y : ℕ) → (x == dev && y == blockno) ≡ false → (x ≡ dev) → (y ≡ blockno) → ⊥
      both x y e d k = ground arith

  Took-cached :
      (b : ℕ)
      → IsFirst (holds_block dev blockno c) order b
      → Took dev blockno c order b (change b add_ref c)
  Took-cached b f =
      let (d, k) = cached_is b f.passes in
      let same = change-same c b add_ref in
      record {
        cache = change-IsCache c order b add_ref h (inl (refl, refl));
        inside = first_inside (holds_block dev blockno c) b f;
        is = (ap (λ (x : Buf). x.dev) same ∙ d, ap (λ (x : Buf). x.blockno) same ∙ k);
        others = λ a n. change-other c b a add_ref n;
        how = inl (f.passes, same);
      }

  Took-recycled :
      (b : ℕ)
      → All (λ x. holds_block dev blockno c x ≡ false) order
      → IsFirst (is_unused c) (backwards order) b
      → Took dev blockno c order b (change b (reuse dev blockno) c)
  Took-recycled b all f =
      let same = change-same c b (reuse dev blockno) in
      record {
        cache =
            change-IsCache c order b (reuse dev blockno) h
              (inr (λ a l. not_cached a (none_of (holds_block dev blockno c) all a l)));
        inside = last_inside (is_unused c) b f;
        is = (ap (λ (x : Buf). x.dev) same, ap (λ (x : Buf). x.blockno) same);
        others = λ a n. change-other c b a (reuse dev blockno) n;
        how = inr (none_of (holds_block dev blockno c) all, f, same);
      }

  -- bget panics, and then no buffer has the block and each is referenced or dirty; or it takes the buffer of
  -- the block; or it gives the block the last buffer of the list that is neither. No other buffer changes.
  pub bget_lem :
      ((bget dev blockno c ≡ panic)
        × ((a : ℕ) → a < nbuf → (holds_block dev blockno c a ≡ false) × (is_unused c a ≡ false)))
      ⊎ ((b : ℕ) × (c' : Bcache) × (bget dev blockno c ≡ ok (acquire b c'))
          × Took dev blockno c order b c')
  unfolding bget
  bget_lem =
      elim (find_buf_lem (nbuf + 1) c.next c.prev (holds_block dev blockno c) order list_head
        h.ring.links h.ring.off (omega (arith, h.count))) [
          | inr (b, e, f) ↦ inr (b, change b add_ref c, rw (e, bget) refl, Took-cached b f)
          | inl (e, all) ↦
              elim (find_buf_lem (nbuf + 1) c.prev c.next (is_unused c) (backwards order) list_head
                (Links-backwards c.next c.prev list_head order list_head h.ring.links)
                (All-backwards (λ x. x ≢ list_head) order h.ring.off)
                (omega (arith, h.count, length-backwards order))) [
                  | inr (b, e', f) ↦ inr (
                    b,
                    change b (reuse dev blockno) c,
                    rw (e, e', bget) refl,
                    Took-recycled b all f,
                  )
                  | inl (e', busy) ↦ inl (
                    rw (e, e', bget) refl,
                    λ a l. (
                      none_of (holds_block dev blockno c) all a l,
                      none_of (is_unused c)
                          (All-of_backwards (λ x. is_unused c x ≡ false) order busy) a l,
                    ),
                  )
                ]
        ]
