-- ===== src/Bcache/Scan.antt =====
-- The search along the list in both directions, and the invariant of the cache.
use os_project.Prelude.{
  ℕ, zero, suc, ◌<◌, ◌≡◌, ◌≢◌, ◌⊎◌, inl, inr, ◌∙◌, refl, sym, ap, Bool, true, false, ◌==◌, arith,
  Bool-cases, Option, none, some, List, [], ◌∷◌, ◌++◌, All, All-append, length, length-append,
}
use mathlib.Core.Path.{subst}
use os_project.Prelude.Outcome.{Outcome, ok}
use os_project.Bcache.{Bcache, nbuf, list_head, find_buf}
use os_project.Bcache.Ring.{Links, Avoids, IsRing}

abbrev pub backwards : List ℕ → List ℕ
backwards [] = []
backwards (b ∷ bs) = backwards bs ++ b ∷ []

Links-snoc :
    (next prev : ℕ → ℕ) (z b a : ℕ) (bs : List ℕ)
    → Links next prev z bs b
    → next b ≡ a
    → prev a ≡ b
    → Links next prev z (bs ++ b ∷ []) a
Links-snoc next prev z b a [] l e f = (l.0, l.1, (e, f))
Links-snoc next prev z b a (x ∷ xs) l e f = (l.0, l.1, Links-snoc next prev x b a xs l.2 e f)

pub Links-backwards :
    (next prev : ℕ → ℕ) (a : ℕ) (bs : List ℕ) (z : ℕ)
    → Links next prev a bs z
    → Links prev next z (backwards bs) a
Links-backwards next prev a [] z l = (l.1, l.0)
Links-backwards next prev a (b ∷ bs) z l =
    Links-snoc prev next z b a (backwards bs) (Links-backwards next prev b bs z l.2) l.1 l.0

pub All-backwards : (P : ℕ → Type 0) (bs : List ℕ) → All P bs → All P (backwards bs)
All-backwards P [] h = tt
All-backwards P (b ∷ bs) h = All-append P (backwards bs) (b ∷ []) (All-backwards P bs h.1) (h.0, tt)

pub All-of_backwards : (P : ℕ → Type 0) (bs : List ℕ) → All P (backwards bs) → All P bs
All-of_backwards P [] h = tt
All-of_backwards P (b ∷ bs) h =
    (last (backwards bs) h, All-of_backwards P bs (front (backwards bs) h))
  where
    last : (xs : List ℕ) → All P (xs ++ b ∷ []) → P b
    last [] h = h.0
    last (x ∷ xs) h = last xs h.1

    front : (xs : List ℕ) → All P (xs ++ b ∷ []) → All P xs
    front [] h = tt
    front (x ∷ xs) h = (h.0, front xs h.1)

pub length-backwards : (bs : List ℕ) → length (backwards bs) ≡ length bs
length-backwards [] = refl
length-backwards (b ∷ bs) =
    omega (arith, length-append (backwards bs) (b ∷ []), length-backwards bs)

-- The first buffer of a list that passes a test.
pub record IsFirst (test : ℕ → Bool) (order : List ℕ) (b : ℕ) : Type 0 where
  pub before : List ℕ
  pub after : List ℕ
  pub split : order ≡ before ++ b ∷ after
  pub passes : test b ≡ true
  pub others : All (λ x. test x ≡ false) before

abbrev pub FindEnds : (ℕ → Bool) → List ℕ → Outcome (Option ℕ) → Type 0
FindEnds test order r =
    ((r ≡ ok none) × All (λ x. test x ≡ false) order)
    ⊎ ((b : ℕ) × (r ≡ ok (some b)) × IsFirst test order b)

pub find_buf_lem :
    (fuel : ℕ) (next prev : ℕ → ℕ) (test : ℕ → Bool) (order : List ℕ) (a : ℕ)
    → Links next prev a order list_head
    → Avoids list_head order
    → length order < fuel
    → FindEnds test order (find_buf fuel next test (next a))
unfolding find_buf
find_buf_lem zero next prev test order a l off enough = absurd (omega (arith, enough))
find_buf_lem (suc fuel) next prev test [] a l off enough =
    let e : (next a == list_head) ≡ true = at_end (next a) l.0 in inl (rw e refl, tt)
  where
    at_end : (x : ℕ) → x ≡ list_head → (x == list_head) ≡ true
    at_end x e = ground arith
find_buf_lem (suc fuel) next prev test (b ∷ bs) a l off enough =
    let e : (next a == list_head) ≡ false = not_end (next a) (λ z. off.0 (sym l.0 ∙ z)) in
    elim (Bool-cases (test b)) [
      | inl p ↦
          let p' : test (next a) ≡ true = ap test l.0 ∙ p in
          inr (
            b,
            rw (e, p') (ap (λ x. ok (some x)) l.0),
            record { before = []; after = bs; split = refl; passes = p; others = tt },
          )
      | inr p ↦
          let p' : test (next a) ≡ false = ap test l.0 ∙ p in
          let on : find_buf (suc fuel) next test (next a) ≡ find_buf fuel next test (next b) =
            rw (e, p', find_buf) (ap (λ x. find_buf fuel next test (next x)) l.0) in
          elim (find_buf_lem fuel next prev test bs b l.2 off.1 (omega (arith, enough))) [
            | inl (r, h) ↦ inl (on ∙ r, (p, h))
            | inr (x, r, first) ↦ inr (
              x,
              on ∙ r,
              (record {
                before = b ∷ first.before;
                after = first.after;
                split = ap (λ q. b ∷ q) first.split;
                passes = first.passes;
                others = (p, first.others);
              }),
            )
          ]
    ]
  where
    not_end : (x : ℕ) → x ≢ list_head → (x == list_head) ≡ false
    not_end x e = ground arith

abbrev pub Has : ℕ → List ℕ → Type 0
Has b [] = ⊥
Has b (x ∷ xs) = (x ≡ b) ⊎ Has b xs

pub Has-All : (P : ℕ → Type 0) (b : ℕ) (bs : List ℕ) → Has b bs → All P bs → P b
Has-All P b [] h all = absurd h
Has-All P b (x ∷ xs) (inl e) all = subst P e all.0
Has-All P b (x ∷ xs) (inr h) all = Has-All P b xs h all.1

pub Has-middle : (b : ℕ) (xs ys : List ℕ) → Has b (xs ++ b ∷ ys)
Has-middle b [] ys = inl refl
Has-middle b (x ∷ xs) ys = inr (Has-middle b xs ys)

pub Has-split :
    (b : ℕ) (bs : List ℕ) → Has b bs → (xs : List ℕ) × (ys : List ℕ) × (bs ≡ xs ++ b ∷ ys)
Has-split b [] h = absurd h
Has-split b (x ∷ xs) (inl e) = ([], xs, ap (λ q. q ∷ xs) e)
Has-split b (x ∷ xs) (inr h) = let (ps, qs, e) = Has-split b xs h in (x ∷ ps, qs, ap (λ q. x ∷ q) e)

pub Has-moved : (b a : ℕ) (xs ys : List ℕ) → Has b (xs ++ a ∷ ys) → Has b (a ∷ (xs ++ ys))
Has-moved b a [] ys h = h
Has-moved b a (x ∷ xs) ys (inl e) = inr (inl e)
Has-moved b a (x ∷ xs) ys (inr h) = swap (Has-moved b a xs ys h)
  where
    swap : Has b (a ∷ (xs ++ ys)) → Has b (a ∷ x ∷ (xs ++ ys))
    swap (inl e) = inl e
    swap (inr h) = inr (inr h)

-- The cache: all buffers stand in the list, and no two of them hold one block of a device.
pub record IsCache (c : Bcache) (order : List ℕ) : Type 0 where
  pub ring : IsRing c order
  pub count : length order ≡ nbuf
  pub bound : All (λ b. b < nbuf) order
  pub whole : (b : ℕ) → b < nbuf → Has b order
  pub one :
      (b b' : ℕ)
      → b < nbuf
      → b' < nbuf
      → (c.buf b).dev ≢ 0
      → (c.buf b).dev ≡ (c.buf b').dev
      → (c.buf b).blockno ≡ (c.buf b').blockno
      → b ≡ b'
