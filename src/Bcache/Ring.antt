-- ===== src/Bcache/Ring.antt =====
-- The links of the buffers are those of a list.
use os_project.Prelude.{
  ℕ, ◌≡◌, ◌≢◌, ◌∙◌, refl, sym, arith, update, List, [], ◌∷◌, ◌++◌, All, All-append,
}
use mathlib.Core.Path.{subst}
use os_project.Bcache.{Bcache, list_head, insert, unlink}

-- From `a` along the list to `z`, by next and back by prev.
abbrev pub Links : (ℕ → ℕ) → (ℕ → ℕ) → ℕ → List ℕ → ℕ → Type 0
Links next prev a [] z = (next a ≡ z) × (prev z ≡ a)
Links next prev a (b ∷ bs) z = (next a ≡ b) × (prev b ≡ a) × Links next prev b bs z

abbrev pub Avoids : ℕ → List ℕ → Type 0
Avoids p = All (λ x. x ≢ p)

-- No number stands in the list twice.
abbrev pub Once : List ℕ → Type 0
Once [] = Unit {0}
Once (b ∷ bs) = Avoids b bs × Once bs

update-same : (f : ℕ → ℕ) (p q a : ℕ) → p ≡ a → update f p q a ≡ q
update-same f p q a e = ground arith

update-other : (f : ℕ → ℕ) (p q a : ℕ) → a ≢ p → update f p q a ≡ f a
update-other f p q a n = ground arith

-- A change of a link outside a stretch of the list.
update_next :
    (next prev : ℕ → ℕ) (p q a : ℕ) (bs : List ℕ) (z : ℕ)
    → a ≢ p
    → Avoids p bs
    → Links next prev a bs z
    → Links (update next p q) prev a bs z
update_next next prev p q a [] z n h l = (update-other next p q a n ∙ l.0, l.1)
update_next next prev p q a (b ∷ bs) z n h l =
    (update-other next p q a n ∙ l.0, l.1, update_next next prev p q b bs z h.0 h.1 l.2)

update_prev :
    (next prev : ℕ → ℕ) (p q a : ℕ) (bs : List ℕ) (z : ℕ)
    → z ≢ p
    → Avoids p bs
    → Links next prev a bs z
    → Links next (update prev p q) a bs z
update_prev next prev p q a [] z n h l = (l.0, update-other prev p q z n ∙ l.1)
update_prev next prev p q a (b ∷ bs) z n h l =
    (l.0, update-other prev p q b h.0 ∙ l.1, update_prev next prev p q b bs z n h.1 l.2)

-- The neighbours of a buffer of the list.
prev_in :
    (P : ℕ → Type 0) (next prev : ℕ → ℕ) (a b : ℕ) (xs ys : List ℕ) (z : ℕ)
    → Links next prev a (xs ++ b ∷ ys) z
    → P a
    → All P xs
    → P (prev b)
prev_in P next prev a b [] ys z l pa ps = subst P (sym l.1) pa
prev_in P next prev a b (x ∷ xs) ys z l pa ps = prev_in P next prev x b xs ys z l.2 ps.0 ps.1

next_in :
    (P : ℕ → Type 0) (next prev : ℕ → ℕ) (a b : ℕ) (xs ys : List ℕ) (z : ℕ)
    → Links next prev a (xs ++ b ∷ ys) z
    → P z
    → All P ys
    → P (next b)
next_in P next prev a b [] [] z l pz ps = subst P (sym l.2.0) pz
next_in P next prev a b [] (y ∷ ys) z l pz ps = subst P (sym l.2.0) ps.0
next_in P next prev a b (x ∷ xs) ys z l pz ps = next_in P next prev x b xs ys z l.2 pz ps

pub All-right : (P : ℕ → Type 0) (xs ys : List ℕ) → All P (xs ++ ys) → All P ys
All-right P [] ys h = h
All-right P (x ∷ xs) ys h = All-right P xs ys h.1

pub All-left : (P : ℕ → Type 0) (xs ys : List ℕ) → All P (xs ++ ys) → All P xs
All-left P [] ys h = tt
All-left P (x ∷ xs) ys h = (h.0, All-left P xs ys h.1)

unlink-Links :
    (next prev : ℕ → ℕ) (a b : ℕ) (xs ys : List ℕ) (z : ℕ)
    → Once (xs ++ b ∷ ys)
    → Avoids a (xs ++ b ∷ ys)
    → Avoids z (xs ++ b ∷ ys)
    → Links next prev a (xs ++ b ∷ ys) z
    → Links (update next (prev b) (next b)) (update prev (next b) (prev b)) a (xs ++ ys) z
unlink-Links next prev a b [] [] z o na nz l = (
  update-same next (prev b) (next b) a l.1 ∙ l.2.0,
  update-same prev (next b) (prev b) z l.2.0 ∙ l.1,
)
unlink-Links next prev a b [] (y ∷ ys) z o na nz l = (
  update-same next (prev b) (next b) a l.1 ∙ l.2.0,
  update-same prev (next b) (prev b) y l.2.0 ∙ l.1,
  update_prev (update next (prev b) (next b)) prev (next b) (prev b) y ys z
      (λ e. nz.1.0 (sym l.2.0 ∙ sym e)) (subst (λ q. Avoids q ys) (sym l.2.0) o.1.0)
      (update_next next prev (prev b) (next b) y ys z (λ e. na.1.0 (e ∙ l.1))
        (subst (λ q. Avoids q ys) (sym l.1) na.1.1) l.2.2),
)
unlink-Links next prev a b (x ∷ xs) ys z o na nz l = (
  update-other next (prev b) (next b) a (λ e.
        prev_in (λ q. q ≢ a) next prev x b xs ys z l.2 na.0 (All-left _ xs (b ∷ ys) na.1) (sym e))
      ∙ l.0,
  update-other prev (next b) (prev b) x (λ e.
        next_in (λ q. q ≢ x) next prev x b xs ys z l.2 (λ q. nz.0 (sym q))
          (All-right _ xs (b ∷ ys) o.0).1 (sym e))
      ∙ l.1,
  unlink-Links next prev x b xs ys z o.1 o.0 nz.1 l.2,
)

-- The buffers in the order of the list, each once, and their links.
pub record IsRing (c : Bcache) (order : List ℕ) : Type 0 where
  pub links : Links c.next c.prev list_head order list_head
  pub once : Once order
  pub off : Avoids list_head order

Once-unlink :
    (xs : List ℕ) (b : ℕ) (ys : List ℕ)
    → Once (xs ++ b ∷ ys)
    → Once (xs ++ ys) × Avoids b (xs ++ ys)
Once-unlink [] b ys o = (o.1, o.0)
Once-unlink (x ∷ xs) b ys o =
    let (rest, away) = Once-unlink xs b ys o.1 in
    (
      (
        All-append (λ q. q ≢ x) xs ys (All-left _ xs (b ∷ ys) o.0) (All-right _ xs (b ∷ ys) o.0).1,
        rest,
      ),
      ((λ e. (All-right _ xs (b ∷ ys) o.0).0 (sym e)), away),
    )

pub unlink-IsRing :
    (c : Bcache) (b : ℕ) (xs ys : List ℕ)
    → IsRing c (xs ++ b ∷ ys)
    → IsRing (unlink b c) (xs ++ ys) × Avoids b (xs ++ ys) × (b ≢ list_head)
unlink-IsRing c b xs ys r =
    let (once, away) = Once-unlink xs b ys r.once in
    let at_b = (All-right _ xs (b ∷ ys) r.off).0 in
    let not_b =
      next_in (λ q. q ≢ b) c.next c.prev list_head b xs ys list_head r.links (λ e. at_b (sym e))
        (after xs r.once) in
    let prev_b : update c.prev (c.next b) (c.prev b) b ≡ c.prev b =
      update-other c.prev (c.next b) (c.prev b) b (λ e. not_b (sym e)) in
    (
      record {
        links =
            subst
              (λ q.
                Links (update c.next q (c.next b)) (update c.prev (c.next b) (c.prev b)) list_head
                  (xs ++ ys) list_head)
              (sym prev_b)
              (unlink-Links c.next c.prev list_head b xs ys list_head r.once r.off r.off r.links);
        once = once;
        off =
            All-append (λ q. q ≢ list_head) xs ys (All-left _ xs (b ∷ ys) r.off)
              (All-right _ xs (b ∷ ys) r.off).1;
      },
      away,
      at_b,
    )
  where
    after : (xs : List ℕ) → Once (xs ++ b ∷ ys) → Avoids b ys
    after [] o = o.0
    after (x ∷ xs) o = after xs o.1

pub insert-IsRing :
    (c : Bcache) (b : ℕ) (order : List ℕ)
    → IsRing c order
    → Avoids b order
    → b ≢ list_head
    → IsRing (insert b c) (b ∷ order)
insert-IsRing c b order r away n = record {
  links = (
    update-same (update c.next b (c.next list_head)) list_head b list_head refl,
    update-other (update c.prev b list_head) (update c.next b (c.next list_head) list_head) b b
          (first_not order r.links away)
        ∙ update-same c.prev b list_head b refl,
    moved order r.links r.once r.off away,
  );
  once = (away, r.once);
  off = (n, r.off);
}
  where
    next1 : update c.next b (c.next list_head) list_head ≡ c.next list_head
    next1 = update-other c.next b (c.next list_head) list_head (λ e. n (sym e))

    first_not :
        (o : List ℕ)
        → Links c.next c.prev list_head o list_head
        → Avoids b o
        → b ≢ update c.next b (c.next list_head) list_head
    first_not [] l a e = n (e ∙ next1 ∙ l.0)
    first_not (x ∷ xs) l a e = a.0 (sym (e ∙ next1 ∙ l.0))

    moved :
        (o : List ℕ)
        → Links c.next c.prev list_head o list_head
        → Once o
        → Avoids list_head o
        → Avoids b o
        → Links
            (update (update c.next b (c.next list_head)) list_head b)
            (update (update c.prev b list_head) (update c.next b (c.next list_head) list_head) b)
            b
            o
            list_head
    moved [] l o h a = (
      update-other (update c.next b (c.next list_head)) list_head b b n
          ∙ update-same c.next b (c.next list_head) b refl
          ∙ l.0,
      update-same (update c.prev b list_head) (update c.next b (c.next list_head) list_head) b
          list_head (next1 ∙ l.0),
    )
    moved (x ∷ xs) l o h a = (
      update-other (update c.next b (c.next list_head)) list_head b b n
          ∙ update-same c.next b (c.next list_head) b refl
          ∙ l.0,
      update-same (update c.prev b list_head) (update c.next b (c.next list_head) list_head) b x
          (next1 ∙ l.0),
      update_prev (update (update c.next b (c.next list_head)) list_head b)
          (update c.prev b list_head) (update c.next b (c.next list_head) list_head) b x xs
          list_head (λ e. h.0 (sym (e ∙ next1 ∙ l.0)))
          (subst (λ q. Avoids q xs) (sym (next1 ∙ l.0)) o.0)
          (update_prev (update (update c.next b (c.next list_head)) list_head b) c.prev b list_head
            x xs list_head (λ e. n (sym e)) a.1
            (update_next (update c.next b (c.next list_head)) c.prev list_head b x xs list_head h.0
              h.1 (update_next c.next c.prev b (c.next list_head) x xs list_head a.0 a.1 l.2))),
    )
