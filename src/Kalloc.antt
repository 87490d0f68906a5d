-- ===== src/Kalloc.antt =====
-- xv6-public/kalloc.c: the list of free pages of memory.
use os_project.Prelude.{
  ℕ, zero, suc, ◌+◌, ◌-◌, ◌*◌, ◌/◌, ◌%◌, ◌^◌, ◌<◌, ◌≤◌, ◌≡◌, ◌≢◌, ◌⊎◌, inl, inr, ◌∙◌, refl, sym, ap,
  Bool, true, false, not, ◌||◌, ltb, leb, ◌==◌, if◌then◌else◌, arith, update, Bool-cases, List, [],
  ◌∷◌, All,
}
use mathlib.Core.Path.{subst}
use os_project.Prelude.Outcome.{Outcome, ok, panic, ◌>>=◌, ◌>>◌, panic_if}

-- PGSIZE, KERNBASE and PHYSTOP
abbrev pub page_size : ℕ
page_size = 4096

abbrev pub kern_base : ℕ
kern_base = 2 ^ 31

abbrev pub phys_top : ℕ
phys_top = 234881024

-- kmem, less its lock: `next` is the field of the run that stands in a page, by the address of the page. The
-- address 0 is a null pointer, and `end` the first address behind the kernel.
pub record Kmem : Type 0 where
  pub freelist : ℕ
  pub next : ℕ → ℕ

-- V2P: an address below KERNBASE wraps round.
abbrev pub v2p : ℕ → ℕ
v2p v = (v + (2 ^ 32 - kern_base)) % 2 ^ 32

unfoldable pub kfree : ℕ → ℕ → Kmem → Outcome Kmem
kfree end v k = do
  panic_if (not (v % page_size == 0) || ltb v end || leb phys_top (v2p v))
  ok (record { freelist = v; next = update k.next v k.freelist })

unfoldable pub kalloc : Kmem → Kmem × ℕ
kalloc k =
    if k.freelist == 0 then (k, 0) else (record k { freelist = k.next k.freelist }, k.freelist)

-- The loop of freerange, over the pages that fit below vend.
unfoldable pub free_pages : ℕ → ℕ → ℕ → Kmem → Outcome Kmem
free_pages end zero p k = ok k
free_pages end (suc count) p k = kfree end p k >>= free_pages end count (p + page_size)

-- PGROUNDUP
abbrev pub round_up : ℕ → ℕ
round_up a = (a + (page_size - 1)) / page_size * page_size

unfoldable pub freerange : ℕ → ℕ → ℕ → Kmem → Outcome Kmem
freerange end vstart vend k =
    free_pages end ((vend - round_up vstart) / page_size) (round_up vstart) k

-- A page that kfree accepts.
abbrev pub IsPage : ℕ → ℕ → Type 0
IsPage end v = (v % page_size ≡ 0) × (end ≤ v) × (v2p v < phys_top) × (v ≢ 0)

-- The list of the free pages, by their links.
abbrev pub Chain : (ℕ → ℕ) → ℕ → List ℕ → Type 0
Chain next p [] = p ≡ 0
Chain next p (v ∷ vs) = (p ≡ v) × Chain next (next v) vs

abbrev pub Distinct : List ℕ → Type 0
Distinct [] = Unit {0}
Distinct (v ∷ vs) = All (λ x. x ≢ v) vs × Distinct vs

pub record IsFree (end : ℕ) (k : Kmem) (pages : List ℕ) : Type 0 where
  pub chain : Chain k.next k.freelist pages
  pub each : All (IsPage end) pages
  pub distinct : Distinct pages

Chain-update :
    (next : ℕ → ℕ) (p v q : ℕ) (vs : List ℕ)
    → All (λ x. x ≢ v) vs
    → Chain next p vs
    → Chain (update next v q) p vs
Chain-update next p v q [] away c = c
Chain-update next p v q (x ∷ xs) away c = (
  c.0,
  subst (λ y. Chain (update next v q) y xs) (sym (other x away.0))
      (Chain-update next (next x) v q xs away.1 c.1),
)
  where
    other : (x : ℕ) → x ≢ v → update next v q x ≡ next x
    other x n = ground arith

guards :
    (end v : ℕ)
    → 0 < end
    → (((not (v % page_size == 0) || ltb v end || leb phys_top (v2p v)) ≡ false) × IsPage end v)
      ⊎ (((not (v % page_size == 0) || ltb v end || leb phys_top (v2p v)) ≡ true)
          × ¬ (IsPage end v))
guards end v above = elim (Bool-cases (v % page_size == 0)) [
  | inr off ↦ inr (rw off refl, λ h. no_multiple (v % page_size) off h.0)
  | inl on ↦ elim (Bool-cases (ltb v end)) [
    | inl low ↦ inr (rw (on, low) refl, λ h. below low h.1)
    | inr high ↦ elim (Bool-cases (leb phys_top (v2p v))) [
      | inl top ↦ inr (rw (on, high, top) refl, λ h. beyond (v2p v) top h.2)
      | inr inside ↦ inl (
        rw (on, high, inside) refl,
        (
          multiple (v % page_size) on,
          at_least high,
          within (v2p v) inside,
          λ z. omega (arith, z, above, at_least high),
        ),
      )
    ]
  ]
]
  where
    no_multiple : (x : ℕ) → (x == 0) ≡ false → x ≡ 0 → ⊥
    no_multiple x e f = ground arith

    multiple : (x : ℕ) → (x == 0) ≡ true → x ≡ 0
    multiple x e = ground arith

    below : ltb v end ≡ true → end ≤ v → ⊥
    below e f = ground arith

    at_least : ltb v end ≡ false → end ≤ v
    at_least e = ground arith

    beyond : (x : ℕ) → leb phys_top x ≡ true → x < phys_top → ⊥
    beyond x e f = ground arith

    within : (x : ℕ) → leb phys_top x ≡ false → x < phys_top
    within x e = ground arith

kfree_ends :
    (end v : ℕ) (k : Kmem) (t : Bool)
    → (not (v % page_size == 0) || ltb v end || leb phys_top (v2p v)) ≡ t
    → kfree end v k
      ≡ (panic_if t >> ok (record { freelist = v; next = update k.next v k.freelist }))
unfolding kfree
kfree_ends end v k t e =
    ap (λ q. panic_if q >> ok (record { freelist = v; next = update k.next v k.freelist })) e

-- kfree of an address that is no page in range panics; of a page that is not free it makes the first of the list.
pub kfree_lem :
    (end v : ℕ) (k : Kmem) (pages : List ℕ)
    → 0 < end
    → IsFree end k pages
    → All (λ x. x ≢ v) pages
    → ((kfree end v k ≡ panic) × ¬ (IsPage end v))
      ⊎ (IsPage end v × (k' : Kmem) × (kfree end v k ≡ ok k') × IsFree end k' (v ∷ pages))
kfree_lem end v k pages above h away = elim (guards end v above) [
  | inr (e, no_page) ↦ inl (kfree_ends end v k true e, no_page)
  | inl (e, page) ↦ inr (
    page,
    record { freelist = v; next = update k.next v k.freelist },
    kfree_ends end v k false e,
    record {
      chain = (
        refl,
        subst (λ q. Chain (update k.next v k.freelist) q pages) (sym (at_v v k.freelist k.next))
            (Chain-update k.next k.freelist v k.freelist pages away h.chain),
      );
      each = (page, h.each);
      distinct = (away, h.distinct);
    },
  )
]
  where
    at_v : (v q : ℕ) (f : ℕ → ℕ) → update f v q v ≡ q
    at_v v q f = ground arith

none_left : (k : Kmem) → k.freelist ≡ 0 → kalloc k ≡ (k, 0)
unfolding kalloc
none_left k e =
    let t : (k.freelist == 0) ≡ true = ground arith in
    ap (λ q. if q then (k, 0) else (record k { freelist = k.next k.freelist }, k.freelist)) t

first_of :
    (end : ℕ) (k : Kmem) (v : ℕ)
    → k.freelist ≡ v
    → IsPage end v
    → kalloc k ≡ (record k { freelist = k.next k.freelist }, v)
unfolding kalloc
first_of end k v e h =
    let t : (k.freelist == 0) ≡ false = ground arith in
    ap (λ q. if q then (k, 0) else (record k { freelist = k.next k.freelist }, k.freelist)) t
    ∙ ap (λ q. (record k { freelist = k.next k.freelist }, q)) e

-- kalloc takes the first page off the list, or returns 0 where there is none.
pub kalloc_lem :
    (end : ℕ) (k : Kmem) (pages : List ℕ)
    → IsFree end k pages
    → ((pages ≡ []) × (kalloc k ≡ (k, 0)))
      ⊎ ((v : ℕ) × (rest : List ℕ) × (pages ≡ v ∷ rest)
          × (k' : Kmem) × (kalloc k ≡ (k', v))
          × IsPage end v
          × All (λ x. x ≢ v) rest
          × IsFree end k' rest)
unfolding kalloc
kalloc_lem end k [] h = inl (refl, none_left k h.chain)
kalloc_lem end k (v ∷ vs) h = inr (
  v,
  vs,
  refl,
  record k { freelist = k.next k.freelist },
  first_of end k v h.chain.0 h.each.0,
  h.each.0,
  h.distinct.0,
  record {
    chain = subst (λ q. Chain k.next (k.next q) vs) (sym h.chain.0) h.chain.1;
    each = h.each.1;
    distinct = h.distinct.1;
  },
)

-- A page that is not free is free after kfree, and the next kalloc returns it and leaves the other pages free; an
-- address that is no page below PHYSTOP and behind the kernel makes kfree panic.
pub kfree-kalloc :
    (end v : ℕ) (k : Kmem) (pages : List ℕ)
    → 0 < end
    → IsFree end k pages
    → All (λ x. x ≢ v) pages
    → ((kfree end v k ≡ panic) × ¬ (IsPage end v))
      ⊎ (IsPage end v
          × (k' : Kmem) × (k'' : Kmem) × (kfree end v k ≡ ok k')
          × IsFree end k' (v ∷ pages)
          × (kalloc k' ≡ (k'', v))
          × IsFree end k'' pages)
kfree-kalloc end v k pages above h away = elim (kfree_lem end v k pages above h away) [
  | inl no_page ↦ inl no_page
  | inr (page, k', e, h') ↦ inr (
    page,
    k',
    record k' { freelist = k'.next k'.freelist },
    e,
    h',
    first_of end k' v h'.chain.0 page,
    record {
      chain = subst (λ q. Chain k'.next (k'.next q) pages) (sym h'.chain.0) h'.chain.1;
      each = h'.each.1;
      distinct = h'.distinct.1;
    },
  )
]
