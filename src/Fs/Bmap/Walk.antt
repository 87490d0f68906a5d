-- ===== src/Fs/Bmap/Walk.antt =====
-- The walk through tables that bmap makes, and the address that the tables hold.
use os_project.Prelude.{
  ℕ, ◌<◌, ◌≡◌, ◌≢◌, ◌⊎◌, inl, inr, ◌∙◌, refl, sym, ap, true, false, ◌==◌, arith, Bool-cases, List,
  [], ◌∷◌,
}
use mathlib.Core.Path.{subst}
use os_project.Prelude.Outcome.{Outcome, ok, panic, ◌>>=◌}
use os_project.Fs.{SuperBlock, Volume, in_use}
use os_project.Fs.Bits.{word}
use os_project.Fs.Free.{IsVolume}
use os_project.Fs.Alloc.{IsStuck}
use os_project.Fs.Bmap.{entry_block}
use os_project.Fs.Bmap.Held.{Held, HeldPath, HeldPath-head, Grew, Grew-refl, Grew-trans, Held-mono}
use os_project.Fs.Bmap.Entry.{zero_word}
use os_project.Fs.Bmap.Fill.{Stepped, Stepped-old, entry_block_lem}

-- Through the tables from `a` on, by the entries listed.
unfoldable pub walk : ℕ → List ℕ → Volume → Outcome (Volume × ℕ)
walk a [] v = ok (v, a)
walk a (i ∷ is) v = entry_block a i v >>= λ (r : Volume × ℕ). walk r.1 is r.0

-- The block that the tables name; 0 where a table or the block is missing.
unfoldable pub address : Volume → ℕ → List ℕ → ℕ
address v a [] = a
address v a (i ∷ is) = elim (a == 0) [ true ↦ 0 | false ↦ address v (word (v.blocks a) i) is ]

pub address-zero : (v : Volume) (a : ℕ) (is : List ℕ) → a ≡ 0 → address v a is ≡ 0
unfolding address
address-zero v a [] e = e
address-zero v a (i ∷ is) e = let t : (a == 0) ≡ true = ground arith in rw (t, address) refl

pub address-cons :
    (v : Volume) (a i : ℕ) (is : List ℕ)
    → a ≢ 0
    → address v a (i ∷ is) ≡ address v (word (v.blocks a) i) is
unfolding address
address-cons v a i is n = let t : (a == 0) ≡ false = ground arith in rw (t, address) refl

pub address-new :
    (v : Volume) (a i : ℕ) (is : List ℕ) → a ≢ 0 → v.blocks a ≡ (λ _. 0) → address v a (i ∷ is) ≡ 0
address-new v a i is n z =
    address-cons v a i is n
    ∙ address-zero v (word (v.blocks a) i) is (ap (λ w. word w i) z ∙ zero_word i)

pub address-nil : (v : Volume) (a : ℕ) → address v a [] ≡ a
unfolding address
address-nil v a = refl

-- A block that a path names stays where it is in a volume that grows.
pub address-Grew :
    (v v' : Volume) (a : ℕ) (is : List ℕ)
    → Grew v v'
    → HeldPath v a is
    → address v a is ≢ 0
    → address v' a is ≡ address v a is
address-Grew v v' a [] g h n = address-nil v' a ∙ sym (address-nil v a)
address-Grew v v' a (i ∷ is) g h n =
    let na : a ≢ 0 = λ e. n (address-zero v a (i ∷ is) e) in
    let there : address v (word (v.blocks a) i) is ≢ 0 = λ e. n (address-cons v a i is na ∙ e) in
    let entry : word (v.blocks a) i ≢ 0 = λ e. there (address-zero v _ is e) in
    address-cons v' a i is na
    ∙ ap (λ b. address v' b is) (g.kept a i (h na).0 entry)
    ∙ address-Grew v v' (word (v.blocks a) i) is g (h na).1 there
    ∙ sym (address-cons v a i is na)

-- Two steps, through an entry and through the tables behind it.
free_before :
    (v v1 : Volume) (b : ℕ) → Grew v v1 → b < v1.sb.size → in_use v1 b ≡ false → in_use v b ≡ false
free_before v v1 b g l free = elim (Bool-cases (in_use v b)) [
  | inl used ↦
      absurd (cc (sym (g.used b (subst (λ (s : SuperBlock). b < s.size) g.sb_is l) used) ∙ free))
  | inr was ↦ was
]

Stepped-fresh :
    (v v1 v' : Volume) (old c b : ℕ) (is : List ℕ)
    → Stepped v old c v1
    → Stepped v1 (address v1 c is) b v'
    → b < v1.sb.size
    → address v old is ≡ 0
    → (in_use v b ≡ false) × (v'.blocks b ≡ (λ _. 0))
Stepped-fresh v v1 v' old c b is s t l z = elim (Bool-cases (old == 0)) [
  | inr there ↦
      let (same, at) = s.stays (ground arith) in
      let z1 : address v1 c is ≡ 0 =
        ap (λ (w : Volume). address w c is) same ∙ ap (λ d. address v d is) at ∙ z in
      let (free, zeros) = t.fresh z1 in (free_before v v1 b s.grew l free, zeros)
  | inl none_yet ↦ new (ground arith) is t
]
  where
    new :
        old ≡ 0
        → (is : List ℕ) → Stepped v1 (address v1 c is) b v'
        → (in_use v b ≡ false) × (v'.blocks b ≡ (λ _. 0))
    new z0 [] t =
        let (same, at) = t.stays (λ e. s.nonzero (sym (address-nil v1 c) ∙ e)) in
        let (free, zeros) = s.fresh z0 in
        let e : b ≡ c = at ∙ address-nil v1 c in
        (ap (in_use v) e ∙ free, ap (λ (w : Volume). w.blocks b) same ∙ ap v1.blocks e ∙ zeros)
    new z0 (j ∷ js) t =
        let (free, zeros) = t.fresh (address-new v1 c j js s.nonzero (s.fresh z0).1) in
        (free_before v v1 b s.grew l free, zeros)

pub Stepped-trans :
    (v v1 v' : Volume) (old c b : ℕ) (is : List ℕ)
    → Stepped v old c v1
    → Stepped v1 (address v1 c is) b v'
    → Stepped v (address v old is) b v'
Stepped-trans v v1 v' old c b is s t = record {
  volume = t.volume;
  grew = Grew-trans v v1 v' s.grew t.grew;
  nonzero = t.nonzero;
  held = t.held;
  stays = λ n.
      let (same, at) = s.stays (λ e. n (address-zero v old is e)) in
      let e : address v1 c is ≡ address v old is =
        ap (λ (w : Volume). address w c is) same ∙ ap (λ d. address v d is) at in
      let (same', at') = t.stays (λ q. n (sym e ∙ q)) in (same' ∙ same, at' ∙ e);
  fresh =
      Stepped-fresh v v1 v' old c b is s t
        (subst (λ (s : SuperBlock). b < s.size) t.grew.sb_is t.held.inside);
}

pub Stepped-missing :
    (v v1 : Volume) (old c : ℕ) (is : List ℕ)
    → Stepped v old c v1
    → address v1 c is ≡ 0
    → address v old is ≡ 0
Stepped-missing v v1 old c is s z = elim (Bool-cases (old == 0)) [
  | inl none_yet ↦ address-zero v old is (ground arith)
  | inr there ↦
      let (same, at) = s.stays (ground arith) in
      ap (λ d. address v d is) (sym at) ∙ ap (λ (w : Volume). address w c is) (sym same) ∙ z
]

-- The walk ends in a panic where the block is missing and none is free, or at the block that the tables name from then on.
abbrev pub WalkEnds : Volume → ℕ → List ℕ → Outcome (Volume × ℕ) → Type 0
WalkEnds v a is r =
    ((r ≡ panic) × (address v a is ≡ 0) × (w : Volume) × Grew v w × IsStuck w)
    ⊎ ((v' : Volume) × (b : ℕ) × (r ≡ ok (v', b))
        × Stepped v (address v a is) b v'
        × (address v' a is ≡ b))

pub walk_lem :
    (a : ℕ) (is : List ℕ) (v : Volume)
    → IsVolume v
    → Held v a
    → HeldPath v a is
    → WalkEnds v a is (walk a is v)
unfolding walk
walk_lem a [] v h held p = inr (
  v,
  a,
  refl,
  rw (address-nil v a) (Stepped-old v a h (λ e. omega (arith, held.high)) held),
  address-nil v a,
)
walk_lem a (i ∷ is) v h held p =
    let n : a ≢ 0 = λ e. omega (arith, held.high) in
    elim (entry_block_lem a i v h held (HeldPath-head v is _ (p n).1)) [
      | inl (e, z, full) ↦
          inl (rw e refl, address-cons v a i is n ∙ address-zero v _ is z, v, Grew-refl v, full)
      | inr (v1, c, e, s, entry) ↦
          let p1 : HeldPath v1 c is =
            subst (λ d. HeldPath v1 d is) entry (s.grew.paths a (i ∷ is) p n).1 in
          elim (walk_lem c is v1 s.volume s.held p1) [
            | inl (e', z, w, g, full) ↦ inl (
              rw (e, e') refl,
              address-cons v a i is n ∙ Stepped-missing v v1 (word (v.blocks a) i) c is s z,
              w,
              Grew-trans v v1 w s.grew g,
              full,
            )
            | inr (v', b, e', t, at) ↦
                let kept : word (v'.blocks a) i ≡ c =
                  t.grew.kept a i (Held-mono v v1 a s.grew.sb_is s.grew.used held)
                    (λ z. s.nonzero (sym entry ∙ z))
                  ∙ entry in
                inr (
                  v',
                  b,
                  rw (e, e') refl,
                  rw (address-cons v a i is n)
                      (Stepped-trans v v1 v' (word (v.blocks a) i) c b is s t),
                  address-cons v' a i is n ∙ ap (λ d. address v' d is) kept ∙ at,
                )
          ]
    ]
