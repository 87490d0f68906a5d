-- ===== src/Bcache/Shows.antt =====
-- A cache and a disk that show the machine of log.c: a dirty buffer, or the disk.
use os_project.Prelude.{
  ℕ, ◌<◌, ◌≡◌, ◌≢◌, ◌⊎◌, inl, inr, ◌∙◌, refl, sym, ap, true, false, ◌==◌, arith, Bool-cases, none,
  some, List,
}
use mathlib.Core.Path.{subst}
use os_project.Log.Power.{Machine}
use os_project.Log.Power
use os_project.Bcache.{Buf, Bcache, MemDisk, nbuf, change}
use os_project.Bcache.Scan.{IsCache}
use os_project.Bcache.Get.{change-same, change-other}

-- A buffer of a cache that shows the machine.
pub record Fits (m : Machine) (d : MemDisk) (x : Buf) : Type 0 where
  pub entry : x.dirty ≡ true → x.dev ≡ 1 → m.cache x.blockno ≡ some x.bytes
  pub filled : x.dirty ≡ true → x.valid ≡ true
  pub clean : x.dirty ≡ false → x.valid ≡ true → x.dev ≡ 1 → x.bytes ≡ d.blocks x.blockno

abbrev pub IsDirty : ℕ → Buf → Type 0
IsDirty n x = (x.dirty ≡ true) × (x.dev ≡ 1) × (x.blockno ≡ n)

pub record Shows (c : Bcache) (d : MemDisk) (m : Machine) : Type 0 where
  pub disk : m.disk ≡ d.blocks
  pub fits : (b : ℕ) → b < nbuf → Fits m d (c.buf b)
  pub rest : (n : ℕ) → ((b : ℕ) → b < nbuf → ¬ (IsDirty n (c.buf b))) → m.cache n ≡ none

pub bread-some : (m : Machine) (n : ℕ) (w : ℕ → ℕ) → m.cache n ≡ some w → Power.bread m n ≡ w
unfolding Power.bread
bread-some m n w e = rw (e, Power.bread) refl

pub bread-none : (m : Machine) (n : ℕ) → m.cache n ≡ none → Power.bread m n ≡ m.disk n
unfolding Power.bread
bread-none m n e = rw (e, Power.bread) refl

-- A buffer of the block has the contents that the machine shows.
pub Shows-bread :
    (c : Bcache) (d : MemDisk) (m : Machine) (order : List ℕ) (b n : ℕ)
    → IsCache c order
    → Shows c d m
    → b < nbuf
    → (c.buf b).valid ≡ true
    → (c.buf b).dev ≡ 1
    → (c.buf b).blockno ≡ n
    → (c.buf b).bytes ≡ Power.bread m n
Shows-bread c d m order b n h s l v e k = elim (Bool-cases (c.buf b).dirty) [
  | inl dirty ↦
      sym (bread-some m n (c.buf b).bytes (ap m.cache (sym k) ∙ (s.fits b l).entry dirty e))
  | inr clean ↦
      let off : (a : ℕ) → a < nbuf → ¬ (IsDirty n (c.buf a)) = λ a la q. absurd (
        cc (
          sym clean
          ∙ ap (λ p. (c.buf p).dirty)
              (h.one b a l la (λ z. omega (arith, z, e)) (e ∙ sym q.1) (k ∙ sym q.2))
          ∙ q.0)) in
      (s.fits b l).clean clean v e
      ∙ ap d.blocks k
      ∙ ap (λ w. w n) (sym s.disk)
      ∙ sym (bread-none m n (s.rest n off))
]

-- A change of a buffer that is dirty in neither cache, or the same but for its lock and its count.
abbrev pub IsQuiet : MemDisk → Buf → Buf → Type 0
IsQuiet d x y =
    ((y.dirty ≡ x.dirty)
      × (y.valid ≡ x.valid)
      × (y.dev ≡ x.dev)
      × (y.blockno ≡ x.blockno)
      × (y.bytes ≡ x.bytes))
    ⊎ ((x.dirty ≡ false)
        × (y.dirty ≡ false)
        × (y.valid ≡ true → y.dev ≡ 1 → y.bytes ≡ d.blocks y.blockno))

Fits-quiet : (m : Machine) (d : MemDisk) (x y : Buf) → IsQuiet d x y → Fits m d x → Fits m d y
Fits-quiet m d x y (inl (dirty, valid, dev, block, bytes)) f = record {
  entry = λ e k. ap m.cache block ∙ f.entry (sym dirty ∙ e) (sym dev ∙ k) ∙ ap some (sym bytes);
  filled = λ e. valid ∙ f.filled (sym dirty ∙ e);
  clean = λ e v k.
      bytes ∙ f.clean (sym dirty ∙ e) (sym valid ∙ v) (sym dev ∙ k) ∙ ap d.blocks (sym block);
}
Fits-quiet m d x y (inr (was, is, content)) f = record {
  entry = λ e. absurd (cc (sym is ∙ e));
  filled = λ e. absurd (cc (sym is ∙ e));
  clean = λ e v k. content v k;
}

IsDirty-quiet : (d : MemDisk) (n : ℕ) (x y : Buf) → IsQuiet d x y → IsDirty n x → IsDirty n y
IsDirty-quiet d n x y (inl (dirty, valid, dev, block, bytes)) q =
    (dirty ∙ q.0, dev ∙ q.1, block ∙ q.2)
IsDirty-quiet d n x y (inr (was, is, content)) q = absurd (cc (sym was ∙ q.0))

pub Shows-change :
    (c c' : Bcache) (d : MemDisk) (m : Machine) (b : ℕ)
    → ((a : ℕ) → a ≢ b → c'.buf a ≡ c.buf a)
    → IsQuiet d (c.buf b) (c'.buf b)
    → Shows c d m
    → Shows c' d m
Shows-change c c' d m b others q s = record { disk = s.disk; fits = each; rest = rest }
  where
    each : (a : ℕ) → a < nbuf → Fits m d (c'.buf a)
    each a l = elim (Bool-cases (a == b)) [
      | inl e ↦
          let e' : a ≡ b = ground arith in
          subst (λ p. Fits m d (c'.buf p)) (sym e')
            (Fits-quiet m d (c.buf b) (c'.buf b) q
              (subst (λ p. Fits m d (c.buf p)) e' (s.fits a l)))
      | inr e ↦ subst (Fits m d) (sym (others a (ground arith))) (s.fits a l)
    ]

    rest : (n : ℕ) → ((a : ℕ) → a < nbuf → ¬ (IsDirty n (c'.buf a))) → m.cache n ≡ none
    rest n h = s.rest n (λ a l dirty. elim (Bool-cases (a == b)) [
      | inl e ↦
          let e' : a ≡ b = ground arith in
          h a l (
            subst (λ p. IsDirty n (c'.buf p)) (sym e')
              (IsDirty-quiet d n (c.buf b) (c'.buf b) q
                (subst (λ p. IsDirty n (c.buf p)) e' dirty)))
      | inr e ↦ h a l (subst (IsDirty n) (sym (others a (ground arith))) dirty)
    ])

-- A change by a function of the buffer.
pub Shows-quiet :
    (c : Bcache) (d : MemDisk) (m : Machine) (b : ℕ) (f : Buf → Buf)
    → IsQuiet d (c.buf b) (f (c.buf b))
    → Shows c d m
    → Shows (change b f c) d m
Shows-quiet c d m b f q s =
    Shows-change c (change b f c) d m b (λ a n. change-other c b a f n)
      (subst (IsQuiet d (c.buf b)) (sym (change-same c b f)) q) s
