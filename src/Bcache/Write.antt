-- ===== src/Bcache/Write.antt =====
-- bwrite is that of log.c, which writes to the disk and leaves the block clean.
use os_project.Prelude.{
  ℕ, suc, ◌<◌, ◌≡◌, ◌≢◌, ◌⊎◌, inl, inr, ◌∙◌, refl, sym, ap, Bool, true, false, not, ◌&&◌, ◌==◌,
  arith, update, Bool-cases, none, List,
}
use mathlib.Core.Path.{subst}
use os_project.Prelude.Outcome.{ok, panic, ◌>>◌, panic_if}
use os_project.Log.Power.{Machine, on}
use os_project.Log.Power
use os_project.Bcache.{Buf, Bcache, MemDisk, nbuf, change, iderw, bwrite}
use os_project.Bcache.Scan.{IsCache}
use os_project.Bcache.Shows.{Fits, IsDirty, Shows}
use os_project.Bcache.Read.{passed, if_true, iderw-transfer}
use os_project.Bcache.Get.{change-same, change-other, change-IsCache}

abbrev marked : Buf → Buf
marked x = record x { dirty = true }

abbrev cleaned : Buf → Buf
cleaned x = record x { dirty = false; valid = true }

-- The machine after a write of the block `n`.
abbrev pub written : ℕ → (ℕ → ℕ) → ℕ → Machine → Machine
written n w k m = record { disk = update m.disk n w; cache = update m.cache n none; writes = k }

writes_one :
    (n k : ℕ) (w : ℕ → ℕ) (m : Machine)
    → m.writes ≡ suc k
    → Power.bwrite n w m ≡ on (written n w k m)
unfolding Power.bwrite
writes_one n k w m e = rw (e, Power.bwrite) refl

pub record HasWritten (n : ℕ) (order : List ℕ) (m' : Machine) (b : ℕ) (c c' : Bcache) (d' : MemDisk)
    : Type 0 where
  pub cache : IsCache c' order
  pub shows : Shows c' d' m'
  pub same : c'.buf b ≡ cleaned (c.buf b)
  pub others : (a : ℕ) → a ≢ b → c'.buf a ≡ c.buf a

other_block : {A : Type 0} (f : ℕ → A) (n : ℕ) (x : A) (i : ℕ) → i ≢ n → update f n x i ≡ f i
other_block f n x i e = ground arith

this_block : {A : Type 0} (f : ℕ → A) (n : ℕ) (x : A) (i : ℕ) → i ≡ n → update f n x i ≡ x
this_block f n x i e = ground arith

module _ (n k : ℕ) (c c' : Bcache) (d : MemDisk) (m : Machine) (order : List ℕ) (b : ℕ)
    (h : IsCache c order) (s : Shows c d m) (l : b < nbuf)
    (is : ((c.buf b).dev ≡ 1) × ((c.buf b).blockno ≡ n)) (same : c'.buf b ≡ cleaned (c.buf b))
    (others : (a : ℕ) → a ≢ b → c'.buf a ≡ c.buf a) where
  abbrev disk_of : MemDisk
  disk_of = record d { blocks = update d.blocks n (c.buf b).bytes }

  abbrev machine_of : Machine
  machine_of = written n (c.buf b).bytes k m

  -- Another buffer of disk 1 holds another block.
  apart : (a : ℕ) → a < nbuf → a ≢ b → (c.buf a).dev ≡ 1 → (c.buf a).blockno ≢ n
  apart a la away e z =
      away (h.one a b la l (λ q. omega (arith, q, e)) (e ∙ sym is.0) (z ∙ sym is.1))

  Fits-other : (a : ℕ) → a < nbuf → a ≢ b → Fits machine_of disk_of (c.buf a)
  Fits-other a la away = record {
    entry = λ e k.
        other_block m.cache n none (c.buf a).blockno (apart a la away k) ∙ (s.fits a la).entry e k;
    filled = (s.fits a la).filled;
    clean = λ e v k.
        (s.fits a la).clean e v k
        ∙ sym (other_block d.blocks n (c.buf b).bytes (c.buf a).blockno (apart a la away k));
  }

  Fits-this : Fits machine_of disk_of (cleaned (c.buf b))
  Fits-this = record {
    entry = λ e. absurd (cc e);
    filled = λ e. refl;
    clean = λ e v k. sym (this_block d.blocks n (c.buf b).bytes (c.buf b).blockno is.1);
  }

  Shows-written : Shows c' disk_of machine_of
  Shows-written = record {
    disk = ap (λ q. update q n (c.buf b).bytes) s.disk;
    fits = λ a la. elim (Bool-cases (a == b)) [
      | inl e ↦
          let e' : a ≡ b = ground arith in
          subst (λ q. Fits machine_of disk_of (c'.buf q)) (sym e')
            (subst (Fits machine_of disk_of) (sym same) Fits-this)
      | inr e ↦
          subst (Fits machine_of disk_of) (sym (others a (ground arith)))
            (Fits-other a la (ground arith))
    ];
    rest = λ i none_dirty. elim (Bool-cases (i == n)) [
      | inl e ↦ this_block m.cache n none i (ground arith)
      | inr e ↦
          other_block m.cache n none i (ground arith)
          ∙ s.rest i (λ a la q. elim (Bool-cases (a == b)) [
            | inl at ↦
                let e' : b ≡ a = ground arith in
                not_this i e (sym is.1 ∙ ap (λ p. (c.buf p).blockno) e' ∙ q.2)
            | inr away ↦ none_dirty a la (subst (IsDirty i) (sym (others a (ground arith))) q)
          ])
    ];
  }
    where
      not_this : (i : ℕ) → (i == n) ≡ false → n ≡ i → ⊥
      not_this i e z = ground arith

-- bwrite of a locked buffer of a block of the disk does to the machine what the bwrite of log.c does.
pub bwrite_lem :
    (n k : ℕ) (c : Bcache) (d : MemDisk) (m : Machine) (order : List ℕ) (b : ℕ)
    → IsCache c order
    → Shows c d m
    → b < nbuf
    → ((c.buf b).dev ≡ 1) × ((c.buf b).blockno ≡ n)
    → n < d.size
    → m.writes ≡ suc k
    → (((c.buf b).locked ≡ false) × (bwrite b (c, d) ≡ panic))
      ⊎ (((c.buf b).locked ≡ true)
          × (c' : Bcache) × (d' : MemDisk) × (bwrite b (c, d) ≡ ok (c', d'))
          × (Power.bwrite n (c.buf b).bytes m ≡ on (written n (c.buf b).bytes k m))
          × HasWritten n order (written n (c.buf b).bytes k m) b c c' d')
unfolding bwrite
bwrite_lem n k c d m order b h s l is inside w =
    let c1 = change b marked c in
    let same1 = change-same c b marked in
    let c2 = change b cleaned c1 in
    let dirty1 : (c1.buf b).dirty ≡ true = ap (λ (x : Buf). x.dirty) same1 in
    let same2 = change-same c1 b cleaned ∙ ap cleaned same1 in
    let others =
      λ (a : ℕ) (away : a ≢ b). change-other c1 b a cleaned away ∙ change-other c b a marked away in
    elim (Bool-cases (c.buf b).locked) [
      | inr free ↦ inl (free, ap (λ q. panic_if (not q) >> iderw b (c1, d)) free)
      | inl held ↦ inr (
        held,
        c2,
        disk_of n k c c2 d m order b h s l is same2 others,
        passed (not (c.buf b).locked) _ (ap not held)
            ∙ (iderw-transfer b n c1 d (ap (λ (x : Buf). x.locked) same1 ∙ held)
                  (not_both (c1.buf b).valid (c1.buf b).dirty dirty1)
                  (ap (λ (x : Buf). x.dev) same1 ∙ is.0) (ap (λ (x : Buf). x.blockno) same1 ∙ is.1)
                  inside
                ∙ ap ok (if_true (c1.buf b).dirty _ _ dirty1)
                ∙ ap (λ (x : Buf). ok (c2, record d { blocks = update d.blocks x.blockno x.bytes }))
                    same1
                ∙ ap (λ q. ok (c2, record d { blocks = update d.blocks q (c.buf b).bytes })) is.1),
        writes_one n k (c.buf b).bytes m w,
        record {
          cache =
              change-IsCache c1 order b cleaned
                (change-IsCache c order b marked h (inl (refl, refl))) (inl (refl, refl));
          shows = Shows-written n k c c2 d m order b h s l is same2 others;
          same = same2;
          others = others;
        },
      )
    ]
  where
    not_both : (t u : Bool) → u ≡ true → (t && not u) ≡ false
    not_both true u e = ap not e
    not_both false u e = refl
