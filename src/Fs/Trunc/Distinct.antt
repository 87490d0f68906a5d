-- ===== src/Fs/Trunc/Distinct.antt =====
-- itrunc of a file that names no block twice.
use os_project.Prelude.{
  ℕ, ◌<◌, ◌≡◌, ◌≢◌, inl, inr, ◌∙◌, refl, sym, ap, Bool, true, false, ◌==◌, if◌then◌else◌, arith,
  List, [], ◌∷◌, All,
}
use mathlib.Core.Path.{subst}
use os_project.Prelude.Outcome.{ok-injective, Outcome, ok, panic, fault, ◌>>=◌, for_each}
use os_project.Fs.{SuperBlock, Volume, in_use}
use os_project.Fs.Free.{IsMapBlock, IsVolume}
use os_project.Fs.Alloc.{bfree_lem}
use os_project.Fs.Bmap.{Inode}
use os_project.Fs.Inode.{iupdate}
use os_project.Fs.Trunc.{free_slot, free_table, free_double, free_triple, itrunc}
use os_project.Fs.Trunc.Freeing.{free_all, free_all-cons, free_all-nil, Agree, IsContents}
use os_project.Fs.Trunc.Empty.{file_blocks, emptied, emptied-SlotsEnd}

-- No block stands in the list twice.
abbrev pub Distinct : List ℕ → Type 0
Distinct [] = Unit {0}
Distinct (b ∷ bs) = All (λ x. x ≢ b) bs × Distinct bs

-- Exactly the blocks of the list have become free.
pub record AllFreed (bs : List ℕ) (v1 w : Volume) : Type 0 where
  pub free : All (λ b. in_use w b ≡ false) bs
  pub others : (c : ℕ) → c < v1.sb.size → All (λ b. b ≢ c) bs → in_use w c ≡ in_use v1 c

if_other : (b c : ℕ) (u : Bool) → c ≢ b → (if b == c then false else u) ≡ u
if_other b c u d = ground arith

if_same : (b : ℕ) (u : Bool) → (if b == b then false else u) ≡ false
if_same b u = ground arith

still_used :
    (v v1 w : Volume) (b : ℕ) (bs : List ℕ)
    → v1.sb ≡ v.sb
    → ((c : ℕ) → c < v1.sb.size → in_use w c ≡ (if b == c then false else in_use v1 c))
    → All (IsContents v) bs
    → All (λ x. x ≢ b) bs
    → All (λ x. in_use v1 x ≡ true) bs
    → All (λ x. in_use w x ≡ true) bs
still_used v v1 w b [] e m at d u = tt
still_used v v1 w b (x ∷ xs) e m at d u =
    let size_is = ap (λ (s : SuperBlock). s.size) e in
    (
      m x (omega (arith, size_is, at.0.inside)) ∙ if_other b x (in_use v1 x) d.0 ∙ u.0,
      still_used v v1 w b xs e m at.1 d.1 u.1,
    )

free_all-AllFreed :
    (bs : List ℕ) (v v1 : Volume)
    → Agree v v1
    → IsVolume v1
    → All (IsContents v) bs
    → Distinct bs
    → All (λ b. in_use v1 b ≡ true) bs
    → (w : Volume) × (free_all bs v1 ≡ ok w) × AllFreed bs v1 w
free_all-AllFreed [] v v1 g h1 at d u =
    (v1, free_all-nil v1, record { free = tt; others = λ c l a. refl })
free_all-AllFreed (b ∷ bs) v v1 g h1 at d u =
    let size_is = ap (λ (s : SuperBlock). s.size) g.sb_is in
    let start_is = ap (λ (s : SuperBlock). s.bmapstart) g.sb_is in
    let off : (c : ℕ) → IsMapBlock v1 c → IsMapBlock v c =
      λ c m. (omega (arith, start_is, m.0), omega (arith, start_is, size_is, m.1)) in
    let inside : b < v1.sb.size = omega (arith, size_is, at.0.inside) in
    elim (bfree_lem b v1 h1 inside at.0.high (λ m. at.0.away (off b m))) [
      | inl (free, _) ↦ absurd (cc (sym u.0 ∙ free))
      | inr (v2, e, used, f) ↦
          let g2 : Agree v v2 = record {
            sb_is = f.marked.sb_is ∙ g.sb_is;
            rest = λ c away. f.marked.rest c (λ m. away (off c m)) tt ∙ g.rest c away;
          } in
          let (w, e2, r) =
            free_all-AllFreed bs v v2 g2 f.volume at.1 d.1
              (still_used v v1 v2 b bs g.sb_is f.marked.map at.1 d.0 u.1) in
          let size2 = ap (λ (s : SuperBlock). s.size) f.marked.sb_is in
          (
            w,
            free_all-cons b bs v1 ∙ ap (λ q. q >>= free_all bs) e ∙ e2,
            record {
              free = (
                r.others b (omega (arith, size2, inside)) d.0
                    ∙ f.marked.map b inside
                    ∙ if_same b (in_use v1 b),
                r.free,
              );
              others = λ c l a.
                  r.others c (omega (arith, size2)) a.1
                  ∙ f.marked.map c l
                  ∙ if_other b c (in_use v1 c) (λ q. a.0 (sym q));
            },
          )
    ]

bind_assoc :
    {A B C : Type 0} (m : Outcome A) (f : A → Outcome B) (k : B → Outcome C)
    → (m >>= f >>= k) ≡ (m >>= λ x. f x >>= k)
bind_assoc (ok a) f k = refl
bind_assoc panic f k = refl
bind_assoc fault f k = refl

-- The last two lines of itrunc.
abbrev finish : Inode × Volume → Outcome (Inode × Volume)
finish (ip, v) = ok (record ip { size = 0 }, iupdate (record ip { size = 0 }) v)

itrunc-emptied : (ip : Inode) (v : Volume) → itrunc ip v ≡ (emptied ip v >>= finish)
unfolding itrunc
itrunc-emptied ip v = sym (
    bind_assoc (for_each (free_slot (λ _. ok)) 10 0 (ip, v)) _ finish ∙ λ t.
    for_each (free_slot (λ _. ok)) 10 0 (ip, v) >>= λ (r0 : Inode × Volume).
    (bind_assoc (free_slot free_table 10 r0) _ finish ∙ λ s.
    free_slot free_table 10 r0 >>= λ (r1 : Inode × Volume).
    bind_assoc (free_slot free_double 11 r1) (free_slot free_triple 12) finish s)
      t)

-- itrunc of a file whose blocks and tables are distinct blocks of contents in use does not panic: it
-- leaves a file of size 0 without blocks, frees exactly the blocks and tables of the file, and changes
-- no block but those of the map and the one that holds the inode.
pub itrunc_lem :
    (ip : Inode) (v : Volume)
    → IsVolume v
    → All (IsContents v) (file_blocks ip v)
    → Distinct (file_blocks ip v)
    → All (λ b. in_use v b ≡ true) (file_blocks ip v)
    → (ip' : Inode) × (w : Volume) × (itrunc ip v ≡ ok (ip', iupdate ip' w))
      × (ip'.size ≡ 0)
      × ((j : ℕ) → j < 13 → ip'.addrs j ≡ 0)
      × AllFreed (file_blocks ip v) v w
      × Agree v w
itrunc_lem ip v h at d u =
    let (w, e, freed) =
      free_all-AllFreed (file_blocks ip v) v v (record { sb_is = refl; rest = λ c a. refl }) h at d
        u in
    elim (emptied-SlotsEnd ip v h at) [
      | inl (e', _) ↦ absurd (cc (sym e ∙ e'))
      | inr (ip', w', e', r, h', g', c) ↦
          let same : w' ≡ w = ok-injective (sym e' ∙ e) in
          (
            record ip' { size = 0 },
            w,
            itrunc-emptied ip v
                ∙ ap (λ q. q >>= finish) r
                ∙ ap
                    (λ (x : Volume).
                      ok (record ip' { size = 0 }, iupdate (record ip' { size = 0 }) x))
                    same,
            refl,
            c.low,
            freed,
            subst (Agree v) same g',
          )
    ]
