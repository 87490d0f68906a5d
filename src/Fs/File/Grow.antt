-- ===== src/Fs/File/Grow.antt =====
-- bmap on a labelled file: it stays labelled, and no byte of it changes.
use os_project.Prelude.{
  ℕ, suc, ◌+◌, ◌*◌, ◌<◌, ◌≡◌, ◌≢◌, ◌⊎◌, inl, inr, ◌∙◌, refl, sym, ap, Bool, true, ◌==◌,
  if◌then◌else◌, arith, Bool-cases, List, [], ◌∷◌, length,
}
use mathlib.Core.Path.{subst}
use os_project.Prelude.Outcome.{Outcome, ok, panic}
use os_project.Fs.{SuperBlock, Volume, in_use}
use os_project.Fs.Bits.{word, set_word}
use os_project.Fs.Free.{IsVolume}
use os_project.Fs.Alloc.{IsStuck, Allocated, balloc_lem}
use os_project.Fs.Bmap.{entry_block}
use os_project.Fs.Bmap.Held.{Held}
use os_project.Fs.Bmap.Entry.{put_block-in_use, Allocated-same, Allocated-Grew, Allocated-Held}
use os_project.Fs.Bmap.Fill.{
  entered, entered-IsVolume, word-entered, entered_other, entered-Held, entered_empty, entered-Grew,
  held1,
}
use os_project.Fs.Bmap.Walk.{walk}
use os_project.Fs.File.Labels.{Labels, span, At, IsLabelled, AreEntries, number}
use os_project.Fs.File.Step.{Kept, Kept-refl, Kept-trans, New, label, label-same, new-Kept}

back_from :
    (v v1 w : Volume) (b c : ℕ)
    → Allocated v b v1
    → w.sb ≡ v1.sb
    → (c < v1.sb.size → in_use w c ≡ in_use v1 c)
    → Held w c
    → b ≢ c
    → Held v c
back_from v v1 w b c a e same h d =
    let e' = e ∙ a.marked.sb_is in
    let size_is = ap (λ (s : SuperBlock). s.size) e' in
    let size1 = ap (λ (s : SuperBlock). s.size) e in
    let start_is = ap (λ (s : SuperBlock). s.bmapstart) e' in
    let inside : c < v.sb.size = omega (arith, size_is, h.inside) in
    record {
      high = h.high;
      inside = inside;
      used =
          if_other b c (in_use v c) d
            (sym (a.marked.map c inside) ∙ sym (same (omega (arith, size1, h.inside))) ∙ h.used);
      away = λ at. h.away (omega (arith, start_is, at.0), omega (arith, start_is, size_is, at.1));
    }
  where
    if_other : (b c : ℕ) (u : Bool) → b ≢ c → (if b == c then true else u) ≡ true → u ≡ true
    if_other b c u d e = ground arith

entered-New :
    (v v1 : Volume) (t i b : ℕ)
    → IsVolume v
    → Held v t
    → Allocated v b v1
    → word (v.blocks t) i ≡ 0
    → New v (entered t i b v1) t i b
entered-New v v1 t i b h held a z = record {
  free = a.was_free;
  zeroed = entered_empty v v1 t i b h held a;
  held = entered-Held v v1 t i b h held a;
  back = λ c hc d.
      back_from v v1 (entered t i b v1) b c a refl
        (λ l. put_block-in_use t (set_word (v1.blocks t) i b) v1 (held1 v v1 t i b h held a) c l) hc
        d;
  grew = entered-Grew v v1 t i b h held a z;
  blocks = λ c hc d. away c d ∙ Allocated-same v v1 b c a hc;
  words = λ j ht d.
      entered_other v v1 t i b h held a t j (inr d)
      ∙ ap (λ q. word q j) (Allocated-same v v1 b t a ht);
  entry = λ ht. word-entered v v1 t i b h held a;
}
  where
    away : (c : ℕ) → c ≢ t → (entered t i b v1).blocks c ≡ v1.blocks c
    away c d = ground arith

pub Allocated-New : (v v1 : Volume) (b : ℕ) → IsVolume v → Allocated v b v1 → New v v1 0 0 b
Allocated-New v v1 b h a = record {
  free = a.was_free;
  zeroed = a.zeroed;
  held = Allocated-Held v v1 b h a;
  back = λ c hc d. back_from v v1 v1 b c a refl (λ l. refl) hc d;
  grew = Allocated-Grew v v1 b a;
  blocks = λ c hc d. Allocated-same v v1 b c a hc;
  words = λ j ht d. absurd (omega (arith, ht.high));
  entry = λ ht. absurd (omega (arith, ht.high));
}

-- A volume that grows from this one until no block is free, or where no call is in a transaction.
abbrev pub Fills : Volume → Type 0
Fills v =
    (w : Volume) × (w.sb ≡ v.sb)
    × (w.outstanding ≡ v.outstanding)
    × ((c : ℕ) → c < v.sb.size → in_use v c ≡ true → in_use w c ≡ true)
    × IsStuck w

pub Fills-before :
    (v v1 : Volume)
    → v1.sb ≡ v.sb
    → v1.outstanding ≡ v.outstanding
    → ((c : ℕ) → c < v.sb.size → in_use v c ≡ true → in_use v1 c ≡ true)
    → Fills v1
    → Fills v
Fills-before v v1 e t used (w, e1, t1, used1, full) = (
  w,
  e1 ∙ e,
  t1 ∙ t,
  λ c l u. used1 c (subst (λ (s : SuperBlock). c < s.size) (sym e) l) (used c l u),
  full,
)

pub Fills-full : (v : Volume) → IsStuck v → Fills v
Fills-full v full = (v, refl, refl, λ c l u. u, full)

-- A volume that grows from this one until no block is free.
abbrev pub FillsUp : Volume → Type 0
FillsUp v =
    (w : Volume) × (w.sb ≡ v.sb)
    × ((c : ℕ) → c < v.sb.size → in_use v c ≡ true → in_use w c ≡ true)
    × ((c : ℕ) → c < w.sb.size → in_use w c ≡ true)

-- In a transaction only a full volume is left.
pub Fills-FillsUp : (v : Volume) → 0 < v.outstanding → Fills v → FillsUp v
Fills-FillsUp v busy (w, e, t, used, inl full) = (w, e, used, full)
Fills-FillsUp v busy (w, e, t, used, inr idle) = absurd (omega arith)

-- The end of a step of bmap for the block number `n`.
abbrev pub StepEnds : Labels → Volume → ℕ → ℕ → Outcome (Volume × ℕ) → Type 0
StepEnds ls v l n r =
    ((r ≡ panic) × Fills v)
    ⊎ ((v' : Volume) × (c : ℕ) × (ls' : Labels) × (r ≡ ok (v', c))
        × IsVolume v'
        × Kept ls ls' v v'
        × At ls' v' l n c)

entry_block-StepEnds :
    (ls : Labels) (v : Volume) (t l i n : ℕ)
    → IsVolume v
    → IsLabelled ls v
    → At ls v (suc l) n t
    → i < 128
    → StepEnds ls v l (n + i * span l) (entry_block t i v)
unfolding entry_block
entry_block-StepEnds ls v t l i n h lab at small = elim (Bool-cases (word (v.blocks t) i == 0)) [
  | inr there ↦
      let child = lab t l i at.held at.left small (ground arith) in
      inr (
        v,
        word (v.blocks t) i,
        ls,
        rw (there, entry_block) refl,
        h,
        Kept-refl ls v lab,
        record {
          held = child.held;
          left = child.left;
          base = child.base ∙ ap (λ q. q + i * span l) at.base;
        },
      )
  | inl none_yet ↦
      let z : word (v.blocks t) i ≡ 0 = ground arith in
      elim (balloc_lem v h) [
        | inl (full, e) ↦ inl (rw (none_yet, e, entry_block) refl, Fills-full v full)
        | inr (v1, b, e, a) ↦
            let x = ls.base t + i * span l in
            let new = entered-New v v1 t i b h at.held a z in
            inr (
              entered t i b v1,
              b,
              label ls b l x,
              rw (none_yet, e, entry_block) refl,
              entered-IsVolume v v1 t i b h at.held a,
              new-Kept ls v (entered t i b v1) t i b l x new (λ ht. (at.left, refl, z)) lab,
              record {
                held = new.held;
                left = (label-same ls b l x).0;
                base = (label-same ls b l x).1 ∙ ap (λ q. q + i * span l) at.base;
              },
            )
      ]
]

pub walk-StepEnds :
    (is : List ℕ) (ls : Labels) (v : Volume) (a n : ℕ)
    → IsVolume v
    → IsLabelled ls v
    → At ls v (length is) n a
    → AreEntries is
    → StepEnds ls v 0 (number n is) (walk a is v)
unfolding walk
walk-StepEnds [] ls v a n h lab at small = inr (v, a, ls, refl, h, Kept-refl ls v lab, at)
walk-StepEnds (i ∷ is) ls v a n h lab at small =
    elim (entry_block-StepEnds ls v a (length is) i n h lab at small.0) [
      | inl (e, full) ↦ inl (rw e refl, full)
      | inr (v1, c, ls1, e, h1, k, at1) ↦
          elim (walk-StepEnds is ls1 v1 c (n + i * span (length is)) h1 k.labelled at1 small.1) [
            | inl (e', full) ↦
                inl
                  (rw (e, e') refl, Fills-before v v1 k.grew.sb_is k.grew.trans_is k.grew.used full)
            | inr (v2, c2, ls2, e', h2, k2, at2) ↦
                inr (v2, c2, ls2, rw (e, e') refl, h2, Kept-trans ls ls1 ls2 v v1 v2 k k2, at2)
          ]
    ]
