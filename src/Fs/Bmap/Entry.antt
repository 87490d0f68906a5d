-- ===== src/Fs/Bmap/Entry.antt =====
-- One step of bmap: the entry of a table, or a new block for it.
use os_project.Prelude.{
  ℕ, ◌<◌, ◌≡◌, ◌≢◌, ◌⊎◌, inl, inr, ◌∙◌, refl, sym, ap, Bool, true, false, ◌==◌, if◌then◌else◌,
  arith, Bool-cases, List, [], ◌∷◌,
}
use mathlib.Core.Path.{subst}
use native.Mathlib.Decide.{dec_lt}
use os_project.Fs.{SuperBlock, Volume, put_block, in_use, map_block}
use os_project.Fs.Bits.{word}
use os_project.Fs.Free.{IsMapBlock, IsVolume, map_block-IsMapBlock}
use os_project.Fs.Alloc.{Allocated, Marked-IsVolume}
use os_project.Fs.Bmap.Held.{Held, HeldPath, HeldPath-zero, Grew, Held-mono}

in_use-put_block :
    (t c : ℕ) (w : ℕ → ℕ) (v : Volume) → t ≢ map_block c v → in_use (put_block t w v) c ≡ in_use v c
unfolding in_use
in_use-put_block t c w v h = let e : (t == map_block c v) ≡ false = ground arith in rw e refl

pub put_block-in_use :
    (t : ℕ) (w : ℕ → ℕ) (v : Volume)
    → Held v t
    → (c : ℕ) → c < v.sb.size
    → in_use (put_block t w v) c ≡ in_use v c
put_block-in_use t w v held c l =
    in_use-put_block t c w v
      (λ e. held.away (subst (IsMapBlock v) (sym e) (map_block-IsMapBlock v c l)))

pub put_block-IsVolume :
    (t : ℕ) (w : ℕ → ℕ) (v : Volume) → IsVolume v → Held v t → IsVolume (put_block t w v)
put_block-IsVolume t w v h held =
    Marked-IsVolume true t v (put_block t w v) (λ c. t ≢ c) h
      (record {
        map = λ c l. put_block-in_use t w v held c l ∙ in_use-set t c held;
        rest = λ c away other. ground arith;
        sb_is = refl;
        trans_is = refl;
      })
      (λ e. omega (arith, held.high)) (λ c l used _. put_block-in_use t w v held c l ∙ used)
  where
    in_use-set : (t c : ℕ) → Held v t → in_use v c ≡ (if t == c then true else in_use v c)
    in_use-set t c held = elim (Bool-cases (t == c)) [
      | inl at ↦ let e : t ≡ c = ground arith in rw at (ap (in_use v) (sym e) ∙ held.used)
      | inr other ↦ rw other refl
    ]

-- A block that is free is none of those that are held.
pub free-Held : (v : Volume) (b c : ℕ) → in_use v b ≡ false → Held v c → b ≢ c
free-Held v b c free held e = absurd (cc (sym held.used ∙ ap (in_use v) (sym e) ∙ free))

low_used : (v : Volume) (b : ℕ) → IsVolume v → in_use v b ≡ false → 1 < b
low_used v b h free = elim (dec_lt 1 b) [
  | yes l ↦ l
  | no n ↦ elim (dec_lt 0 b) [
    | yes one ↦ absurd (cc (sym h.super.1 ∙ ap (in_use v) {x = 1} {y = b} (omega arith) ∙ free))
    | no zero_is ↦ absurd (cc (sym h.boot.1 ∙ ap (in_use v) {x = 0} {y = b} (omega arith) ∙ free))
  ]
]

if_at : (b : ℕ) (u : Bool) → (if b == b then true else u) ≡ true
if_at b u = ground arith

if_used : (t u : Bool) → u ≡ true → (if t then true else u) ≡ true
if_used t u e = ground arith

-- What balloc returns is held from then on.
pub Allocated-Held : (v v1 : Volume) (b : ℕ) → IsVolume v → Allocated v b v1 → Held v1 b
Allocated-Held v v1 b h a =
    let size_is = ap (λ (s : SuperBlock). s.size) a.marked.sb_is in
    let start_is = ap (λ (s : SuperBlock). s.bmapstart) a.marked.sb_is in
    record {
      high = low_used v b h a.was_free;
      inside = omega (arith, size_is, a.inside);
      used = a.marked.map b a.inside ∙ if_at b (in_use v b);
      away = λ at.
          let used =
            (h.maps b (omega (arith, start_is, at.0), omega (arith, start_is, size_is, at.1))).1 in
          absurd (cc (sym used ∙ a.was_free));
    }

-- A path is held still where each entry is as it was or begins a path that is held.
pub HeldPath-mono :
    (v v' : Volume)
    → v'.sb ≡ v.sb
    → ((c : ℕ) → c < v.sb.size → in_use v c ≡ true → in_use v' c ≡ true)
    → ((t i : ℕ)
        → Held v t
        → (word (v'.blocks t) i ≡ word (v.blocks t) i)
          ⊎ ((is : List ℕ) → HeldPath v' (word (v'.blocks t) i) is))
    → (a : ℕ) (is : List ℕ) → HeldPath v a is
    → HeldPath v' a is
HeldPath-mono v v' e used child a [] h = λ n. Held-mono v v' a e used (h n)
HeldPath-mono v v' e used child a (i ∷ is) h = λ n. (
  Held-mono v v' a e used (h n).0,
  elim (child a i (h n).0) [
    | inl same ↦
        HeldPath-mono v v' e used child (word (v'.blocks a) i) is
          (subst (λ c. HeldPath v c is) (sym same) (h n).1)
    | inr new ↦ new is
  ],
)

pub zero_word : (i : ℕ) → word (λ _. 0) i ≡ 0
unfolding word
zero_word i = refl

-- A new block has no entries.
pub new-HeldPath :
    (v' : Volume) (b : ℕ) → Held v' b → v'.blocks b ≡ (λ _. 0) → (is : List ℕ) → HeldPath v' b is
new-HeldPath v' b held z [] = λ n. held
new-HeldPath v' b held z (i ∷ is) =
    λ n. (held, HeldPath-zero v' is (word (v'.blocks b) i) (ap (λ w. word w i) z ∙ zero_word i))

Allocated-used :
    (v v1 : Volume) (b c : ℕ)
    → Allocated v b v1
    → c < v.sb.size
    → in_use v c ≡ true
    → in_use v1 c ≡ true
Allocated-used v v1 b c a l u = a.marked.map c l ∙ if_used (b == c) (in_use v c) u

pub Allocated-same :
    (v v1 : Volume) (b t : ℕ) → Allocated v b v1 → Held v t → v1.blocks t ≡ v.blocks t
Allocated-same v v1 b t a held = a.marked.rest t held.away (free-Held v b t a.was_free held)

-- balloc lets a volume grow.
pub Allocated-Grew : (v v1 : Volume) (b : ℕ) → Allocated v b v1 → Grew v v1
Allocated-Grew v v1 b a = record {
  sb_is = a.marked.sb_is;
  trans_is = a.marked.trans_is;
  used = λ c l u. Allocated-used v v1 b c a l u;
  kept = λ t i held n. ap (λ w. word w i) (Allocated-same v v1 b t a held);
  paths =
      HeldPath-mono v v1 a.marked.sb_is (λ c l u. Allocated-used v v1 b c a l u)
        (λ t i held. inl (ap (λ w. word w i) (Allocated-same v v1 b t a held)));
}
