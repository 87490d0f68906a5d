-- ===== src/Fs/Bmap/Held.antt =====
-- The blocks that a file holds, and a volume that has grown.
use os_project.Prelude.{ℕ, ◌<◌, ◌≡◌, ◌≢◌, ◌∙◌, refl, sym, ap, true, arith, List, [], ◌∷◌}
use mathlib.Core.Path.{subst}
use os_project.Fs.{SuperBlock, Volume, in_use}
use os_project.Fs.Bits.{word}
use os_project.Fs.Free.{IsMapBlock}

-- A block of contents that is in use.
pub record Held (v : Volume) (c : ℕ) : Type 0 where
  pub high : 1 < c
  pub inside : c < v.sb.size
  pub used : in_use v c ≡ true
  pub away : ¬ (IsMapBlock v c)

-- The blocks from `a` on along the indices are held, as far as there are any.
abbrev pub HeldPath : Volume → ℕ → List ℕ → Type 0
HeldPath v a [] = a ≢ 0 → Held v a
HeldPath v a (i ∷ is) = a ≢ 0 → Held v a × HeldPath v (word (v.blocks a) i) is

pub HeldPath-zero : (v : Volume) (is : List ℕ) (a : ℕ) → a ≡ 0 → HeldPath v a is
HeldPath-zero v [] a e = λ n. absurd (n e)
HeldPath-zero v (i ∷ is) a e = λ n. absurd (n e)

pub HeldPath-head : (v : Volume) (is : List ℕ) (a : ℕ) → HeldPath v a is → a ≢ 0 → Held v a
HeldPath-head v [] a h n = h n
HeldPath-head v (i ∷ is) a h n = (h n).0

-- More blocks are in use, and no word of a held block that was not 0 has changed.
pub record Grew (v v' : Volume) : Type 0 where
  pub sb_is : v'.sb ≡ v.sb
  pub trans_is : v'.outstanding ≡ v.outstanding
  pub used : (c : ℕ) → c < v.sb.size → in_use v c ≡ true → in_use v' c ≡ true
  pub kept :
      (t i : ℕ) → Held v t → word (v.blocks t) i ≢ 0 → word (v'.blocks t) i ≡ word (v.blocks t) i
  pub paths : (a : ℕ) (is : List ℕ) → HeldPath v a is → HeldPath v' a is

pub Held-mono :
    (v v' : Volume) (c : ℕ)
    → v'.sb ≡ v.sb
    → ((c : ℕ) → c < v.sb.size → in_use v c ≡ true → in_use v' c ≡ true)
    → Held v c
    → Held v' c
Held-mono v v' c e used h =
    let size_is = ap (λ (s : SuperBlock). s.size) e in
    let start_is = ap (λ (s : SuperBlock). s.bmapstart) e in
    record {
      high = h.high;
      inside = omega (arith, size_is, h.inside);
      used = used c h.inside h.used;
      away = λ at. h.away (omega (arith, start_is, at.0), omega (arith, start_is, size_is, at.1));
    }

pub Grew-refl : (v : Volume) → Grew v v
Grew-refl v = record {
  sb_is = refl;
  trans_is = refl;
  used = λ c l u. u;
  kept = λ t i h n. refl;
  paths = λ a is h. h;
}

pub Grew-trans : (u v w : Volume) → Grew u v → Grew v w → Grew u w
Grew-trans u v w g h = record {
  sb_is = h.sb_is ∙ g.sb_is;
  trans_is = h.trans_is ∙ g.trans_is;
  used = λ c l e. h.used c (subst (λ (s : SuperBlock). c < s.size) (sym g.sb_is) l) (g.used c l e);
  kept = λ t i held n.
      h.kept t i (Held-mono u v t g.sb_is g.used held) (λ z. n (sym (g.kept t i held n) ∙ z))
      ∙ g.kept t i held n;
  paths = λ a is p. h.paths a is (g.paths a is p);
}
