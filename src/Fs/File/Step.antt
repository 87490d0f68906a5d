-- ===== src/Fs/File/Step.antt =====
-- One step of bmap on a labelled file: the new block gets its label, and no byte of the file changes.
use os_project.Prelude.{
  ℕ, suc, ◌+◌, ◌*◌, ◌≡◌, ◌≢◌, ◌⊎◌, inl, inr, ◌∙◌, refl, sym, ap, Bool, false, ◌==◌, if◌then◌else◌,
  arith, update, Bool-cases, List, [], ◌∷◌, length,
}
use mathlib.Core.Path.{subst, ap₂}
use os_project.Fs.{Volume, in_use}
use os_project.Fs.Bits.{word}
use os_project.Fs.Bmap.Held.{Held, Grew, Grew-refl, Grew-trans, Held-mono}
use os_project.Fs.Bmap.Entry.{free-Held, zero_word}
use os_project.Fs.Bmap.Walk.{address, address-zero, address-cons, address-nil, address-new}
use os_project.Fs.File.Labels.{Labels, span, At, IsLabelled, AreEntries}

-- A byte of the block `c`; 0 where there is no block.
abbrev pub content_at : Volume → ℕ → ℕ → ℕ
content_at v c o = if c == 0 then 0 else v.blocks c o

-- What a change of a volume keeps of a labelled file.
pub record Kept (ls ls' : Labels) (v v' : Volume) : Type 0 where
  pub labelled : IsLabelled ls' v'
  pub agree : (c : ℕ) → Held v c → (ls'.left c ≡ ls.left c) × (ls'.base c ≡ ls.base c)
  pub grew : Grew v v'
  pub blocks : (c : ℕ) → Held v c → ls.left c ≡ 0 → v'.blocks c ≡ v.blocks c
  pub contents :
      (is : List ℕ) (a b o : ℕ)
      → AreEntries is
      → (a ≢ 0 → At ls v (length is) b a)
      → content_at v' (address v' a is) o ≡ content_at v (address v a is) o

pub Kept-At :
    (ls ls' : Labels) (v v' : Volume) (l b a : ℕ)
    → Kept ls ls' v v'
    → At ls v l b a
    → At ls' v' l b a
Kept-At ls ls' v v' l b a k at = record {
  held = Held-mono v v' a k.grew.sb_is k.grew.used at.held;
  left = (k.agree a at.held).0 ∙ at.left;
  base = (k.agree a at.held).1 ∙ at.base;
}

pub Kept-refl : (ls : Labels) (v : Volume) → IsLabelled ls v → Kept ls ls v v
Kept-refl ls v h = record {
  labelled = h;
  agree = λ c held. (refl, refl);
  grew = Grew-refl v;
  blocks = λ c held l. refl;
  contents = λ is a b o small at. refl;
}

pub Kept-trans :
    (ls ls1 ls2 : Labels) (v v1 v2 : Volume)
    → Kept ls ls1 v v1
    → Kept ls1 ls2 v1 v2
    → Kept ls ls2 v v2
Kept-trans ls ls1 ls2 v v1 v2 k m = record {
  labelled = m.labelled;
  agree = λ c held.
      let held1 = Held-mono v v1 c k.grew.sb_is k.grew.used held in
      ((m.agree c held1).0 ∙ (k.agree c held).0, (m.agree c held1).1 ∙ (k.agree c held).1);
  grew = Grew-trans v v1 v2 k.grew m.grew;
  blocks = λ c held l.
      let held1 = Held-mono v v1 c k.grew.sb_is k.grew.used held in
      m.blocks c held1 ((k.agree c held).0 ∙ l) ∙ k.blocks c held l;
  contents = λ is a b o small at.
      m.contents is a b o small (λ n. Kept-At ls ls1 v v1 (length is) b a k (at n))
      ∙ k.contents is a b o small at;
}

pub content_at-zero : (v : Volume) (c o : ℕ) → c ≡ 0 → content_at v c o ≡ 0
content_at-zero v c o e = ground arith

-- A new block has no byte but 0, however one goes on from it.
pub content_at-new :
    (v : Volume) (b : ℕ) (is : List ℕ) (o : ℕ)
    → b ≢ 0
    → v.blocks b ≡ (λ _. 0)
    → content_at v (address v b is) o ≡ 0
content_at-new v b [] o n z =
    ap (λ c. content_at v c o) (address-nil v b) ∙ new (b == 0) (v.blocks b o) (ap (λ w. w o) z)
  where
    new : (t : Bool) (x : ℕ) → x ≡ 0 → (if t then 0 else x) ≡ 0
    new t x e = ground arith
content_at-new v b (i ∷ is) o n z = content_at-zero v _ o (address-new v b i is n z)

-- A volume `w` that has the new block `b`, entered as entry `i` of the table `t`. Where no block is
-- entered in a table, `t` is 0, which is never held.
pub record New (v w : Volume) (t i b : ℕ) : Type 0 where
  pub free : in_use v b ≡ false
  pub zeroed : w.blocks b ≡ (λ _. 0)
  pub held : Held w b
  pub back : (c : ℕ) → Held w c → b ≢ c → Held v c
  pub grew : Grew v w
  pub blocks : (c : ℕ) → Held v c → c ≢ t → w.blocks c ≡ v.blocks c
  pub words : (j : ℕ) → Held v t → j ≢ i → word (w.blocks t) j ≡ word (v.blocks t) j
  pub entry : Held v t → word (w.blocks t) i ≡ b

-- The labels with the one of the new block.
abbrev pub label : Labels → ℕ → ℕ → ℕ → Labels
label ls b l x = record { left = update ls.left b l; base = update ls.base b x }

pub label-other :
    (ls : Labels) (b l x c : ℕ)
    → b ≢ c
    → ((label ls b l x).left c ≡ ls.left c) × ((label ls b l x).base c ≡ ls.base c)
label-other ls b l x c d = (ground arith, ground arith)

pub label-same :
    (ls : Labels) (b l x : ℕ) → ((label ls b l x).left b ≡ l) × ((label ls b l x).base b ≡ x)
label-same ls b l x = (ground arith, ground arith)

At-eq :
    (ls : Labels) (v : Volume) (l l' b b' a a' : ℕ)
    → l ≡ l'
    → b ≡ b'
    → a ≡ a'
    → At ls v l b a
    → At ls v l' b' a'
At-eq ls v l l' b b' a a' el eb ea at = record {
  held = subst (Held v) ea at.held;
  left = ap ls.left (sym ea) ∙ at.left ∙ el;
  base = ap ls.base (sym ea) ∙ at.base ∙ eb;
}

module _ (ls : Labels) (v w : Volume) (t i b l x : ℕ) (new : New v w t i b)
    (fits : Held v t
      → (ls.left t ≡ suc l) × (x ≡ ls.base t + i * span l) × (word (v.blocks t) i ≡ 0))
    (lab : IsLabelled ls v) where
  -- An entry of a block that is held is the new block, or the entry that it was.
  entry_or_same :
      (s j : ℕ) → Held v s → ((s ≡ t) × (j ≡ i)) ⊎ (word (w.blocks s) j ≡ word (v.blocks s) j)
  entry_or_same s j hs = elim (Bool-cases (s == t)) [
    | inr off ↦ inr (ap (λ q. word q j) (new.blocks s hs (ground arith)))
    | inl at ↦ elim (Bool-cases (j == i)) [
      | inl at_i ↦ inl (ground arith, ground arith)
      | inr off_i ↦
          let e : t ≡ s = ground arith in
          inr (
            subst (λ q. word (w.blocks q) j ≡ word (v.blocks q) j) e
              (new.words j (subst (Held v) (sym e) hs) (ground arith)))
    ]
  ]

  old-At : (l' b' c : ℕ) → At ls v l' b' c → At (label ls b l x) w l' b' c
  old-At l' b' c at =
      let other = label-other ls b l x c (free-Held v b c new.free at.held) in
      record {
        held = Held-mono v w c new.grew.sb_is new.grew.used at.held;
        left = other.0 ∙ at.left;
        base = other.1 ∙ at.base;
      }

  new-IsLabelled : IsLabelled (label ls b l x) w
  new-IsLabelled s l' j hs ls_is small there = elim (Bool-cases (b == s)) [
    | inl at ↦
        let e : b ≡ s = ground arith in
        absurd (there (ap (λ q. word q j) (ap w.blocks (sym e) ∙ new.zeroed) ∙ zero_word j))
    | inr off ↦
        let other = label-other ls b l x s (ground arith) in
        let hv = new.back s hs (ground arith) in
        elim (entry_or_same s j hv) [
          | inl (s_is, j_is) ↦
              let (lt, x_is, _) = fits (subst (Held v) s_is hv) in
              let same_l : l' ≡ l = omega (arith, ls_is, other.0, ap ls.left s_is, lt) in
              At-eq (label ls b l x) w l l' x ((label ls b l x).base s + j * span l') b
                (word (w.blocks s) j) (sym same_l)
                (x_is
                  ∙ ap₂ (λ p q. p + q) (sym (other.1 ∙ ap ls.base s_is))
                      (ap₂ (λ p q. p * span q) (sym j_is) (sym same_l)))
                (sym
                  (ap₂ (λ p q. word (w.blocks p) q) s_is j_is ∙ new.entry (subst (Held v) s_is hv)))
                (record {
                  held = new.held;
                  left = (label-same ls b l x).0;
                  base = (label-same ls b l x).1;
                })
          | inr same ↦
              let at = lab s l' j hv (sym other.0 ∙ ls_is) small (λ z. there (same ∙ z)) in
              At-eq (label ls b l x) w l' l' (ls.base s + j * span l')
                ((label ls b l x).base s + j * span l') (word (v.blocks s) j) (word (w.blocks s) j)
                refl (ap (λ q. q + j * span l') (sym other.1)) (sym same)
                (old-At l' (ls.base s + j * span l') (word (v.blocks s) j) at)
        ]
  ]

  new_blocks : (c : ℕ) → Held v c → ls.left c ≡ 0 → w.blocks c ≡ v.blocks c
  new_blocks c hc z =
      new.blocks c hc (λ e. omega (arith, (fits (subst (Held v) e hc)).0, ap ls.left e, z))

  new_contents :
      (is : List ℕ) (a c o : ℕ)
      → AreEntries is
      → (a ≢ 0 → At ls v (length is) c a)
      → content_at w (address w a is) o ≡ content_at v (address v a is) o
  new_contents [] a c o small at =
      ap (λ q. content_at w q o) (address-nil w a)
      ∙ at_end
      ∙ sym (ap (λ q. content_at v q o) (address-nil v a))
    where
      at_end : content_at w a o ≡ content_at v a o
      at_end = elim (Bool-cases (a == 0)) [
        | inl none_there ↦ rw none_there refl
        | inr there ↦
            rw there
              (ap (λ q. q o) (new_blocks a (at (ground arith)).held (at (ground arith)).left))
      ]
  new_contents (j ∷ js) a c o small at = elim (Bool-cases (a == 0)) [
    | inl none_there ↦
        let z : a ≡ 0 = ground arith in
        content_at-zero w (address w a (j ∷ js)) o (address-zero w a (j ∷ js) z)
        ∙ sym (content_at-zero v (address v a (j ∷ js)) o (address-zero v a (j ∷ js) z))
    | inr there ↦
        let n : a ≢ 0 = ground arith in
        ap (λ q. content_at w q o) (address-cons w a j js n)
        ∙ elim (entry_or_same a j (at n).held) [
          | inl (a_is, j_is) ↦
              let ht = subst (Held v) a_is (at n).held in
              let none_yet : word (v.blocks a) j ≡ 0 =
                ap₂ (λ p q. word (v.blocks p) q) a_is j_is ∙ (fits ht).2 in
              ap (λ q. content_at w (address w q js) o)
                (ap₂ (λ p q. word (w.blocks p) q) a_is j_is ∙ new.entry ht)
              ∙ content_at-new w b js o (λ z. omega (arith, new.held.high)) new.zeroed
              ∙ sym (
                  content_at-zero v (address v (word (v.blocks a) j) js) o
                    (address-zero v (word (v.blocks a) j) js none_yet))
          | inr same ↦
              ap (λ q. content_at w (address w q js) o) same
              ∙ new_contents js (word (v.blocks a) j) (ls.base a + j * span (length js)) o small.1
                  (λ m. lab a (length js) j (at n).held (at n).left small.0 m)
        ]
        ∙ sym (ap (λ q. content_at v q o) (address-cons v a j js n))
  ]

  pub new-Kept : Kept ls (label ls b l x) v w
  new-Kept = record {
    labelled = new-IsLabelled;
    agree = λ c hc. label-other ls b l x c (free-Held v b c new.free hc);
    grew = new.grew;
    blocks = new_blocks;
    contents = new_contents;
  }
