-- ===== src/Fs/File/Labels.antt =====
-- The blocks of a file labelled by their place: `left` levels of tables lie below a block, and `base` is
-- the first block number behind it. Blocks of other use have no level below them.
use os_project.Prelude.{
  ℕ, zero, suc, ◌+◌, ◌-◌, ◌*◌, ◌<◌, ◌≡◌, ◌≢◌, ◌∙◌, refl, sym, ap, ltb, if◌then◌else◌, arith, List,
  [], ◌∷◌, All, length,
}
use mathlib.Core.Path.{subst}
use native.Mathlib.Decide.{dec_lt}
use os_project.Fs.{Volume}
use os_project.Fs.Bits.{word}
use os_project.Fs.Bmap.{Inode, max_file}
use os_project.Fs.Bmap.Held.{Held, HeldPath}
use os_project.Fs.Bmap.Levels.{slot_of, entries_of, levels}
use os_project.Fs.Bmap.Walk.{address, address-zero, address-cons}
use os_project.Fs.Bmap.Address.{address_of, IsFile}

pub record Labels : Type 0 where
  pub left : ℕ → ℕ
  pub base : ℕ → ℕ

-- The block numbers behind one entry with `l` levels below it.
abbrev pub span : ℕ → ℕ
span zero = 1
span (suc l) = 128 * span l

-- A block number `a` of 0, or a block that is held, with this label.
pub record At (ls : Labels) (v : Volume) (l b a : ℕ) : Type 0 where
  pub held : Held v a
  pub left : ls.left a ≡ l
  pub base : ls.base a ≡ b

-- Each entry of a table has the label that its place gives it.
abbrev pub IsLabelled : Labels → Volume → Type 0
IsLabelled ls v =
    (t l i : ℕ)
    → Held v t
    → ls.left t ≡ suc l
    → i < 128
    → word (v.blocks t) i ≢ 0
    → At ls v l (ls.base t + i * span l) (word (v.blocks t) i)

-- The level and the first block number of a slot of the inode.
abbrev pub level : ℕ → ℕ
level s = if ltb s 10 then 0 else s - 9

abbrev pub first : ℕ → ℕ
first s = if ltb s 11 then s else if ltb s 12 then 138 else 16522

pub record IsTree (ls : Labels) (ip : Inode) (v : Volume) : Type 0 where
  pub roots : (s : ℕ) → s < 13 → ip.addrs s ≢ 0 → At ls v (level s) (first s) (ip.addrs s)
  pub entries : IsLabelled ls v

-- The block number at the end of a walk.
abbrev pub number : ℕ → List ℕ → ℕ
number b [] = b
number b (i ∷ is) = number (b + i * span (length is)) is

abbrev pub AreEntries : List ℕ → Type 0
AreEntries = All (λ i. i < 128)

-- The block at the end of a walk has the label of its number.
pub address-At :
    (ls : Labels) (v : Volume) (is : List ℕ) (a b : ℕ)
    → IsLabelled ls v
    → AreEntries is
    → At ls v (length is) b a
    → address v a is ≢ 0
    → At ls v 0 (number b is) (address v a is)
unfolding address
address-At ls v [] a b h small at n = at
address-At ls v (i ∷ is) a b h small at n =
    let na : a ≢ 0 = λ e. omega (arith, at.held.high) in
    let step = address-cons v a i is na in
    let there : word (v.blocks a) i ≢ 0 =
      λ e. n (step ∙ address-zero v (word (v.blocks a) i) is e) in
    let child = h a (length is) i at.held at.left small.0 there in
    let child' : At ls v (length is) (b + i * span (length is)) (word (v.blocks a) i) = record {
      held = child.held;
      left = child.left;
      base = child.base ∙ ap (λ x. x + i * span (length is)) at.base;
    } in
    subst (At ls v 0 (number b (i ∷ is))) (sym step) (
      address-At ls v is (word (v.blocks a) i) (b + i * span (length is)) h small.1 child'
        (λ e. n (step ∙ e)))

-- A slot and entries that lead to the block number `n`.
abbrev pub Leads : ℕ → ℕ → List ℕ → Type 0
Leads n s is = (s < 13) × (length is ≡ level s) × AreEntries is × (number (first s) is ≡ n)

Leads-eq : (n s s' : ℕ) (is is' : List ℕ) → (s ≡ s') × (is ≡ is') → Leads n s' is' → Leads n s is
Leads-eq n s s' is is' e h = rw (e.0, e.1) h

direct : (n : ℕ) → n < 10 → Leads n n []
direct n l = (omega arith, ground arith, tt, ground arith)

pub Leads-places : (n : ℕ) → n < max_file → Leads n (slot_of n) (entries_of n)
Leads-places n l =
    let (one, two, three, zero_) = levels n in
    elim (dec_lt n 10) [
      | yes d ↦ Leads-eq n _ _ _ _ (zero_ d) (direct n d)
      | no n0 ↦ elim (dec_lt n 138) [
        | yes d ↦
            Leads-eq n _ _ _ _ (one (omega arith) d)
              (omega arith, refl, (omega arith, tt), omega arith)
        | no n1 ↦ elim (dec_lt n 16522) [
          | yes d ↦
              Leads-eq n _ _ _ _ (two (omega arith) d)
                (omega arith, refl, (omega arith, (omega arith, tt)), omega arith)
          | no n2 ↦
              Leads-eq n _ _ _ _ (three (omega arith))
                (omega arith, refl, (omega arith, (omega arith, (omega arith, tt))), omega arith)
        ]
      ]
    ]

-- The label of a block of the file.
pub address_of-At :
    (ls : Labels) (ip : Inode) (v : Volume) (n : ℕ)
    → IsTree ls ip v
    → n < max_file
    → address_of ip v n ≢ 0
    → At ls v 0 n (address_of ip v n)
address_of-At ls ip v n h l there =
    let (s, len, small, num) = Leads-places n l in
    let root : ip.addrs (slot_of n) ≢ 0 =
      λ e. there (address-zero v (ip.addrs (slot_of n)) (entries_of n) e) in
    let at = h.roots (slot_of n) s root in
    let at' : At ls v (length (entries_of n)) (first (slot_of n)) (ip.addrs (slot_of n)) = record {
      held = at.held;
      left = at.left ∙ sym len;
      base = at.base;
    } in
    let end =
      address-At ls v (entries_of n) (ip.addrs (slot_of n)) (first (slot_of n)) h.entries small at'
        there in
    record { held = end.held; left = end.left; base = end.base ∙ num }

-- No two block numbers have the same block.
pub address_of-injective :
    (ls : Labels) (ip : Inode) (v : Volume) (n m : ℕ)
    → IsTree ls ip v
    → n < max_file
    → m < max_file
    → address_of ip v n ≢ 0
    → address_of ip v n ≡ address_of ip v m
    → n ≡ m
address_of-injective ls ip v n m h ln lm there e =
    sym (address_of-At ls ip v n h ln there).base
    ∙ ap ls.base e
    ∙ (address_of-At ls ip v m h lm (λ z. there (e ∙ z))).base

walk-HeldPath :
    (ls : Labels) (v : Volume) (is : List ℕ) (a b : ℕ)
    → IsLabelled ls v
    → AreEntries is
    → (a ≢ 0 → At ls v (length is) b a)
    → HeldPath v a is
walk-HeldPath ls v [] a b h small at = λ n. (at n).held
walk-HeldPath ls v (i ∷ is) a b h small at = λ n. (
  (at n).held,
  walk-HeldPath ls v is (word (v.blocks a) i) (ls.base a + i * span (length is)) h small.1
      (λ there. h a (length is) i (at n).held (at n).left small.0 there),
)

pub IsTree-IsFile : (ls : Labels) (ip : Inode) (v : Volume) → IsTree ls ip v → IsFile ip v
IsTree-IsFile ls ip v h n l =
    let (s, len, small, num) = Leads-places n l in
    walk-HeldPath ls v (entries_of n) (ip.addrs (slot_of n)) (first (slot_of n)) h.entries small
      (λ root.
        let at = h.roots (slot_of n) s root in
        record { held = at.held; left = at.left ∙ sym len; base = at.base })
