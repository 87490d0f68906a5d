-- ===== src/Fs/Bmap/Fill.antt =====
-- A new block that is entered in a table of the file.
use os_project.Prelude.{
  ℕ, ◌^◌, ◌<◌, ◌≡◌, ◌≢◌, ◌⊎◌, inl, inr, ◌∙◌, refl, sym, ap, true, false, ◌==◌, arith, Bool-cases,
  List,
}
use mathlib.Core.Path.{subst}
use os_project.Prelude.Outcome.{ok, panic}
use os_project.Fs.{Volume, put_block, in_use}
use os_project.Fs.Bits.{word, set_word, word-set_word, word-set_other}
use os_project.Fs.Free.{IsVolume}
use os_project.Fs.Alloc.{IsStuck, Allocated, balloc_lem}
use os_project.Fs.Bmap.{entry_block}
use os_project.Fs.Bmap.Held.{Held, HeldPath, Grew, Grew-refl, Grew-trans, Held-mono}
use os_project.Fs.Bmap.Entry.{
  put_block-IsVolume, put_block-in_use, free-Held, Allocated-Held, HeldPath-mono, new-HeldPath,
  Allocated-same, Allocated-Grew,
}

-- The volume where the block `b` of `v1` is the entry `i` of `t`.
abbrev pub entered : ℕ → ℕ → ℕ → Volume → Volume
entered t i b v1 = put_block t (set_word (v1.blocks t) i b) v1

module _ (v v1 : Volume) (t i b : ℕ) (h : IsVolume v) (held : Held v t) (a : Allocated v b v1) where
  pub held1 : Held v1 t
  held1 = Held-mono v v1 t a.marked.sb_is (Allocated-Grew v v1 b a).used held

  pub entered-IsVolume : IsVolume (entered t i b v1)
  entered-IsVolume = put_block-IsVolume t (set_word (v1.blocks t) i b) v1 a.volume held1

  entered_used : (c : ℕ) → c < v1.sb.size → in_use v1 c ≡ true → in_use (entered t i b v1) c ≡ true
  entered_used c l u = put_block-in_use t (set_word (v1.blocks t) i b) v1 held1 c l ∙ u

  small : b < 2 ^ 32
  small = omega (arith, a.inside, h.small)

  -- The entry is the new block, and the other entries of the table are as they were.
  pub word-entered : word ((entered t i b v1).blocks t) i ≡ b
  word-entered = ap (λ w. word w i) at ∙ word-set_word (v1.blocks t) i b small
    where
      at : (entered t i b v1).blocks t ≡ set_word (v1.blocks t) i b
      at = ground arith

  pub entered_other :
      (s j : ℕ) → (s ≢ t) ⊎ (j ≢ i) → word ((entered t i b v1).blocks s) j ≡ word (v1.blocks s) j
  entered_other s j (inl d) = let e : (t == s) ≡ false = ground arith in rw e refl
  entered_other s j (inr d) = elim (Bool-cases (t == s)) [
    | inl at ↦
        let e : t ≡ s = ground arith in
        rw at
          (word-set_other (v1.blocks t) i j b (λ q. d (sym q)) ∙ ap (λ r. word (v1.blocks r) j) e)
    | inr off ↦ rw off refl
  ]

  pub entered-Held : Held (entered t i b v1) b
  entered-Held = Held-mono v1 (entered t i b v1) b refl entered_used (Allocated-Held v v1 b h a)

  pub entered_empty : (entered t i b v1).blocks b ≡ (λ _. 0)
  entered_empty =
      let e : (t == b) ≡ false = ground (arith, free-Held v b t a.was_free held) in rw e a.zeroed

  pub entered-Grew : word (v.blocks t) i ≡ 0 → Grew v (entered t i b v1)
  entered-Grew none_yet = Grew-trans v v1 (entered t i b v1) (Allocated-Grew v v1 b a) (record {
    sb_is = refl;
    trans_is = refl;
    used = entered_used;
    kept = λ s j hs n. entered_other s j (differs s j n);
    paths = HeldPath-mono v1 (entered t i b v1) refl entered_used child;
  })
    where
      was : word (v1.blocks t) i ≡ 0
      was = ap (λ w. word w i) (Allocated-same v v1 b t a held) ∙ none_yet

      differs : (s j : ℕ) → word (v1.blocks s) j ≢ 0 → (s ≢ t) ⊎ (j ≢ i)
      differs s j n = elim (Bool-cases (s == t)) [
        | inl same ↦ inr (λ q. n (
            ap (λ r. word (v1.blocks r) j) {x = s} {y = t} (ground arith)
            ∙ ap (word (v1.blocks t)) q
            ∙ was))
        | inr other ↦ inl (ground arith)
      ]

      child :
          (s j : ℕ)
          → Held v1 s
          → (word ((entered t i b v1).blocks s) j ≡ word (v1.blocks s) j)
            ⊎ ((is : List ℕ)
                → HeldPath (entered t i b v1) (word ((entered t i b v1).blocks s) j) is)
      child s j hs = elim (Bool-cases (s == t)) [
        | inl same ↦ elim (Bool-cases (j == i)) [
          | inl at ↦
              let e : word ((entered t i b v1).blocks s) j ≡ b =
                ap (λ r. word ((entered t i b v1).blocks r) j) {x = s} {y = t} (ground arith)
                ∙ ap (word ((entered t i b v1).blocks t)) {x = j} {y = i} (ground arith)
                ∙ word-entered in
              inr (λ is.
                subst (λ c. HeldPath (entered t i b v1) c is) (sym e)
                  (new-HeldPath (entered t i b v1) b entered-Held entered_empty is))
          | inr off ↦ inl (entered_other s j (inr (ground arith)))
        ]
        | inr other ↦ inl (entered_other s j (inl (ground arith)))
      ]

-- What a step makes of a volume where it returns `b` for an entry `old`.
pub record Stepped (v : Volume) (old b : ℕ) (v' : Volume) : Type 0 where
  pub volume : IsVolume v'
  pub grew : Grew v v'
  pub nonzero : b ≢ 0
  pub held : Held v' b
  pub stays : old ≢ 0 → (v' ≡ v) × (b ≡ old)
  pub fresh : old ≡ 0 → (in_use v b ≡ false) × (v'.blocks b ≡ (λ _. 0))

pub Stepped-old : (v : Volume) (old : ℕ) → IsVolume v → old ≢ 0 → Held v old → Stepped v old old v
Stepped-old v old h n held = record {
  volume = h;
  grew = Grew-refl v;
  nonzero = n;
  held = held;
  stays = λ _. (refl, refl);
  fresh = λ z. absurd (n z);
}

-- entry_block panics with no block free or no call in a transaction, or returns the entry, which is there from then on.
pub entry_block_lem :
    (t i : ℕ) (v : Volume)
    → IsVolume v
    → Held v t
    → (word (v.blocks t) i ≢ 0 → Held v (word (v.blocks t) i))
    → ((entry_block t i v ≡ panic) × (word (v.blocks t) i ≡ 0) × IsStuck v)
      ⊎ ((v' : Volume) × (b : ℕ) × (entry_block t i v ≡ ok (v', b))
          × Stepped v (word (v.blocks t) i) b v'
          × (word (v'.blocks t) i ≡ b))
unfolding entry_block
entry_block_lem t i v h held next = elim (Bool-cases (word (v.blocks t) i == 0)) [
  | inr there ↦
      let n : word (v.blocks t) i ≢ 0 = ground arith in
      inr (v, word (v.blocks t) i, rw (there, entry_block) refl, Stepped-old v _ h n (next n), refl)
  | inl none_yet ↦
      let z : word (v.blocks t) i ≡ 0 = ground arith in
      elim (balloc_lem v h) [
        | inl (full, e) ↦ inl (rw (none_yet, e, entry_block) refl, z, full)
        | inr (v1, b, e, a) ↦ inr (
          entered t i b v1,
          b,
          rw (none_yet, e, entry_block) refl,
          (record {
            volume = entered-IsVolume v v1 t i b h held a;
            grew = entered-Grew v v1 t i b h held a z;
            nonzero = λ q. omega (arith, (entered-Held v v1 t i b h held a).high);
            held = entered-Held v v1 t i b h held a;
            stays = λ n. absurd (n z);
            fresh = λ _. (a.was_free, entered_empty v v1 t i b h held a);
          }),
          word-entered v v1 t i b h held a,
        )
      ]
]
