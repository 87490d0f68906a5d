-- ===== src/Fs/Trunc/Freeing.antt =====
-- The blocks that the loops of itrunc free, as a list, and that they free these in order.
use os_project.Prelude.{
  ℕ, zero, suc, ◌+◌, ◌<◌, ◌≡◌, ◌⊎◌, inl, inr, ◌∙◌, refl, sym, ap, true, false, ◌==◌, arith,
  Bool-cases, List, [], ◌∷◌, ◌++◌, All,
}
use mathlib.Core.Path.{subst}
use os_project.Prelude.Outcome.{Outcome, ok, panic, fault, ◌>>=◌, for_each}
use os_project.Fs.{SuperBlock, Volume, bfree}
use os_project.Fs.Bits.{word}
use os_project.Fs.Free.{IsMapBlock, IsVolume}
use os_project.Fs.Alloc.{bfree_lem}
use os_project.Fs.Trunc.{free_entry}

-- bfree of one block after the other.
unfoldable pub free_all : List ℕ → Volume → Outcome Volume
free_all [] v = ok v
free_all (b ∷ bs) v = bfree b v >>= free_all bs

pub free_all-append :
    (bs cs : List ℕ) (v : Volume) → free_all (bs ++ cs) v ≡ (free_all bs v >>= free_all cs)
unfolding free_all
free_all-append [] cs v = refl
free_all-append (b ∷ bs) cs v = after (bfree b v) (λ v'. free_all-append bs cs v')
  where
    after :
        (r : Outcome Volume)
        → ((v' : Volume) → free_all (bs ++ cs) v' ≡ (free_all bs v' >>= free_all cs))
        → (r >>= free_all (bs ++ cs)) ≡ (r >>= free_all bs >>= free_all cs)
    after (ok v') h = h v'
    after panic h = refl
    after fault h = refl

-- The blocks behind the entries of a table from `j` on, `n` of them, with those of `below` before each.
unfoldable pub entries : (ℕ → List ℕ) → (ℕ → ℕ) → ℕ → ℕ → List ℕ
entries below w zero j = []
entries below w (suc n) j =
    let rest = entries below w n (j + 1) in
    elim (word w j == 0) [ true ↦ rest | false ↦ below (word w j) ++ word w j ∷ rest ]

-- Volumes that differ in their maps at most.
pub record Agree (v v' : Volume) : Type 0 where
  pub sb_is : v'.sb ≡ v.sb
  pub rest : (c : ℕ) → ¬ (IsMapBlock v c) → v'.blocks c ≡ v.blocks c

-- A block of contents.
pub record IsContents (v : Volume) (c : ℕ) : Type 0 where
  pub high : 1 < c
  pub inside : c < v.sb.size
  pub away : ¬ (IsMapBlock v c)

pub Agree-bfree :
    (v v1 : Volume) (b : ℕ)
    → IsVolume v
    → Agree v v1
    → IsVolume v1
    → IsContents v b
    → ((bfree b v1 ≡ panic) ⊎ ((v2 : Volume) × (bfree b v1 ≡ ok v2) × IsVolume v2 × Agree v v2))
Agree-bfree v v1 b h g h1 at =
    let size_is = ap (λ (s : SuperBlock). s.size) g.sb_is in
    let start_is = ap (λ (s : SuperBlock). s.bmapstart) g.sb_is in
    let off : (c : ℕ) → IsMapBlock v1 c → IsMapBlock v c =
      λ c m. (omega (arith, start_is, m.0), omega (arith, start_is, size_is, m.1)) in
    elim (bfree_lem b v1 h1 (omega (arith, size_is, at.inside)) at.high (λ m. at.away (off b m))) [
      | inl (_, e) ↦ inl e
      | inr (v2, e, used, f) ↦ inr (
        v2,
        e,
        f.volume,
        (record {
          sb_is = f.marked.sb_is ∙ g.sb_is;
          rest = λ c away. f.marked.rest c (λ m. away (off c m)) tt ∙ g.rest c away;
        }),
      )
    ]

-- free_all panics, or ends with a volume that differs in the map at most.
abbrev pub AgreeEnds : Volume → Outcome Volume → Type 0
AgreeEnds v r = (r ≡ panic) ⊎ ((v2 : Volume) × (r ≡ ok v2) × IsVolume v2 × Agree v v2)

pub free_all-AgreeEnds :
    (bs : List ℕ) (v v1 : Volume)
    → IsVolume v
    → Agree v v1
    → IsVolume v1
    → All (IsContents v) bs
    → AgreeEnds v (free_all bs v1)
unfolding free_all
free_all-AgreeEnds [] v v1 h g h1 at = inr (v1, refl, h1, g)
free_all-AgreeEnds (b ∷ bs) v v1 h g h1 at = elim (Agree-bfree v v1 b h g h1 at.0) [
  | inl e ↦ inl (rw e refl)
  | inr (v2, e, h2, g2) ↦ rw e (free_all-AgreeEnds bs v v2 h g2 h2 at.1)
]

-- A loop body that frees the blocks `bs w` behind each block `w`.
abbrev pub Frees : Volume → (ℕ → Volume → Outcome Volume) → (ℕ → List ℕ) → Type 0
Frees v below bs =
    (w : ℕ) (v1 : Volume)
    → Agree v v1
    → IsVolume v1
    → IsContents v w
    → All (IsContents v) (bs w)
    → below w v1 ≡ free_all (bs w) v1

entries-zero :
    (bs : ℕ → List ℕ) (w : ℕ → ℕ) (n j : ℕ)
    → (word w j == 0) ≡ true
    → entries bs w (suc n) j ≡ entries bs w n (j + 1)
unfolding entries
entries-zero bs w n j e = rw (e, entries) refl

entries-cons :
    (bs : ℕ → List ℕ) (w : ℕ → ℕ) (n j : ℕ)
    → (word w j == 0) ≡ false
    → entries bs w (suc n) j ≡ bs (word w j) ++ word w j ∷ entries bs w n (j + 1)
unfolding entries
entries-cons bs w n j e = rw (e, entries) refl

free_entry-zero :
    (below : ℕ → Volume → Outcome Volume) (t j : ℕ) (v : Volume)
    → (word (v.blocks t) j == 0) ≡ true
    → free_entry below t j v ≡ ok v
unfolding free_entry
free_entry-zero below t j v e = rw (e, free_entry) refl

free_entry-cons :
    (below : ℕ → Volume → Outcome Volume) (t j : ℕ) (v : Volume)
    → (word (v.blocks t) j == 0) ≡ false
    → free_entry below t j v ≡ (below (word (v.blocks t) j) v >>= bfree (word (v.blocks t) j))
unfolding free_entry
free_entry-cons below t j v e = rw (e, free_entry) refl

pub All-split : (P : ℕ → Type 0) (xs ys : List ℕ) → All P (xs ++ ys) → All P xs × All P ys
All-split P [] ys h = (tt, h)
All-split P (x ∷ xs) ys h = let (a, b) = All-split P xs ys h.1 in ((h.0, a), b)

pub free_all-nil : (v : Volume) → free_all [] v ≡ ok v
unfolding free_all
free_all-nil v = refl

pub free_all-cons :
    (b : ℕ) (bs : List ℕ) (v : Volume) → free_all (b ∷ bs) v ≡ (bfree b v >>= free_all bs)
unfolding free_all
free_all-cons b bs v = refl

entries-nil : (bs : ℕ → List ℕ) (w : ℕ → ℕ) (j : ℕ) → entries bs w 0 j ≡ []
unfolding entries
entries-nil bs w j = refl

-- The blocks behind `w`, then `w`, then what comes after.
pub then_block :
    (v v1 : Volume) (bs rest : List ℕ) (w : ℕ) (r : Outcome Volume) (k : Volume → Outcome Volume)
    → IsVolume v
    → Agree v v1
    → IsVolume v1
    → All (IsContents v) bs
    → IsContents v w
    → r ≡ (free_all bs v1 >>= bfree w)
    → ((v3 : Volume) → Agree v v3 → IsVolume v3 → k v3 ≡ free_all rest v3)
    → (r >>= k) ≡ free_all (bs ++ w ∷ rest) v1
then_block v v1 bs rest w r k h g h1 at at_w e next =
    rw (e, free_all-append bs (w ∷ rest) v1)
      (elim (free_all-AgreeEnds bs v v1 h g h1 at) [
        | inl none_left ↦ rw none_left refl
        | inr (v2, e2, h2, g2) ↦
            rw (e2, free_all-cons w rest v2)
              (elim (Agree-bfree v v2 w h g2 h2 at_w) [
                | inl none_left ↦ rw none_left refl
                | inr (v3, e3, h3, g3) ↦ rw e3 (next v3 g3 h3)
              ])
      ])

-- The loop over the entries of a table is bfree of its list.
pub for_each-free_all :
    (below : ℕ → Volume → Outcome Volume) (bs : ℕ → List ℕ) (t : ℕ) (v : Volume)
    → IsVolume v
    → IsContents v t
    → Frees v below bs
    → (n j : ℕ) (v1 : Volume) → Agree v v1
    → IsVolume v1
    → All (IsContents v) (entries bs (v.blocks t) n j)
    → for_each (free_entry below t) n j v1 ≡ free_all (entries bs (v.blocks t) n j) v1
unfolding for_each
for_each-free_all below bs t v h tc fr zero j v1 g h1 at =
    sym (ap (λ l. free_all l v1) (entries-nil bs (v.blocks t) j) ∙ free_all-nil v1)
for_each-free_all below bs t v h tc fr (suc n) j v1 g h1 at =
    let same : word (v1.blocks t) j ≡ word (v.blocks t) j = ap (λ w. word w j) (g.rest t tc.away) in
    elim (Bool-cases (word (v.blocks t) j == 0)) [
      | inl none_there ↦ rw (free_entry-zero below t j v1 (ap (λ x. x == 0) same ∙ none_there)) (
          for_each-free_all below bs t v h tc fr n (j + 1) v1 g h1
            (subst (All (IsContents v)) (entries-zero bs (v.blocks t) n j none_there) at)
          ∙ ap (λ l. free_all l v1) (sym (entries-zero bs (v.blocks t) n j none_there)))
      | inr there ↦
          let w = word (v.blocks t) j in
          let rest = entries bs (v.blocks t) n (j + 1) in
          let at' = subst (All (IsContents v)) (entries-cons bs (v.blocks t) n j there) at in
          let (at_bs, at_rest) = All-split (IsContents v) (bs w) (w ∷ rest) at' in
          let freed : free_entry below t j v1 ≡ (free_all (bs w) v1 >>= bfree w) =
            free_entry-cons below t j v1 (ap (λ x. x == 0) same ∙ there)
            ∙ ap (λ x. below x v1 >>= bfree x) same
            ∙ ap (λ r. r >>= bfree w) (fr w v1 g h1 at_rest.0 at_bs) in
          then_block v v1 (bs w) rest w (free_entry below t j v1)
            (for_each (free_entry below t) n (j + 1)) h g h1 at_bs at_rest.0 freed
            (λ v3 g3 h3. for_each-free_all below bs t v h tc fr n (j + 1) v3 g3 h3 at_rest.1)
          ∙ ap (λ l. free_all l v1) (sym (entries-cons bs (v.blocks t) n j there))
    ]
