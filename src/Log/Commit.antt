-- ===== src/Log/Commit.antt =====
-- commit: a cut of the power leaves a disk that holds the old contents or the new ones.
use os_project.Prelude.{
  ℕ, ◌+◌, ◌≤◌, ◌<◌, ◌≡◌, ◌⊎◌, inl, inr, ◌∙◌, ap, sym, refl, false, List, [], ◌∷◌, All, length, none,
  arith, update,
}
use os_project.Log.Power.{Block, Disk, on, Machine, bread}
use os_project.Log.{
  Log, log_size, write_head, write_log_from, write_log, install_trans, commit_blocks, commit,
}
use os_project.Log.Header.{listed, head_block, listed-head_block}
use os_project.Log.Holds.{
  Ends, went, Ends->>=, Ends-map, written, bwrite-Ends, has, IsHome, IsHome-cases, Logged, Holds,
  Holds-empty,
}
use os_project.Log.Install.{
  Logged-away, home_away, Installing, Installed, bread-clean, install_from-Ends,
}

-- What write_log leaves of a machine `m`: the new contents `f` in the log, and nothing else.
pub record Wrote (start size tail : ℕ) (bs : List ℕ) (f : Disk) (m m' : Machine) : Type 0 where
  pub logged : Logged start tail bs m'.disk f
  pub disk : (b : ℕ) → (b ≤ start + tail) ⊎ (start + size ≤ b) → m'.disk b ≡ m.disk b
  pub cache : (b : ℕ) → (b ≤ start + tail) ⊎ (start + size ≤ b) → m'.cache b ≡ m.cache b
  pub clean : (b : ℕ) → start ≤ b → b < start + size → m.cache b ≡ none → m'.cache b ≡ none

-- The parts of the disk that a cut in write_log leaves as they are.
abbrev pub SameOutside : ℕ → ℕ → Disk → Disk → Type 0
SameOutside start size d d' = (b : ℕ) → (b ≤ start + 0) ⊎ (start + size ≤ b) → d' b ≡ d b

bread-same :
    (m m' : Machine) (b : ℕ)
    → m'.disk b ≡ m.disk b
    → m'.cache b ≡ m.cache b
    → bread m' b ≡ bread m b
unfolding bread
bread-same m m' b e c = ground arith

logged_one :
    (start size tail b : ℕ) (bs : List ℕ) (f : Disk) (m m' : Machine) (n : ℕ)
    → tail + 1 + length bs < size
    → Wrote start size (tail + 1) bs f (written m (start + tail + 1) (f b) n) m'
    → Wrote start size tail (b ∷ bs) f m m'
logged_one start size tail b bs f m m' n fits g = record {
  logged = (g.disk (start + tail + 1) (inl (omega arith)) ∙ ground arith, g.logged);
  disk = λ c h. ground (arith, g.disk c);
  cache = λ c h. ground (arith, g.cache c);
  clean = λ c lo hi e. ground (arith, g.clean c);
}

pub write_log_from-Ends :
    (start size tail : ℕ) (bs : List ℕ) (f d : Disk) (m : Machine)
    → tail + length bs < size
    → All (IsHome start size) bs
    → ((b : ℕ) → IsHome start size b → bread m b ≡ f b)
    → SameOutside start size d m.disk
    → Ends
        (Wrote start size tail bs f m)
        (SameOutside start size d)
        (write_log_from start tail bs m)
unfolding write_log_from
write_log_from-Ends start size tail [] f d m fits homes view same =
    went m (record { logged = tt; disk = λ b h. refl; cache = λ b h. refl; clean = λ b lo hi e. e })
write_log_from-Ends start size tail (b ∷ bs) f d m fits homes view same =
    Ends->>=
      {P = λ m1.
        Ends (Wrote start size tail (b ∷ bs) f m) (SameOutside start size d)
          (write_log_from start (tail + 1) bs m1)}
      _ _
      (bwrite-Ends (start + tail + 1) (bread m b) m same (λ n. rw (view b homes.0) (
        let m1 = written m (start + tail + 1) (f b) n in
        Ends-map (λ m' g. logged_one start size tail b bs f m m' n (omega arith) g) (λ _ h. h) _
          (write_log_from-Ends start size (tail + 1) bs f d m1 (omega arith) homes.1
            (λ c h. bread-same m m1 c (ground arith) (ground arith) ∙ view c h)
            (λ c h. ground (arith, same c))))))
      (λ _ h. h)

-- Before a commit: the log of the disk is empty, the buffers of the logged blocks hold the new
-- contents `f`, and no other buffer is dirty.
pub record Ready (l : Log) (f : Disk) (m : Machine) : Type 0 where
  pub head : listed (m.disk l.start) ≡ []
  pub fits : length l.blocks < l.size
  pub listable : length l.blocks ≤ log_size
  pub homes : All (IsHome l.start l.size) l.blocks
  pub view : (b : ℕ) → IsHome l.start l.size b → bread m b ≡ f b
  pub clean_rest : (b : ℕ) → IsHome l.start l.size b → has l.blocks b ≡ false → m.cache b ≡ none
  pub clean : (b : ℕ) → l.start ≤ b → b < l.start + l.size → m.cache b ≡ none

-- After it: the log is empty, in memory and on the disk, and the disk has the new contents.
pub record Committed (start size : ℕ) (f : Disk) (l : Log) (m : Machine) : Type 0 where
  pub start_is : l.start ≡ start
  pub empty : l.blocks ≡ []
  pub head : listed (m.disk start) ≡ []
  pub home : (b : ℕ) → IsHome start size b → m.disk b ≡ f b
  pub clean : (b : ℕ) → m.cache b ≡ none

-- What a cut leaves: the old contents `d` of the blocks, or the new ones.
abbrev pub OldOrNew : ℕ → ℕ → Disk → Disk → Disk → Type 0
OldOrNew start size f d d' = Holds start size d d' ⊎ Holds start size f d'

old_outside :
    (start size : ℕ) (d d' : Disk)
    → 0 < size
    → listed (d start) ≡ []
    → SameOutside start size d d'
    → Holds start size d d'
old_outside start size d d' some_room head same =
    Holds-empty start size d d' some_room (ap listed (same start (inl (omega arith))) ∙ head)
      (λ b h. same b (home_away start size 0 b h))

at_home :
    (d : Disk) (start size : ℕ) (w : Block) (b : ℕ)
    → 0 < size
    → IsHome start size b
    → update d start w b ≡ d b
at_home d start size w b some_room h = ground arith

head_written :
    (l : Log) (f : Disk) (m m1 : Machine) (n : ℕ) (w : Block)
    → Ready l f m
    → Wrote l.start l.size 0 l.blocks f m m1
    → listed w ≡ l.blocks
    → Installing l.start l.size 0 l.blocks f (written m1 l.start w n)
head_written l f m m1 n w r g head = record {
  holds = record {
    blocks = l.blocks;
    head = ap listed (ground arith) ∙ head;
    short = r.fits;
    listable = r.listable;
    homes = r.homes;
    logged = logged;
    rest = rest;
  };
  fits = omega (arith, r.fits);
  homes = r.homes;
  logged = logged;
  done = rest;
  clean = λ b lo hi. ground (arith, g.clean b, r.clean b);
  clean_rest =
      λ b h free. ground (arith, g.cache b (home_away l.start l.size 0 b h), r.clean_rest b h free);
}
  where
    d2 : Disk
    d2 = update m1.disk l.start w

    logged : Logged l.start 0 l.blocks d2 f
    logged =
        Logged-away l.start l.size 0 l.start w l.blocks m1.disk f (inl (omega arith))
          (omega (arith, r.fits)) g.logged

    rest : (b : ℕ) → IsHome l.start l.size b → has l.blocks b ≡ false → d2 b ≡ f b
    rest b h free =
        at_home m1.disk l.start l.size w b (omega (arith, r.fits)) h
        ∙ g.disk b (home_away l.start l.size 0 b h)
        ∙ sym (bread-clean m b (r.clean_rest b h free))
        ∙ r.view b h

-- The log is erased once the blocks are home.
pub erase-Ends :
    (l : Log) (f : Disk) (m : Machine)
    → l.blocks ≡ []
    → Installed l.start l.size f m
    → Ends (Committed l.start l.size f l) (Holds l.start l.size f) (write_head l m)
unfolding write_head
erase-Ends l f m none_left g =
    let w = head_block l.blocks (bread m l.start) in
    bwrite-Ends l.start w m g.holds (λ n. record {
      start_is = refl;
      empty = none_left;
      head = ap listed (ground arith) ∙ listed-head_block l.blocks (bread m l.start) ∙ none_left;
      home = λ b h. at_home m.disk l.start l.size w b (omega (arith, g.holds.short)) h ∙ g.home b h;
      clean = λ b. ground (arith, g.clean b);
    })

write_head-Ends :
    (l : Log) (f : Disk) (m m1 : Machine)
    → Ready l f m
    → Wrote l.start l.size 0 l.blocks f m m1
    → Ends
        (Installing l.start l.size 0 l.blocks f)
        (OldOrNew l.start l.size f m.disk)
        (write_head l m1)
unfolding write_head
write_head-Ends l f m m1 r g =
    bwrite-Ends l.start (head_block l.blocks (bread m1 l.start)) m1
      (inl (old_outside l.start l.size m.disk m1.disk (omega (arith, r.fits)) r.head g.disk))
      (λ n.
        head_written l f m m1 n (head_block l.blocks (bread m1 l.start)) r g
          (listed-head_block l.blocks (bread m1 l.start)))

commit_blocks-Ends :
    (l : Log) (f : Disk) (m : Machine)
    → Ready l f m
    → Ends
        (λ (r : Log × Machine). Committed l.start l.size f r.0 r.1)
        (OldOrNew l.start l.size f m.disk)
        (commit_blocks l m)
unfolding commit_blocks write_log install_trans
commit_blocks-Ends l f m r =
    Ends->>= _ _
      (Ends-map (λ _ p. p)
        (λ d h. inl (old_outside l.start l.size m.disk d (omega (arith, r.fits)) r.head h)) _
        (write_log_from-Ends l.start l.size 0 l.blocks f m.disk m (omega (arith, r.fits)) r.homes
          r.view (λ b h. refl)))
      (λ m1 g. Ends->>= _ _ (write_head-Ends l f m m1 r g) (λ m2 g2.
        Ends->>= _ _
          (Ends-map (λ _ p. p) (λ d h. inr h) _
            (install_from-Ends l.start l.size 0 l.blocks f m2 g2))
          (λ m3 g3.
            Ends->>= _ _
              (Ends-map (λ _ p. p) (λ d h. inr h) _
                (erase-Ends (record l { blocks = [] }) f m3 refl g3))
              (λ m4 g4. went _ g4))))

nothing_logged :
    (l : Log) (f : Disk) (m : Machine)
    → Ready l f m
    → l.blocks ≡ []
    → Committed l.start l.size f l m
nothing_logged l f m r e = record {
  start_is = refl;
  empty = e;
  head = r.head;
  home = λ b h. sym (bread-clean m b (r.clean_rest b h (unlisted b))) ∙ r.view b h;
  clean = λ b. elim (IsHome-cases l.start l.size b) [
    | inl h ↦ r.clean_rest b h (unlisted b)
    | inr (lo, hi) ↦ r.clean b lo hi
  ];
}
  where
    unlisted : (b : ℕ) → has l.blocks b ≡ false
    unlisted b = ap (λ bs. has bs b) e

-- Where the log on the disk is empty, the logged blocks fit into the log and lie outside its
-- log.size blocks, and the dirty buffers are theirs: commit writes every logged block to its place
-- and empties the log, in memory and on the disk, or a cut of the power leaves a disk whose replay
-- gives the old contents or the new ones.
pub commit-Ends :
    (l : Log) (f : Disk) (m : Machine)
    → Ready l f m
    → Ends
        (λ (r : Log × Machine). Committed l.start l.size f r.0 r.1)
        (OldOrNew l.start l.size f m.disk)
        (commit l m)
unfolding commit
commit-Ends l f m r =
    elim l.blocks
        as (λ bs.
          bs ≡ l.blocks
          → Ends (λ (r : Log × Machine). Committed l.start l.size f r.0 r.1)
              (OldOrNew l.start l.size f m.disk)
              (elim bs [ [] ↦ on (l, m) | _ ∷ _ ↦ commit_blocks l m ])) [
                | [] ↦ λ e. went (l, m) (nothing_logged l f m r (sym e))
                | b ∷ bs ↦ λ e. commit_blocks-Ends l f m r
              ]
      refl
