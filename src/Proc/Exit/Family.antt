-- ===== src/Proc/Exit/Family.antt =====
-- The part of exit and thread_exit that runs with ptable.lock held: waking a waiting process, and
-- passing the children to init.
use os_project.Prelude.{
  ℕ, ◌+◌, ◌<◌, ◌≡◌, ◌∙◌, ap, refl, ◌⊎◌, inl, inr, Bool, true, ◌&&◌, some, arith, ltb, lt→ltb, ◌==◌,
  if◌then◌else◌, Bool-cases, for_range_inv,
}
use os_project.Proc.{
  nproc, sleeping, runnable, zombie, state_eq, Ptr, ptr_eq, Chan, chan_of, chan_eq, Proc, Kernel,
  modify,
}
use os_project.Proc.Sleep.{wakeup1, wakeup1_lem, wakeup1-initproc}
use os_project.Proc.Exit.{tell_init, adopt, adopt_all}

module _ {D : Type 0} where
  -- `q` is `p` but for its parent, and it may have been woken.
  pub record Kept (p q : Proc D) : Type 0 where
    pub same : record q { state = p.state; parent = p.parent } ≡ p
    pub woken : (q.state ≡ p.state) ⊎ ((p.state ≡ sleeping) × (q.state ≡ runnable))

  pub Kept-refl : (p : Proc D) → Kept p p
  Kept-refl p = record { same = refl; woken = inl refl }

  woken_trans :
      (p q r : Proc D)
      → (q.state ≡ p.state) ⊎ ((p.state ≡ sleeping) × (q.state ≡ runnable))
      → (r.state ≡ q.state) ⊎ ((q.state ≡ sleeping) × (r.state ≡ runnable))
      → (r.state ≡ p.state) ⊎ ((p.state ≡ sleeping) × (r.state ≡ runnable))
  woken_trans p q r a b = grind arith

  pub Kept-trans : {p q r : Proc D} → Kept p q → Kept q r → Kept p r
  Kept-trans {p} {q} {r} a b = record {
    same = ap (λ (x : Proc D). record x { state = p.state; parent = p.parent }) b.same ∙ a.same;
    woken = woken_trans p q r a.woken b.woken;
  }

  pub Kept-parent : (p : Proc D) (owner : Ptr) → Kept p (record p { parent = owner })
  Kept-parent p owner = record { same = refl; woken = inl refl }

  Kept-wake :
      (p : Proc D) (b : Bool)
      → Kept p (record p { state = if state_eq p.state sleeping && b then runnable else p.state })
  Kept-wake p b = record { same = refl; woken = ground arith }

module _ {D W : Type 0} where
  pub wakeup1-Kept :
      (chan : Chan) (k : Kernel D W) (j : ℕ)
      → j < nproc
      → Kept (k.procs j) ((wakeup1 chan k).procs j)
        × (((wakeup1 chan k).procs j).parent ≡ (k.procs j).parent)
  wakeup1-Kept chan k j l =
      rw (wakeup1_lem chan k j l) (Kept-wake (k.procs j) (chan_eq (k.procs j).chan chan), refl)

  tell_init-Kept :
      (i : ℕ) (k : Kernel D W) (j : ℕ)
      → j < nproc
      → Kept (k.procs j) ((tell_init i k).procs j)
        × (((tell_init i k).procs j).parent ≡ (k.procs j).parent)
        × ((tell_init i k).initproc ≡ k.initproc)
  unfolding tell_init
  tell_init-Kept i k j l = elim (Bool-cases (state_eq (k.procs i).state zombie)) [
    | inl z ↦
        let (kept, parent) = wakeup1-Kept (chan_of k.initproc) k j l in
        rw z (kept, parent, wakeup1-initproc (chan_of k.initproc) k)
    | inr z ↦ rw z (Kept-refl (k.procs j), refl, refl)
  ]

  given-Kept :
      (i : ℕ) (k : Kernel D W) (j : ℕ)
      → Kept (k.procs j) ((modify i (λ p. record p { parent = k.initproc }) k).procs j)
  given-Kept i k j = record { same = ground arith; woken = ground arith }

  -- What one round of the loop does to slot `j`.
  adopt-Kept :
      (cur i : ℕ) (k : Kernel D W) (j : ℕ)
      → j < nproc
      → Kept (k.procs j) ((adopt cur i k).procs j)
        × (((adopt cur i k).procs j).parent ≡ (
            if i == j && ptr_eq (k.procs j).parent (some cur)
            then k.initproc
            else (k.procs j).parent))
        × ((adopt cur i k).initproc ≡ k.initproc)
  unfolding adopt
  adopt-Kept cur i k j l = elim (Bool-cases (ptr_eq (k.procs i).parent (some cur))) [
    | inl child ↦
        let k' = modify i (λ p. record p { parent = k.initproc }) k in
        let (kept, parent, init) = tell_init-Kept i k' j l in
        rw child (Kept-trans (given-Kept i k j) kept, parent ∙ ground arith, init)
    | inr other ↦ rw other (Kept-refl (k.procs j), ground arith, refl)
  ]

  -- What the loop has done before its round `i`.
  record Adopting (cur : ℕ) (k : Kernel D W) (i : ℕ) (s : Kernel D W) : Type 0 where
    pub kept : (j : ℕ) → j < nproc → Kept (k.procs j) (s.procs j)
    pub parents :
        (j : ℕ)
        → j < nproc
        → (s.procs j).parent ≡ (
            if ltb j i && ptr_eq (k.procs j).parent (some cur)
            then k.initproc
            else (k.procs j).parent)
    pub init : s.initproc ≡ k.initproc

  adopt-Adopting :
      (cur : ℕ) (k : Kernel D W) (i : ℕ) (s : Kernel D W)
      → i < nproc
      → Adopting cur k i s
      → Adopting cur k (i + 1) (adopt cur i s)
  adopt-Adopting cur k i s l h = record {
    kept = λ j b. Kept-trans (h.kept j b) (adopt-Kept cur i s j b).0;
    parents = λ j b. (adopt-Kept cur i s j b).1 ∙ parent j b;
    init = (adopt-Kept cur i s i l).2 ∙ h.init;
  }
    where
      parent :
          (j : ℕ)
          → j < nproc
          → (if i == j && ptr_eq (s.procs j).parent (some cur)
              then s.initproc
              else (s.procs j).parent)
            ≡ (if ltb j (i + 1) && ptr_eq (k.procs j).parent (some cur)
                then k.initproc
                else (k.procs j).parent)
      parent j b = rw (h.init, h.parents j b) (ground arith)

  -- The loop gives every child of `cur` to init and changes no other parent; it may wake processes.
  pub adopt_all_lem :
      (cur : ℕ) (k : Kernel D W) (j : ℕ)
      → j < nproc
      → Kept (k.procs j) ((adopt_all cur k).procs j)
        × (((adopt_all cur k).procs j).parent
            ≡ (if ptr_eq (k.procs j).parent (some cur) then k.initproc else (k.procs j).parent))
  unfolding adopt_all
  adopt_all_lem cur k j l =
      let done =
        for_range_inv (Adopting cur k) (adopt cur) nproc 0 nproc k refl
          (λ i s _ b h. adopt-Adopting cur k i s b h)
          (record {
            kept = λ j _. Kept-refl (k.procs j);
            parents = λ j b. ground arith;
            init = refl;
          }) in
      let parent = done.parents j l in (done.kept j l, rw (lt→ltb j nproc l) at parent)

  -- Both steps of an exit, where `k'` is what they lead to.
  pub wake_adopt_lem :
      (cur : ℕ) (chan : Chan) (k k' : Kernel D W) (j : ℕ)
      → k' ≡ adopt_all cur (wakeup1 chan k)
      → j < nproc
      → Kept (k.procs j) (k'.procs j)
        × ((k'.procs j).parent
            ≡ (if ptr_eq (k.procs j).parent (some cur) then k.initproc else (k.procs j).parent))
  wake_adopt_lem cur chan k k' j e l =
      let (woken, parent) = wakeup1-Kept chan k j l in
      let (kept, given) = adopt_all_lem cur (wakeup1 chan k) j l in
      rw e (Kept-trans woken kept, given ∙ same (wakeup1 chan k) parent (wakeup1-initproc chan k))
    where
      same :
          (k4 : Kernel D W)
          → (k4.procs j).parent ≡ (k.procs j).parent
          → k4.initproc ≡ k.initproc
          → (if ptr_eq (k4.procs j).parent (some cur) then k4.initproc else (k4.procs j).parent)
            ≡ (if ptr_eq (k.procs j).parent (some cur) then k.initproc else (k.procs j).parent)
      same k4 p i = rw (p, i) refl

  -- A sleeper on the channel does not sleep on.
  pub wake_adopt-woken :
      (cur : ℕ) (chan : Chan) (k k' : Kernel D W) (j : ℕ)
      → k' ≡ adopt_all cur (wakeup1 chan k)
      → j < nproc
      → (k.procs j).state ≡ sleeping
      → chan_eq (k.procs j).chan chan ≡ true
      → (k'.procs j).state ≡ runnable
  wake_adopt-woken cur chan k k' j e l asleep on =
      let now : ((wakeup1 chan k).procs j).state ≡ runnable =
        rw (wakeup1_lem chan k j l, asleep, on) refl in
      rw e (stays (wakeup1 chan k) now (adopt_all_lem cur (wakeup1 chan k) j l).0)
    where
      stays :
          (k4 : Kernel D W)
          → (k4.procs j).state ≡ runnable
          → Kept (k4.procs j) ((adopt_all cur k4).procs j)
          → ((adopt_all cur k4).procs j).state ≡ runnable
      stays k4 r kept = elim kept.woken [ inl s ↦ s ∙ r | inr (z, _) ↦ cc ]
