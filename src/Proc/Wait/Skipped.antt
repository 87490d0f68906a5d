-- ===== src/Proc/Wait/Skipped.antt =====
-- What the scan of wait does to the processes that it passes over, and to those that it frees.
use os_project.Prelude.{
  ℕ, suc, ◌+◌, ◌<◌, ◌≤◌, ◌≡◌, ◌≢◌, ◌∙◌, sym, refl, ◌⊎◌, inl, inr, ap, Bool, true, false, true≢false,
  not, ◌&&◌, some, none, arith, ◌==◌, Bool-cases,
}
use os_project.Proc.{nproc, unused, zombie, state_eq, Ptr, ptr_eq, Proc, Kernel}
use os_project.Proc.Wait.{Scan, found, scanned, dead_thread}

pub ptr_eq-some : (p : Ptr) (c : ℕ) → ptr_eq p (some c) ≡ true → p ≡ some c
ptr_eq-some none c e = absurd (true≢false (sym e))
ptr_eq-some (some b) c e = ap some (ground arith)

module _ {D : Type 0} where
  -- What the scan does to a process that it does not return for: nothing but to clear the flag of
  -- exec, or to free the slot of a zombie thread.
  pub data Skipped (p q : Proc D) : Type 0 where
    kept : q ≡ p → Skipped p q
    cleared : p.is_there_exec ≡ true → q ≡ record p { is_there_exec = false } → Skipped p q
    freed : p.state ≡ zombie → p.is_main_thread ≡ false → q.state ≡ unused → Skipped p q

  pub Skipped-trans : (p q r : Proc D) → Skipped p q → Skipped q r → Skipped p r
  Skipped-trans p q r (kept a) b = rw (← a) b
  Skipped-trans p q r (cleared x a) (kept b) = cleared x (b ∙ a)
  Skipped-trans p q r (cleared x a) (cleared y b) = absurd (true≢false (sym (rw a at y)))
  Skipped-trans p q r (cleared x a) (freed z m u) = freed (rw a at z) (rw a at m) u
  Skipped-trans p q r (freed z m u) (kept b) = freed z m (rw b u)
  Skipped-trans p q r (freed z m u) (cleared y b) = freed z m (rw b u)
  Skipped-trans p q r (freed z m u) (freed z' m' u') = freed z m u'

  pub dead_still :
      (pid : ℕ) (p q r : Proc D)
      → Skipped p q
      → (dead_thread pid q ≡ true → r.state ≡ unused)
      → (r.state ≡ unused) ⊎ Skipped q r
      → dead_thread pid p ≡ true
      → r.state ≡ unused
  dead_still pid p q r (kept a) b c h = b (rw a h)
  dead_still pid p q r (cleared x a) b c h = b (rw a h)
  dead_still pid p q r (freed _ _ u) b (inl e) h = e
  dead_still pid p q r (freed _ _ u) b (inr (kept e)) h = rw e u
  dead_still pid p q r (freed _ _ u) b (inr (cleared x e)) h = rw e u
  dead_still pid p q r (freed _ _ u) b (inr (freed z _ _)) h = cc

  pub zombie_same :
      (p q : Proc D)
      → Skipped p q
      → q.state ≡ zombie
      → (p.state ≡ zombie) × (p.parent ≡ q.parent) × (p.pid ≡ q.pid)
  zombie_same p q (kept a) z = (rw a at z, rw a refl, rw a refl)
  zombie_same p q (cleared x a) z = (rw a at z, rw a refl, rw a refl)
  zombie_same p q (freed _ _ u) z = cc

  pub marked_still :
      (p q : Proc D)
      → Skipped p q
      → (p.state ≡ zombie → p.is_thread ≡ not p.is_main_thread)
      → q.state ≡ zombie
      → q.is_thread ≡ not q.is_main_thread
  marked_still p q (kept a) m z = rw a (m (rw a at z))
  marked_still p q (cleared x a) m z = rw a (m (rw a at z))
  marked_still p q (freed _ _ u) m z = cc

  -- An exited child process that wait is to return for.
  abbrev pub is_ready : ℕ → Proc D → Bool
  is_ready cur p =
      ptr_eq p.parent (some cur)
      && (not p.is_there_exec && (state_eq p.state zombie && p.is_main_thread))

  pub ready_before :
      (cur : ℕ) (p q : Proc D) → Skipped p q → is_ready cur q ≡ false → is_ready cur p ≡ false
  ready_before cur p q (kept a) h = rw a at h
  ready_before cur p q (cleared x a) h = rw x (ground arith)
  ready_before cur p q (freed z m u) h = rw m (ground arith)

module _ {D W : Type 0} where
  -- wait has found an exited child with the pid, and freed it with its threads.
  pub record Found (cur pid : ℕ) (k k' : Kernel D W) : Type 0 where
    pub slot : ℕ
    pub below : slot < nproc
    pub child : (k.procs slot).parent ≡ some cur
    pub dead : (k.procs slot).state ≡ zombie
    pub is : (k.procs slot).pid ≡ pid
    pub free : ((k'.procs slot).state ≡ unused) × ((k'.procs slot).parent ≡ none)
    pub group :
        (j : ℕ) → j < nproc → dead_thread pid (k.procs j) ≡ true → (k'.procs j).state ≡ unused
    pub others : (j : ℕ) → j < nproc → j ≢ slot → Skipped (k.procs j) (k'.procs j)

  abbrev pub Passed : Kernel D W → Kernel D W → Type 0
  Passed k k' = (j : ℕ) → j < nproc → Skipped (k.procs j) (k'.procs j)

  -- What a scan of `n` slots from `i` on has done.
  unfoldable pub Scanned : ℕ → ℕ → ℕ → Kernel D W → Scan D W → Type 0
  Scanned cur i n k (found pid k') = Found cur pid k k'
  Scanned cur i n k (scanned havekids k') =
      Passed k k' × ((j : ℕ) → i ≤ j → j < i + n → is_ready cur (k.procs j) ≡ false)

  -- A zombie is a thread or a main thread, not both or neither.
  abbrev pub IsMarked : Kernel D W → Type 0
  IsMarked k =
      (j : ℕ)
      → j < nproc
      → (k.procs j).state ≡ zombie
      → (k.procs j).is_thread ≡ not (k.procs j).is_main_thread

  pub Passed-IsMarked : (k k1 : Kernel D W) → Passed k k1 → IsMarked k → IsMarked k1
  Passed-IsMarked k k1 passed marked j l z =
      marked_still (k.procs j) (k1.procs j) (passed j l) (marked j l) z

  pub Passed-Found :
      (cur pid : ℕ) (k k1 k' : Kernel D W) → Passed k k1 → Found cur pid k1 k' → Found cur pid k k'
  Passed-Found cur pid k k1 k' passed f =
      let (dead, parent, id) =
        zombie_same (k.procs f.slot) (k1.procs f.slot) (passed f.slot f.below) f.dead in
      record {
        slot = f.slot;
        below = f.below;
        child = parent ∙ f.child;
        dead = dead;
        is = id ∙ f.is;
        free = f.free;
        group = λ j l h.
            dead_still pid (k.procs j) (k1.procs j) (k'.procs j) (passed j l) (f.group j l)
              (after j l) h;
        others = λ j l n.
            Skipped-trans (k.procs j) (k1.procs j) (k'.procs j) (passed j l) (f.others j l n);
      }
    where
      after :
          (j : ℕ) → j < nproc → ((k'.procs j).state ≡ unused) ⊎ Skipped (k1.procs j) (k'.procs j)
      after j l = elim (Bool-cases (j == f.slot)) [
        | inl same ↦ let e : j ≡ f.slot = ground arith in inl (rw e f.free.0)
        | inr other ↦ inr (f.others j l (ground arith))
      ]

  pub Passed-Scanned :
      (cur i n : ℕ) (k k1 : Kernel D W) (r : Scan D W)
      → Passed k k1
      → is_ready cur (k.procs i) ≡ false
      → i + (n + 1) ≤ nproc
      → Scanned cur (i + 1) n k1 r
      → Scanned cur i (suc n) k r
  unfolding Scanned
  Passed-Scanned cur i n k k1 (found pid k') passed here l f = Passed-Found cur pid k k1 k' passed f
  Passed-Scanned cur i n k k1 (scanned havekids k') passed here l (after, none_ready) = (
    (λ j b. Skipped-trans (k.procs j) (k1.procs j) (k'.procs j) (passed j b) (after j b)),
    λ j low high. elim (Bool-cases (j == i)) [
      | inl same ↦ let e : j ≡ i = ground arith in rw e here
      | inr other ↦
          let n : j ≢ i = ground arith in
          ready_before cur (k.procs j) (k1.procs j) (passed j (omega arith))
            (none_ready j (omega arith) (omega arith))
    ],
  )
