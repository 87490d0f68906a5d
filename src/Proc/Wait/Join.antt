-- ===== src/Proc/Wait/Join.antt =====
-- thread_join of xv6-public/proc.c.
use os_project.Prelude.{
  ℕ, ◌<◌, ◌≡◌, ◌≢◌, ◌∙◌, sym, ap, inl, inr, Bool-cases, Bool, true, false, not, ◌&&◌, none, some,
  List, [], ◌∷◌, arith, ◌==◌, if◌then◌else◌,
}
use os_project.Prelude.Outcome.{Outcome, ok, ◌>>=◌, >>=-eq-ok, ok-injective}
use os_project.Double.{Double}
use os_project.Proc.{nproc, unused, zombie, state_eq, ptr_eq, proc, Kernel, modify}
use os_project.Proc.Sleep.{sleep, sleep_tidy}
use os_project.Proc.Services.{Services}
use os_project.Proc.Alloc.{find_from}
use os_project.Proc.Alloc.Laws.{found, missing, find_from-Searched}
use os_project.Proc.Wait.Frees.{free_proc-eq}
use os_project.Proc.Wait.{reset_proc, release_tid, return_share, free_proc}

-- What thread_join ends with: it returns 0 and the value that it stores at `retval`; it returns -1;
-- or it sleeps.
pub data Join (D W : Type 0) : Type 0 where
  joined : ℕ → Kernel D W → Join D W
  no_thread : Kernel D W → Join D W
  joining : Kernel D W → Join D W

module _ {D W : Type 0} ⦃F : Double D⦄ ⦃S : Services W⦄ where
  -- What is given back: the thread number, and the share of a stride thread.
  unfoldable pub join_share : ℕ → Kernel D W → Kernel D W
  join_share i k =
      let p = k.procs i in
      let k' = release_tid p.tid k in if p.is_mlfq then k' else return_share p.share k'

  -- The slot is freed, whatever it holds.
  unfoldable pub join_reap : ℕ → Kernel D W → Outcome (Join D W)
  join_reap i k = do
    let p = k.procs i
    let k1 = release_tid p.tid k
    let k2 = if p.is_mlfq then k1 else return_share p.share k1
    k3 ← free_proc i k2
    ok (joined p.retval k3)

  -- The test of the loop that waits for the thread.
  abbrev pub still_runs : ℕ → ℕ → ℕ → Kernel D W → Bool
  still_runs cur thread i k =
      not (state_eq (k.procs i).state zombie)
      && ((k.procs i).pid == (k.procs cur).pid && (k.procs i).tid == thread)

  unfoldable pub join_slot :
      ℕ → ℕ → ℕ → List (Kernel D W → Kernel D W) → Kernel D W → Outcome (Join D W)
  join_slot cur thread i [] k =
      if still_runs cur thread i k then ok (joining (sleep cur (proc cur) k)) else join_reap i k
  join_slot cur thread i (turn ∷ turns) k = elim (still_runs cur thread i k) [
    | true ↦ join_slot cur thread i turns (sleep_tidy cur (turn (sleep cur (proc cur) k)))
    | false ↦ join_reap i k
  ]

  -- The scan stops at the first child, since the body of the loop returns.
  unfoldable pub thread_join :
      ℕ → ℕ → List (Kernel D W → Kernel D W) → Kernel D W → Outcome (Join D W)
  thread_join cur thread turns k =
      elim (find_from (λ i. ptr_eq (k.procs i).parent (some cur)) nproc 0) [
        | none ↦ ok (no_thread k)
        | some i ↦ join_slot cur thread i turns k
      ]

module _ {D W : Type 0} ⦃F : Double D⦄ ⦃S : Services W⦄ where
  -- thread_join has freed slot `i` and stored its value.
  pub record JoinedAt (cur thread i value : ℕ) (k k' : Kernel D W) : Type 0 where
    pub below : i < nproc
    pub child : ptr_eq (k.procs i).parent (some cur) ≡ true
    pub first : (j : ℕ) → j < i → ptr_eq (k.procs j).parent (some cur) ≡ false
    pub stored : value ≡ (k.procs i).retval
    pub freed : (k'.procs i).state ≡ unused
    pub over : still_runs cur thread i k ≡ false
    pub others : (j : ℕ) → j ≢ i → k'.procs j ≡ k.procs j

  join_share-procs : (i : ℕ) (k : Kernel D W) → (join_share i k).procs ≡ k.procs
  unfolding join_share release_tid return_share
  join_share-procs i k = ground arith

  freed_at :
      (i : ℕ) (w : W) (k k' : Kernel D W)
      → k'.procs ≡ (modify i reset_proc (record k { world = w })).procs
      → ((k'.procs i).state ≡ unused) × ((j : ℕ) → j ≢ i → k'.procs j ≡ k.procs j)
  unfolding reset_proc
  freed_at i w k k' e = rw e ((ground arith), (λ j n. ground arith))

  joined-injective :
      {v v' : ℕ} {k k' : Kernel D W}
      → ◌≡◌ {A = Join D W} (joined v k) (joined v' k')
      → (v ≡ v') × (k ≡ k')
  joined-injective e = (cc, cc)

  join_reap-eq :
      (i value : ℕ) (k k' : Kernel D W)
      → join_reap i k ≡ ok (joined value k')
      → (value ≡ (k.procs i).retval)
        × ((k'.procs i).state ≡ unused)
        × ((j : ℕ) → j ≢ i → k'.procs j ≡ k.procs j)
  unfolding join_reap join_share free_proc
  join_reap-eq i value k k' e =
      let (k1, done, e1) = >>=-eq-ok (free_proc i (join_share i k)) _ e in
      let (w, eq) = free_proc-eq i (join_share i k) k1 done in
      let (value_is, k1_is) = joined-injective (ok-injective e1) in
      let (freed, others) =
        freed_at i w (join_share i k) k' (ap (λ (x : Kernel D W). x.procs) (sym k1_is ∙ eq)) in
      (sym value_is, freed, λ j n. others j n ∙ ap (λ t. t j) (join_share-procs i k))

  -- Where thread_join returns 0 without sleeping, it has stored the value of the first child of the
  -- caller in the table, and has freed that child's slot and changed no other. That
  -- child has exited, or it is not the thread that is asked for.
  pub thread_join-JoinedAt :
      (cur thread value : ℕ) (k k' : Kernel D W)
      → thread_join cur thread [] k ≡ ok (joined value k')
      → (i : ℕ) × JoinedAt cur thread i value k k'
  unfolding thread_join join_slot
  thread_join-JoinedAt cur thread value k k' e =
      elim (find_from-Searched (λ i. ptr_eq (k.procs i).parent (some cur)) nproc 0) [
        | missing none_is _ ↦ let e' = rw (none_is, thread_join) at e in absurd (cc e')
        | found i is a b hit before ↦ elim (Bool-cases (still_runs cur thread i k)) [
          | inl runs ↦ let e' = rw (is, runs, thread_join, join_slot) at e in absurd (cc e')
          | inr over ↦
              let (stored, freed, others) =
                join_reap-eq i value k k' (rw (is, over, thread_join, join_slot) at e) in
              (
                i,
                record {
                  below = b;
                  child = hit;
                  first = λ j l. before j (omega arith) l;
                  stored = stored;
                  freed = freed;
                  over = over;
                  others = others;
                },
              )
        ]
      ]
