-- ===== src/Proc/Wait/Frees.antt =====
-- What killsamepid frees.
use os_project.Prelude.{
  ℕ, ◌+◌, ◌<◌, ◌≡◌, ◌∙◌, sym, refl, inl, inr, ◌&&◌, arith, ltb, lt→ltb, ◌==◌, if◌then◌else◌,
  Bool-cases,
}
use os_project.Prelude.Outcome.{ok, >>=-eq-ok, ok-injective, for_each_inv}
use os_project.Double.{Double}
use os_project.Proc.{nproc, Kernel, modify}
use os_project.Proc.Services.{Services}
use os_project.Proc.Wait.{
  reset_proc, dead_thread, release_tid, free_proc, kill_same_step, killsamepid,
}

module _ {D W : Type 0} ⦃F : Double D⦄ ⦃S : Services W⦄ where
  pub free_proc-eq :
      (i : ℕ) (k k' : Kernel D W)
      → free_proc i k ≡ ok k'
      → (w : W) × (k' ≡ modify i reset_proc (record k { world = w }))
  unfolding free_proc
  free_proc-eq i k k' e =
      let (w, _, e1) = >>=-eq-ok (S.kfree (k.procs i).kstack k.world) _ e in
      (w, sym (ok-injective e1))

  pub release_tid-procs : (t : ℕ) (k : Kernel D W) → (release_tid t k).procs ≡ k.procs
  unfolding release_tid
  release_tid-procs t k = refl

  kill_same_step-eq :
      (pid i : ℕ) (k k' : Kernel D W) (j : ℕ)
      → kill_same_step pid i k ≡ ok k'
      → k'.procs j
        ≡ (if i == j && dead_thread pid (k.procs j) then reset_proc (k.procs j) else k.procs j)
  unfolding kill_same_step
  kill_same_step-eq pid i k k' j e = elim (Bool-cases (dead_thread pid (k.procs i))) [
    | inl hit ↦
        let (w, eq) = free_proc-eq i (release_tid (k.procs i).tid k) k' (rw hit at e) in
        rw (eq, release_tid-procs (k.procs i).tid k) (ground arith)
    | inr miss ↦ let same = rw miss at e in rw (sym (ok-injective same)) (ground arith)
  ]

  -- killsamepid frees the slots of the zombie threads with the pid, and changes no other slot.
  pub killsamepid_lem :
      (pid : ℕ) (k k' : Kernel D W) (j : ℕ)
      → killsamepid pid k ≡ ok k'
      → j < nproc
      → k'.procs j ≡ (if dead_thread pid (k.procs j) then reset_proc (k.procs j) else k.procs j)
  unfolding killsamepid
  killsamepid_lem pid k k' j e l =
      let done =
        for_each_inv Inv (kill_same_step pid) nproc 0 nproc k k' refl
          (λ i s s' b h r j. kill_same_step-eq pid i s s' j r ∙ step i s j (h j))
          (λ j. ground arith) e j in
      rw (lt→ltb j nproc l) at done
    where
      Inv : ℕ → Kernel D W → Type 0
      Inv i s =
          (j : ℕ)
          → s.procs j
            ≡ (if ltb j i && dead_thread pid (k.procs j) then reset_proc (k.procs j) else k.procs j)

      step :
          (i : ℕ) (s : Kernel D W) (j : ℕ)
          → s.procs j
            ≡ (if ltb j i && dead_thread pid (k.procs j) then reset_proc (k.procs j) else k.procs j)
          → (if i == j && dead_thread pid (s.procs j) then reset_proc (s.procs j) else s.procs j)
            ≡ (if ltb j (i + 1) && dead_thread pid (k.procs j)
                then reset_proc (k.procs j)
                else k.procs j)
      step i s j h = rw h (ground arith)
