-- ===== src/Proc/Exit/Group.antt =====
-- What exit does to the processes and threads with the caller's pid.
use os_project.Prelude.{
  ℕ, ◌<◌, ◌≡◌, ◌≢◌, ◌∙◌, sym, ap, refl, inl, inr, none, some, arith, lt→ltb, ◌==◌, if◌then◌else◌,
  Bool-cases,
}
use os_project.Prelude.Outcome.{ok, panic_if, >>=-eq-ok, ok-injective, for_each}
use os_project.Proc.{nproc, zombie, Ptr, ptr_eq, chan_of, Kernel, modify}
use os_project.Proc.Sleep.{wakeup1}
use os_project.Proc.Services.{Services, no_files}
use os_project.Proc.Exit.{exit_waker, leave, exit_other, exit, adopt_all}
use os_project.Proc.Exit.Family.{Kept, wake_adopt_lem}
use os_project.Proc.Exit.Ending.{
  closed, gone, gone-Kept, ended_procs, still_there, leave-eq, Ending, group-Ending,
}

module _ {D W : Type 0} ⦃S : Services W⦄ where
  -- What exit has done, seen from slot `j`: a process or thread with the caller's pid is a zombie with
  -- no file and no directory, and had a directory; another process may have been woken; and a child of
  -- the caller is now a child of init.
  pub record Exited (cur : ℕ) (k k' : Kernel D W) (j : ℕ) : Type 0 where
    pub dead : (k.procs j).pid ≡ (k.procs cur).pid → (k'.procs j).state ≡ zombie
    pub shut :
        (k.procs j).pid ≡ (k.procs cur).pid
        → ((k'.procs j).ofile ≡ no_files (k.procs j).ofile) × ((k'.procs j).cwd ≡ none)
    pub dirs : (k.procs j).pid ≡ (k.procs cur).pid → (k.procs j).cwd ≢ none
    pub others : (k.procs j).pid ≢ (k.procs cur).pid → Kept (k.procs j) (k'.procs j)
    pub parent :
        (k'.procs j).parent
        ≡ (if ptr_eq (k.procs j).parent (some cur) then k.initproc else (k.procs j).parent)

  -- The state before the parent is woken.
  ended-eq :
      (cur : ℕ) (k k1 k2 : Kernel D W) (w : W)
      → k1 ≡ modify cur closed (record k { world = w })
      → Ending cur k1 nproc k2
      → (j : ℕ) → j < nproc
      → (modify cur (λ p. record p { state = zombie }) k2).procs j
        ≡ (if (k.procs j).pid == (k.procs cur).pid then gone (k.procs j) else k.procs j)
  ended-eq cur k k1 k2 w e h j l =
      rw (owner k1 k2 h, h.ended j, e, lt→ltb j nproc l) (ended_procs k.procs cur j)
    where
      owner : (k1 k2 : Kernel D W) → Ending cur k1 nproc k2 → k2.procs cur ≡ k1.procs cur
      owner k1 k2 h = h.ended cur ∙ ground arith

  exit-parts :
      (cur : ℕ) (k k' : Kernel D W)
      → exit cur k ≡ ok k'
      → (k1 k2 : Kernel D W) × (whom : Ptr) × (leave cur k ≡ ok k1)
        × (for_each (exit_other cur) nproc 0 k1 ≡ ok k2)
        × (k'
            ≡ adopt_all cur
                (wakeup1 (chan_of whom) (modify cur (λ p. record p { state = zombie }) k2)))
  unfolding exit
  exit-parts cur k k' e =
      let (_, _, e0) = >>=-eq-ok (panic_if (ptr_eq (some cur) k.initproc)) _ e in
      let (k1, left, e1) = >>=-eq-ok (leave cur k) _ e0 in
      let (k2, over, e2) = >>=-eq-ok (for_each (exit_other cur) nproc 0 k1) _ e1 in
      let (whom, _, e3) =
        >>=-eq-ok (exit_waker cur (modify cur (λ p. record p { state = zombie }) k2)) _ e2 in
      (k1, k2, whom, left, over, sym (ok-injective e3))

  had_dir :
      (cur : ℕ) (k k1 k2 : Kernel D W) (w : W) (d : ℕ)
      → (k.procs cur).cwd ≡ some d
      → k1 ≡ modify cur closed (record k { world = w })
      → Ending cur k1 nproc k2
      → (j : ℕ) → j < nproc
      → (k.procs j).pid ≡ (k.procs cur).pid
      → (k.procs j).cwd ≢ none
  had_dir cur k k1 k2 w d has e h j l p = elim (Bool-cases (j == cur)) [
    | inl same ↦ let q : j ≡ cur = ground arith in rw (q, has) (λ z. cc)
    | inr other ↦
        let n : j ≢ cur = ground arith in
        let (group, dir) = still_there k.procs cur j n p in
        let here = rw (e) at h.dirs j l in λ z. here group n (dir ∙ z)
  ]

  slot-Exited :
      (cur : ℕ) (k k3 k' : Kernel D W) (j : ℕ)
      → k3.initproc ≡ k.initproc
      → k3.procs j ≡ (if (k.procs j).pid == (k.procs cur).pid then gone (k.procs j) else k.procs j)
      → ((k.procs j).pid ≡ (k.procs cur).pid → (k.procs j).cwd ≢ none)
      → Kept (k3.procs j) (k'.procs j)
      → (k'.procs j).parent
        ≡ (if ptr_eq (k3.procs j).parent (some cur) then k3.initproc else (k3.procs j).parent)
      → Exited cur k k' j
  slot-Exited cur k k3 k' j init e d kept parent =
      elim (Bool-cases ((k.procs j).pid == (k.procs cur).pid)) [
        | inl same ↦
            let was = rw same at e in
            let (state, files, dir) = gone-Kept (k.procs j) (k'.procs j) (rw was at kept) in
            record {
              dead = λ _. state;
              shut = λ _. (files, dir);
              dirs = d;
              others = λ n. absurd (ground arith);
              parent = parent ∙ rw (init, was) refl;
            }
        | inr other ↦
            let was = rw other at e in
            record {
              dead = λ p. absurd (ground arith);
              shut = λ p. absurd (ground arith);
              dirs = d;
              others = λ n. rw was at kept;
              parent = parent ∙ rw (init, was) refl;
            }
      ]

  -- Where exit comes to its end, the caller and all the processes and threads with its pid are
  -- zombies without a file or a directory, and each of them had a directory; no other process is
  -- changed, but that it may be woken; and every child of the caller, and no other process, now has
  -- init as its parent.
  pub exit-Exited :
      (cur : ℕ) (k k' : Kernel D W) → exit cur k ≡ ok k' → (j : ℕ) → j < nproc → Exited cur k k' j
  exit-Exited cur k k' e j l =
      let (k1, k2, whom, left, over, is) = exit-parts cur k k' e in
      let (w, d, has, eq) = leave-eq cur k k1 left in
      let h = group-Ending cur k1 k2 over in
      let k3 = modify cur (λ p. record p { state = zombie }) k2 in
      let (kept, parent) = wake_adopt_lem cur (chan_of whom) k3 k' j is l in
      slot-Exited cur k k3 k' j (h.init ∙ ap (λ (x : Kernel D W). x.initproc) eq)
        (ended-eq cur k k1 k2 w eq h j l) (had_dir cur k k1 k2 w d has eq h j l) kept parent
