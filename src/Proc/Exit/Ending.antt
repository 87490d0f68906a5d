-- ===== src/Proc/Exit/Ending.antt =====
-- The loop of exit over the processes and threads with the caller's pid.
use os_project.Prelude.{
  ℕ, ◌+◌, ◌<◌, ◌≡◌, ◌≢◌, ◌∙◌, sym, ap, refl, inl, inr, not, ◌&&◌, none, some, arith, ltb, ◌==◌,
  if◌then◌else◌, Bool-cases, below_suc,
}
use os_project.Prelude.Outcome.{
  ok, deref, >>=-eq-ok, ok-injective, deref-eq-ok, for_each, for_each_inv,
}
use os_project.Proc.{nproc, zombie, Proc, Kernel, update, modify}
use os_project.Proc.Services.{Services, close_files, no_files}
use os_project.Proc.Exit.{leave, exit_other}
use os_project.Proc.Exit.Family.{Kept}

module _ {D : Type 0} where
  -- A process without its files and its directory, and one that has exited.
  abbrev pub closed : Proc D → Proc D
  closed p = record p { ofile = no_files p.ofile; cwd = none }

  abbrev pub gone : Proc D → Proc D
  gone p = record (closed p) { state = zombie }

  pub gone-Kept :
      (p q : Proc D)
      → Kept (gone p) q
      → (q.state ≡ zombie) × (q.ofile ≡ no_files p.ofile) × (q.cwd ≡ none)
  gone-Kept p q kept = (
    elim kept.woken [ inl e ↦ e | inr (z, _) ↦ cc ],
    ap (λ (x : Proc D). x.ofile) kept.same,
    ap (λ (x : Proc D). x.cwd) kept.same,
  )

  pub ended_procs :
      (t : ℕ → Proc D) (cur j : ℕ)
      → (let t1 = update t cur (closed (t cur)) in
          if cur == j
          then record (t1 cur) { state = zombie }
          else if (t1 j).pid == (t1 cur).pid && not (j == cur)
          then gone (t1 j)
          else t1 j)
        ≡ (if (t j).pid == (t cur).pid then gone (t j) else t j)
  ended_procs t cur j = ground arith

  pub still_there :
      (t : ℕ → Proc D) (cur j : ℕ)
      → j ≢ cur
      → (t j).pid ≡ (t cur).pid
      → ((update t cur (closed (t cur)) j).pid ≡ (update t cur (closed (t cur)) cur).pid)
        × ((update t cur (closed (t cur)) j).cwd ≡ (t j).cwd)
  still_there t cur j n p = (ground arith, ground arith)

module _ {D W : Type 0} ⦃S : Services W⦄ where
  pub leave-eq :
      (i : ℕ) (k k' : Kernel D W)
      → leave i k ≡ ok k'
      → (w : W) × (d : ℕ) × ((k.procs i).cwd ≡ some d)
        × (k' ≡ modify i closed (record k { world = w }))
  unfolding leave
  leave-eq i k k' e =
      let (w, _, e1) = >>=-eq-ok (close_files (k.procs i).ofile k.world) _ e in
      let (d, has, e2) = >>=-eq-ok (deref (k.procs i).cwd) _ e1 in
      let (w', _, e3) = >>=-eq-ok (S.iput d (S.begin_op w)) _ e2 in
      let (w'', _, e4) = >>=-eq-ok (S.end_op w') _ e3 in
      (w'', d, deref-eq-ok (k.procs i).cwd has, sym (ok-injective e4))

  -- What the loop over the caller's threads has done before its round `i`.
  pub record Ending (cur : ℕ) (k : Kernel D W) (i : ℕ) (s : Kernel D W) : Type 0 where
    pub ended :
        (j : ℕ)
        → s.procs j ≡ (
            if ltb j i && ((k.procs j).pid == (k.procs cur).pid && not (j == cur))
            then gone (k.procs j)
            else k.procs j)
    pub dirs :
        (j : ℕ) → j < i → (k.procs j).pid ≡ (k.procs cur).pid → j ≢ cur → (k.procs j).cwd ≢ none
    pub init : s.initproc ≡ k.initproc

  -- What one round does: nothing, or the end of the process in slot `i`.
  exit_other-eq :
      (cur i : ℕ) (s s' : Kernel D W)
      → exit_other cur i s ≡ ok s'
      → ((j : ℕ)
          → s'.procs j ≡ (
              if i == j && ((s.procs j).pid == (s.procs cur).pid && not (j == cur))
              then gone (s.procs j)
              else s.procs j))
        × ((s.procs i).pid ≡ (s.procs cur).pid → i ≢ cur → (s.procs i).cwd ≢ none)
        × (s'.initproc ≡ s.initproc)
  unfolding exit_other
  exit_other-eq cur i s s' e =
      elim (Bool-cases ((s.procs i).pid == (s.procs cur).pid && not (i == cur))) [
        | inl hit ↦
            let (k1, e1, e2) = >>=-eq-ok (leave i s) _ (rw hit at e) in
            let (w, d, has, eq) = leave-eq i s k1 e1 in
            rw (sym (ok-injective e2), eq) ((λ j. ground arith), (λ _ _. rw has (λ q. cc)), refl)
        | inr miss ↦
            rw (sym (ok-injective (rw miss at e)))
              ((λ j. ground arith), (λ p n. absurd (ground arith)), refl)
      ]

  exit_other-Ending :
      (cur : ℕ) (k : Kernel D W) (i : ℕ) (s s' : Kernel D W)
      → Ending cur k i s
      → exit_other cur i s ≡ ok s'
      → Ending cur k (i + 1) s'
  exit_other-Ending cur k i s s' h e =
      let (ended, dirs, init) = exit_other-eq cur i s s' e in
      record {
        ended = λ j. ended j ∙ step j;
        dirs =
            below_suc (λ j. (k.procs j).pid ≡ (k.procs cur).pid → j ≢ cur → (k.procs j).cwd ≢ none)
              i h.dirs (here dirs);
        init = init ∙ h.init;
      }
    where
      owner : s.procs cur ≡ k.procs cur
      owner = h.ended cur ∙ ground arith

      here :
          ((s.procs i).pid ≡ (s.procs cur).pid → i ≢ cur → (s.procs i).cwd ≢ none)
          → (k.procs i).pid ≡ (k.procs cur).pid
          → i ≢ cur
          → (k.procs i).cwd ≢ none
      here dirs =
          let same : s.procs i ≡ k.procs i = h.ended i ∙ ground arith in rw (same, owner) at dirs

      step :
          (j : ℕ)
          → (if i == j && ((s.procs j).pid == (s.procs cur).pid && not (j == cur))
              then gone (s.procs j)
              else s.procs j)
            ≡ (if ltb j (i + 1) && ((k.procs j).pid == (k.procs cur).pid && not (j == cur))
                then gone (k.procs j)
                else k.procs j)
      step j = rw (owner, h.ended j) (ground arith)

  -- The whole loop, from the state that the caller has left its files in.
  pub group-Ending :
      (cur : ℕ) (k s : Kernel D W)
      → for_each (exit_other cur) nproc 0 k ≡ ok s
      → Ending cur k nproc s
  group-Ending cur k s e =
      for_each_inv (Ending cur k) (exit_other cur) nproc 0 nproc k s refl
        (λ i b c l h r. exit_other-Ending cur k i b c h r)
        (record { ended = λ j. ground arith; dirs = λ j l. absurd (omega arith); init = refl }) e
