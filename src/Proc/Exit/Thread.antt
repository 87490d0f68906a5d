-- ===== src/Proc/Exit/Thread.antt =====
-- What thread_exit does to the thread and to the process that may wait for it.
use os_project.Prelude.{
  ℕ, ◌<◌, ◌≡◌, ◌≢◌, ◌∙◌, sym, ap, refl, true, none, some, arith, if◌then◌else◌,
}
use os_project.Prelude.Outcome.{ok, panic_if, >>=-eq-ok, ok-injective}
use os_project.Proc.{
  nproc, sleeping, runnable, zombie, ptr_eq, Chan, chan_of, chan_eq, Proc, Kernel, modify,
}
use os_project.Proc.Sleep.{wakeup1}
use os_project.Proc.Services.{Services, no_files}
use os_project.Proc.Exit.{exit, leave, thread_exit, adopt_all}
use os_project.Proc.Exit.Family.{Kept, wake_adopt_lem, wake_adopt-woken}
use os_project.Proc.Exit.Group.{exit-Exited}
use os_project.Proc.Exit.Ending.{closed, leave-eq}

module _ {D W : Type 0} ⦃S : Services W⦄ where
  -- The thread in slot `cur` has exited with `retval`.
  pub record ThreadExited (cur retval : ℕ) (k k' : Kernel D W) : Type 0 where
    pub dead : (k'.procs cur).state ≡ zombie
    pub id : (k'.procs cur).pid ≡ (k.procs cur).pid
    pub result : (k'.procs cur).retval ≡ retval
    pub shut : ((k'.procs cur).ofile ≡ no_files (k.procs cur).ofile) × ((k'.procs cur).cwd ≡ none)
    pub others : (j : ℕ) → j < nproc → j ≢ cur → Kept (k.procs j) (k'.procs j)
    pub woken :
        (j : ℕ)
        → j < nproc
        → j ≢ cur
        → (k.procs j).state ≡ sleeping
        → chan_eq (k.procs j).chan (chan_of (k.procs cur).parent) ≡ true
        → (k'.procs j).state ≡ runnable
    pub orphans :
        (j : ℕ)
        → j < nproc
        → (k'.procs j).parent
          ≡ (if ptr_eq (k.procs j).parent (some cur) then k.initproc else (k.procs j).parent)

  -- The state in which the process that joins is woken.
  abbrev left_with : ℕ → ℕ → W → Kernel D W → Kernel D W
  left_with cur retval w k =
      modify cur (λ p. record p { retval = retval }) (modify cur closed (record k { world = w }))

  left_other :
      (cur retval : ℕ) (w : W) (k : Kernel D W) (j : ℕ)
      → j ≢ cur
      → (left_with cur retval w k).procs j ≡ k.procs j
  left_other cur retval w k j n = ground arith

  left_self :
      (cur retval : ℕ) (w : W) (k : Kernel D W)
      → (left_with cur retval w k).procs cur ≡ record (closed (k.procs cur)) { retval = retval }
  left_self cur retval w k = ground arith

  left-parent :
      (cur retval : ℕ) (w : W) (k : Kernel D W) (j : ℕ)
      → ((left_with cur retval w k).procs j).parent ≡ (k.procs j).parent
  left-parent cur retval w k j = ground arith

  set_zombie :
      (cur : ℕ) (k3 k' : Kernel D W)
      → k' ≡ modify cur (λ p. record p { state = zombie }) k3
      → (k'.procs cur ≡ record (k3.procs cur) { state = zombie })
        × ((j : ℕ) → j ≢ cur → k'.procs j ≡ k3.procs j)
        × ((j : ℕ) → (k'.procs j).parent ≡ (k3.procs j).parent)
  set_zombie cur k3 k' is = rw is ((ground arith), (λ j n. ground arith), (λ j. ground arith))

  exited_with :
      (cur retval : ℕ) (w : W) (k k3 k' : Kernel D W)
      → cur < nproc
      → k3
        ≡ adopt_all cur (
            wakeup1
              (chan_of ((left_with cur retval w k).procs cur).parent)
              (left_with cur retval w k))
      → k' ≡ modify cur (λ p. record p { state = zombie }) k3
      → ThreadExited cur retval k k'
  exited_with cur retval w k k3 k' b e is =
      let (self, other, parents) = set_zombie cur k3 k' is in
      let (mine, _) = wake_adopt_lem cur chan k2 k3 cur e b in
      let same = rw (left_self cur retval w k) at mine.same in
      record {
        dead = ap (λ (x : Proc D). x.state) self;
        id = ap (λ (x : Proc D). x.pid) self ∙ ap (λ (x : Proc D). x.pid) same;
        result = ap (λ (x : Proc D). x.retval) self ∙ ap (λ (x : Proc D). x.retval) same;
        shut = (
          ap (λ (x : Proc D). x.ofile) self ∙ ap (λ (x : Proc D). x.ofile) same,
          ap (λ (x : Proc D). x.cwd) self ∙ ap (λ (x : Proc D). x.cwd) same,
        );
        others = λ j l n.
            rw (other j n, ← left_other cur retval w k j n)
              ((wake_adopt_lem cur chan k2 k3 j e l).0);
        woken = λ j l n asleep on. rw (other j n) (
            wake_adopt-woken cur chan k2 k3 j e l (rw (left_other cur retval w k j n) asleep)
              (rw (left_other cur retval w k j n, left-parent cur retval w k cur) on));
        orphans = λ j l.
            parents j
            ∙ (wake_adopt_lem cur chan k2 k3 j e l).1
            ∙ rw (left-parent cur retval w k j) refl;
      }
    where
      k2 : Kernel D W
      k2 = left_with cur retval w k

      chan : Chan
      chan = chan_of (k2.procs cur).parent

  -- Where thread_exit comes to its end, the thread is a zombie that holds the value and no file or
  -- directory; a process that sleeps on the address of the thread's creator is runnable; no other
  -- process is changed, but that it may be woken, or that init takes the place of the thread as its
  -- parent.
  pub thread_exit-ThreadExited :
      (cur retval : ℕ) (k k' : Kernel D W)
      → cur < nproc
      → thread_exit cur retval k ≡ ok k'
      → ThreadExited cur retval k k'
  unfolding thread_exit
  thread_exit-ThreadExited cur retval k k' b e =
      let (_, _, e0) = >>=-eq-ok (panic_if (ptr_eq (some cur) k.initproc)) _ e in
      let (k1, left, e1) = >>=-eq-ok (leave cur k) _ e0 in
      let (w, d, has, eq) = leave-eq cur k k1 left in
      let k2 : Kernel D W = modify cur (λ p. record p { retval = retval }) k1 in
      let k3 : Kernel D W = adopt_all cur (wakeup1 (chan_of (k2.procs cur).parent) k2) in
      exited_with cur retval w k k3 k' b
        (ap
          (λ (x : Kernel D W). adopt_all cur (
            wakeup1 (chan_of ((modify cur (λ p. record p { retval = retval }) x).procs cur).parent)
              (modify cur (λ p. record p { retval = retval }) x)))
          eq)
        (sym (ok-injective e1))

  -- Where a thread has ended by thread_exit and is not joined, exit of another process or thread with
  -- its pid does not come to its end: it gives iput the null directory of the exited thread.
  pub thread_exit-exit :
      (t retval j : ℕ) (k k1 k2 : Kernel D W)
      → t < nproc
      → j < nproc
      → j ≢ t
      → (k.procs j).pid ≡ (k.procs t).pid
      → thread_exit t retval k ≡ ok k1
      → exit j k1 ≢ ok k2
  thread_exit-exit t retval j k k1 k2 a b n p e e2 =
      let left = thread_exit-ThreadExited t retval k k1 a e in
      let id : (k1.procs j).pid ≡ (k.procs j).pid =
        ap (λ (x : Proc D). x.pid) (left.others j b n).same in
      (exit-Exited j k1 k2 e2 t a).dirs (left.id ∙ sym p ∙ sym id) left.shut.1
