-- ===== src/Log/Recover.antt =====
-- recover_from_log, and restarts of the machine until one of them is not cut short.
use os_project.Prelude.{
  ℕ, ◌+◌, ◌-◌, ◌≤◌, ◌≡◌, ◌⊎◌, inl, inr, ap, sym, refl, List, [], ◌∷◌, ◌++◌, length, none, arith,
  update,
}
use mathlib.Core.Path.{subst}
use os_project.Log.Power.{Block, Disk, Powered, on, off, Machine, bread, bwrite}
use os_project.Log.{
  Log, read_head, write_head, install_from, install_trans, recover_from_log, commit,
}
use os_project.Log.Header.{listed}
use os_project.Log.Holds.{Ends, went, cut, Ends->>=, on-Ends, IsHome, Holds, written, off-Ends}
use os_project.Log.Install.{Installing, install_from-Ends}
use os_project.Log.Commit.{Ready, Committed, erase-Ends, commit-Ends}

-- The machine after the power has come back, which lasts for `writes` writes.
abbrev pub boot : Disk → ℕ → Machine
boot d writes = record { disk = d; cache = λ _. none; writes = writes }

recovering :
    (start size : ℕ) (f d : Disk) (n : ℕ)
    → Holds start size f d
    → Installing start size 0 (listed (d start)) f (boot d n)
recovering start size f d n h =
    subst (λ bs. Installing start size 0 bs f (boot d n)) (sym h.head)
      (record {
        holds = h;
        fits = omega (arith, h.short);
        homes = h.homes;
        logged = h.logged;
        done = h.rest;
        clean = λ b lo hi. refl;
        clean_rest = λ b hc free. refl;
      })

-- Recovery goes on with the contents that the disk holds and with an empty log, or another cut
-- leaves a disk that still holds them.
pub recover-Ends :
    (l : Log) (f d : Disk) (n : ℕ)
    → Holds l.start l.size f d
    → Ends
        (λ (r : Log × Machine). Committed l.start l.size f r.0 r.1)
        (Holds l.start l.size f)
        (recover_from_log l (boot d n))
unfolding recover_from_log install_trans read_head bread
recover-Ends l f d n h =
    Ends->>= _ _
      (install_from-Ends l.start l.size 0 (read_head l (boot d n)).blocks f (boot d n)
        (recovering l.start l.size f d n h))
      (λ m1 g.
        Ends->>= _ _ (erase-Ends (record (read_head l (boot d n)) { blocks = [] }) f m1 refl g)
          (λ m2 g2. went _ g2))

bwrite-on :
    (b : ℕ) (w : Block) (m : Machine)
    → 1 ≤ m.writes
    → bwrite b w m ≡ on (written m b w (m.writes - 1))
unfolding bwrite
bwrite-on b w m l = ground arith

install_from-on :
    (start tail : ℕ) (bs : List ℕ) (m : Machine)
    → length bs ≤ m.writes
    → (m' : Machine) × (install_from start tail bs m ≡ on m') × (m'.writes + length bs ≡ m.writes)
unfolding install_from
install_from-on start tail [] m l = (m, refl, omega arith)
install_from-on start tail (b ∷ bs) m l =
    let w = bread m (start + tail + 1) in
    let m1 = written m b w (m.writes - 1) in
    let (m', e, left) = install_from-on start (tail + 1) bs m1 (omega arith) in
    (m', rw (bwrite-on b w m (omega arith)) e, omega arith)

recover-runs :
    (l : Log) (f d : Disk) (n : ℕ)
    → Holds l.start l.size f d
    → l.size ≤ n
    → (r : Log × Machine) × (recover_from_log l (boot d n) ≡ on r)
unfolding recover_from_log install_trans read_head write_head bread
recover-runs l f d n h enough =
    let (m1, e, left) =
      install_from-on l.start 0 (listed (d l.start)) (boot d n)
        (omega (arith, h.short, ap length h.head)) in
    let w : Block = update (bread m1 l.start) 0 0 in
    (
      (record l { blocks = [] }, written m1 l.start w (m1.writes - 1)),
      rw (e, bwrite-on l.start w m1 (omega (arith, h.short, ap length h.head))) refl,
    )

-- Where the log of the disk fits into the log's blocks and replaying it gives the contents `f`: with
-- power for as many writes as the log has blocks, recovery goes on. The log is then empty, in memory
-- and on the disk, no buffer is dirty, and every block outside the log holds its contents of `f`.
pub recover-on :
    (l : Log) (f d : Disk) (n : ℕ)
    → Holds l.start l.size f d
    → l.size ≤ n
    → (l' : Log) × (m' : Machine) × (recover_from_log l (boot d n) ≡ on (l', m'))
      × Committed l.start l.size f l' m'
recover-on l f d n h enough =
    let (r, e) = recover-runs l f d n h enough in
    let ends = recover-Ends l f d n h in (r.0, r.1, e, on-Ends (rw e at ends))

-- The disk after a recovery, or what `again` makes of the disk that a cut of it leaves.
abbrev then_again : (Disk → Disk) → Powered (Log × Machine) → Disk
then_again again (on (l, m)) = m.disk
then_again again (off d) = again d

-- The machine starts again and again, and each time recovers for as long as the power lasts.
pub restart : Log → Disk → List ℕ → Disk
restart l d [] = d
restart l d (n ∷ ns) = then_again (λ d'. restart l d' ns) (recover_from_log l (boot d n))

then_again-home :
    (start size : ℕ) (f : Disk) (again : Disk → Disk) (b : ℕ) (r : Powered (Log × Machine))
    → IsHome start size b
    → Ends (λ (r : Log × Machine). Committed start size f r.0 r.1) (Holds start size f) r
    → ((d : Disk) → Holds start size f d → again d b ≡ f b)
    → then_again again r b ≡ f b
then_again-home start size f again b (on (l, m)) hb (went _ g) next = g.home b hb
then_again-home start size f again b (off d) hb (cut _ h) next = next d h

recovered-home :
    (start size : ℕ) (f : Disk) (again : Disk → Disk) (b : ℕ) (r : Powered (Log × Machine))
    (a : Log × Machine)
    → IsHome start size b
    → Ends (λ (r : Log × Machine). Committed start size f r.0 r.1) (Holds start size f) r
    → r ≡ on a
    → then_again again r b ≡ f b
recovered-home start size f again b (on (l, m)) a hb (went _ g) e = g.home b hb
recovered-home start size f again b (off d) a hb h e = cc

restart_lem :
    (l : Log) (f : Disk) (ns : List ℕ) (n : ℕ) (d : Disk)
    → Holds l.start l.size f d
    → l.size ≤ n
    → (b : ℕ) → IsHome l.start l.size b
    → restart l d (ns ++ n ∷ []) b ≡ f b
unfolding restart
restart_lem l f [] n d h enough b hb =
    let (a, e) = recover-runs l f d n h enough in
    recovered-home l.start l.size f (λ d'. d') b (recover_from_log l (boot d n)) a hb
      (recover-Ends l f d n h) e
restart_lem l f (k ∷ ns) n d h enough b hb =
    then_again-home l.start l.size f (λ d'. restart l d' (ns ++ n ∷ [])) b
      (recover_from_log l (boot d k)) hb (recover-Ends l f d k h)
      (λ d' h'. restart_lem l f ns n d' h' enough b hb)

-- Where the log on the disk is empty, the logged blocks fit into the log and lie outside its
-- log.size blocks, and the dirty buffers are theirs: however often the power is cut during a
-- commit and the recoveries after it, the first recovery with power for log.size writes leaves
-- outside the log either all the old contents or all the new ones.
pub commit_atomic :
    (l : Log) (f : Disk) (m : Machine) (d : Disk) (ns : List ℕ) (n : ℕ)
    → Ready l f m
    → commit l m ≡ off d
    → l.size ≤ n
    → ((b : ℕ) → IsHome l.start l.size b → restart l d (ns ++ n ∷ []) b ≡ m.disk b)
      ⊎ ((b : ℕ) → IsHome l.start l.size b → restart l d (ns ++ n ∷ []) b ≡ f b)
commit_atomic l f m d ns n r e enough =
    let ends = commit-Ends l f m r in
    elim (off-Ends (rw e at ends)) [
      | inl old ↦ inl (restart_lem l m.disk ns n d old enough)
      | inr new ↦ inr (restart_lem l f ns n d new enough)
    ]
