-- ===== src/Proc/Wait/Finds.antt =====
-- When wait finds an exited child.
use os_project.Prelude.{
  ℕ, zero, suc, ◌+◌, ◌<◌, ◌≤◌, ◌≡◌, ◌≢◌, ◌∙◌, sym, refl, inl, inr, Bool, true, false, not, ◌&&◌,
  some, none, arith, ◌==◌, if◌then◌else◌, Bool-cases,
}
use os_project.Prelude.Int.{pos}
use os_project.Prelude.Outcome.{ok, >>=-eq-ok, ok-injective}
use os_project.Double.{Double}
use os_project.Proc.{nproc, unused, zombie, state_eq, ptr_eq, Kernel, modify}
use os_project.Proc.Services.{Services}
use os_project.Proc.Wait.{
  Scan, reset_proc, dead_thread, release_tid, return_share, killsamepid, reap_share, reap,
  wait_scan,
}
use os_project.Proc.Wait.Frees.{killsamepid_lem}
use os_project.Proc.Wait.Skipped.{
  kept, cleared, freed, is_ready, Found, Passed, Scanned, IsMarked, Passed-IsMarked, Passed-Scanned,
  ptr_eq-some,
}

module _ {D W : Type 0} ⦃F : Double D⦄ ⦃S : Services W⦄ where
  reap_share-procs : (i : ℕ) (k : Kernel D W) → (reap_share i k).procs ≡ k.procs
  unfolding reap_share release_tid return_share
  reap_share-procs i k = ground arith

  reap-procs :
      (i : ℕ) (k k' : Kernel D W) (j : ℕ)
      → reap i k ≡ ok k'
      → k'.procs j
        ≡ (if i == j then record (reset_proc (k.procs i)) { totalshare = pos 0 } else k.procs j)
  unfolding reap
  reap-procs i k k' j e =
      let (w, _, e1) = >>=-eq-ok (S.kfree (k.procs i).kstack (reap_share i k).world) _ e in
      let (w', _, e2) =
        >>=-eq-ok (if (k.procs i).is_main_thread then S.freevm (k.procs i).pgdir w else ok w) _
          e1 in
      rw (sym (ok-injective e2), reap_share-procs i k) (ground arith)

  killsamepid-Passed : (pid : ℕ) (k k' : Kernel D W) → killsamepid pid k ≡ ok k' → Passed k k'
  unfolding reset_proc
  killsamepid-Passed pid k k' e j l = elim (Bool-cases (dead_thread pid (k.procs j))) [
    | inl hit ↦ rw (killsamepid_lem pid k k' j e l, hit) (freed (ground arith) (ground arith) refl)
    | inr miss ↦ rw (killsamepid_lem pid k k' j e l, miss) (kept refl)
  ]

  -- The child itself is no thread of its group, so killsamepid leaves it.
  child_left :
      (i : ℕ) (k k1 : Kernel D W)
      → i < nproc
      → IsMarked k
      → (k.procs i).state ≡ zombie
      → killsamepid (k.procs i).pid k ≡ ok k1
      → ((k1.procs i).is_thread && not (k1.procs i).is_main_thread) ≡ false
      → k1.procs i ≡ k.procs i
  unfolding reset_proc
  child_left i k k1 l marked dead killed main =
      elim (Bool-cases (dead_thread (k.procs i).pid (k.procs i))) [
        | inl hit ↦
            let mark = marked i l dead in
            let freed = rw (killsamepid_lem (k.procs i).pid k k1 i killed l, hit) at main in
            absurd (ground arith)
        | inr miss ↦ rw (killsamepid_lem (k.procs i).pid k k1 i killed l, miss) refl
      ]

  reap-free :
      (i : ℕ) (k k' : Kernel D W)
      → reap i k ≡ ok k'
      → ((k'.procs i).state ≡ unused) × ((k'.procs i).parent ≡ none)
  unfolding reset_proc
  reap-free i k k' e = rw (reap-procs i k k' i e) (ground arith, ground arith)

  reap-other :
      (i : ℕ) (k k' : Kernel D W) (j : ℕ) → reap i k ≡ ok k' → j ≢ i → k'.procs j ≡ k.procs j
  reap-other i k k' j e n = reap-procs i k k' j e ∙ ground arith

  thread-freed :
      (pid : ℕ) (k k1 : Kernel D W) (j : ℕ)
      → killsamepid pid k ≡ ok k1
      → j < nproc
      → dead_thread pid (k.procs j) ≡ true
      → (k1.procs j).state ≡ unused
  unfolding reset_proc
  thread-freed pid k k1 j e l h = rw (killsamepid_lem pid k k1 j e l, h) refl

  child-Found :
      (cur i : ℕ) (k k1 k' : Kernel D W)
      → i < nproc
      → IsMarked k
      → ptr_eq (k.procs i).parent (some cur) ≡ true
      → state_eq (k.procs i).state zombie ≡ true
      → killsamepid (k.procs i).pid k ≡ ok k1
      → ((k1.procs i).is_thread && not (k1.procs i).is_main_thread) ≡ false
      → reap i k1 ≡ ok k'
      → Found cur (k1.procs i).pid k k'
  child-Found cur i k k1 k' l marked child dead killed main reaped =
      let z : (k.procs i).state ≡ zombie = ground arith in
      let same = child_left i k k1 l marked z killed main in
      rw same (record {
        slot = i;
        below = l;
        child = ptr_eq-some (k.procs i).parent cur child;
        dead = z;
        is = refl;
        free = reap-free i k1 k' reaped;
        group = λ j b h. elim (Bool-cases (j == i)) [
          | inl q ↦ let e : j ≡ i = ground arith in rw e (reap-free i k1 k' reaped).0
          | inr q ↦
              rw (reap-other i k1 k' j reaped (ground arith))
                (thread-freed (k.procs i).pid k k1 j killed b h)
        ];
        others = λ j b n.
            rw (reap-other i k1 k' j reaped n) (killsamepid-Passed (k.procs i).pid k k1 killed j b);
      })

  -- A thread is not what wait is to return for.
  thread_not_ready :
      (cur i : ℕ) (k k1 : Kernel D W)
      → i < nproc
      → killsamepid (k.procs i).pid k ≡ ok k1
      → ((k1.procs i).is_thread && not (k1.procs i).is_main_thread) ≡ true
      → is_ready cur (k.procs i) ≡ false
  unfolding reset_proc
  thread_not_ready cur i k k1 l killed thread =
      elim (Bool-cases (dead_thread (k.procs i).pid (k.procs i))) [
        | inl hit ↦ ground arith
        | inr miss ↦
            let same = rw (killsamepid_lem (k.procs i).pid k k1 i killed l, miss) at thread in
            ground arith
      ]

  skip-Scanned :
      (cur n : ℕ)
      → ((i : ℕ) (h : Bool) (k : Kernel D W) (r : Scan D W)
          → i + n ≤ nproc
          → IsMarked k
          → wait_scan cur n i h k ≡ ok r
          → Scanned cur i n k r)
      → (i : ℕ) (h : Bool) (k k1 : Kernel D W) (r : Scan D W) → i + (n + 1) ≤ nproc
      → IsMarked k
      → Passed k k1
      → is_ready cur (k.procs i) ≡ false
      → wait_scan cur n (i + 1) h k1 ≡ ok r
      → Scanned cur i (suc n) k r
  skip-Scanned cur n rest i h k k1 r l marked passed here e =
      Passed-Scanned cur i n k k1 r passed here l
        (rest (i + 1) h k1 r (omega arith) (Passed-IsMarked k k1 passed marked) e)

  cleared-Passed :
      (i : ℕ) (k : Kernel D W)
      → (k.procs i).is_there_exec ≡ true
      → Passed k (modify i (λ p. record p { is_there_exec = false }) k)
  cleared-Passed i k x j l = elim (Bool-cases (i == j)) [
    | inl same ↦ let e : j ≡ i = ground arith in rw (e) (cleared x (ground arith))
    | inr other ↦ rw other (kept refl)
  ]

  Passed-refl : (k : Kernel D W) → Passed k k
  Passed-refl k j l = kept refl

  -- The scan keeps to what `Scanned` says of its two ends.
  pub wait_scan-Scanned :
      (cur n i : ℕ) (h : Bool) (k : Kernel D W) (r : Scan D W)
      → i + n ≤ nproc
      → IsMarked k
      → wait_scan cur n i h k ≡ ok r
      → Scanned cur i n k r
  unfolding wait_scan Scanned
  wait_scan-Scanned cur zero i h k r l marked e =
      rw (← ok-injective e) ((Passed-refl k), (λ j a b. absurd (omega arith)))
  wait_scan-Scanned cur (suc n) i h k r l marked e =
      elim (Bool-cases (ptr_eq (k.procs i).parent (some cur))) [
        | inr other ↦
            skip-Scanned cur n (wait_scan-Scanned cur n) i h k k r (omega arith) marked
              (Passed-refl k) (rw other refl) (rw (other, wait_scan) at e)
        | inl child ↦ elim (Bool-cases (k.procs i).is_there_exec) [
          | inl ran ↦
              skip-Scanned cur n (wait_scan-Scanned cur n) i h k
                (modify i (λ p. record p { is_there_exec = false }) k) r (omega arith) marked
                (cleared-Passed i k ran) (rw (child, ran) refl) (rw (child, ran, wait_scan) at e)
          | inr same ↦ elim (Bool-cases (state_eq (k.procs i).state zombie)) [
            | inr alive ↦
                skip-Scanned cur n (wait_scan-Scanned cur n) i true k k r (omega arith) marked
                  (Passed-refl k) (rw (child, same, alive) refl)
                  (rw (child, same, alive, wait_scan) at e)
            | inl dead ↦
                let (k1, killed, e1) =
                  >>=-eq-ok (killsamepid (k.procs i).pid k) _
                    (rw (child, same, dead, wait_scan) at e) in
                elim (Bool-cases ((k1.procs i).is_thread && not (k1.procs i).is_main_thread)) [
                  | inl thread ↦
                      skip-Scanned cur n (wait_scan-Scanned cur n) i true k k1 r (omega arith)
                        marked (killsamepid-Passed (k.procs i).pid k k1 killed)
                        (thread_not_ready cur i k k1 (omega arith) killed thread) (rw thread at e1)
                  | inr main ↦
                      let (k2, reaped, e2) = >>=-eq-ok (reap i k1) _ (rw main at e1) in
                      rw (← ok-injective e2) (
                        child-Found cur i k k1 k2 (omega arith) marked child dead killed main
                          reaped)
                ]
          ]
        ]
      ]
