-- ===== src/Proc/Alloc/Laws.antt =====
-- What allocproc hands out: a free slot, and a pid and a thread number that nobody else has.
use os_project.Prelude.{
  ℕ, zero, suc, ◌+◌, ◌≤◌, ◌<◌, ◌≡◌, ◌≢◌, refl, ◌∙◌, ◌⊎◌, inl, inr, Bool, true, false, Option, none,
  some, arith, Bool-cases, Option-cases,
}
use native.Mathlib.Decide.{dec_lt}
use os_project.Double.{Double}
use os_project.Proc.{nproc, unused, embryo, state_eq, Proc, Kernel}
use os_project.Proc.Services.{Services}
use os_project.Proc.Alloc.{find_from, free_slot, new_proc, take_tid, claim, give_stack, allocproc}

-- The search finds the first index that passes the test, if one does.
pub data Searched (test : ℕ → Bool) (i n : ℕ) (r : Option ℕ) : Type 0 where
  found :
      (j : ℕ)
      → r ≡ some j
      → i ≤ j
      → j < i + n
      → test j ≡ true
      → ((h : ℕ) → i ≤ h → h < j → test h ≡ false)
      → Searched test i n r
  missing : r ≡ none → ((h : ℕ) → i ≤ h → h < i + n → test h ≡ false) → Searched test i n r

-- A failed test, put before a range of failed tests.
before_range :
    (test : ℕ → Bool) (i m : ℕ)
    → test i ≡ false
    → ((h : ℕ) → i + 1 ≤ h → h < m → test h ≡ false)
    → (h : ℕ) → i ≤ h
    → h < m
    → test h ≡ false
before_range test i m miss rest h a b = elim (dec_lt i h) [
  | yes l ↦ rest h (omega arith) b
  | no l ↦ let e : i ≡ h = omega arith in rw e at miss
]

extend :
    (test : ℕ → Bool) (i n : ℕ) {r : Option ℕ}
    → test i ≡ false
    → Searched test (i + 1) n r
    → Searched test i (suc n) r
extend test i n miss (found j e a b t before) =
    found j e (omega arith) (omega arith) t (before_range test i j miss before)
extend test i n miss (missing e rest) =
    missing e (λ h a b. before_range test i (i + 1 + n) miss rest h a (omega arith))

pub find_from-Searched : (test : ℕ → Bool) (n i : ℕ) → Searched test i n (find_from test n i)
unfolding find_from
find_from-Searched test zero i = missing refl (λ h a b. absurd (omega arith))
find_from-Searched test (suc n) i = elim (Bool-cases (test i)) [
  | inl hit ↦ rw hit (found i refl (omega arith) (omega arith) hit (λ h a b. absurd (omega arith)))
  | inr miss ↦ rw miss (extend test i n miss (find_from-Searched test n (i + 1)))
]

-- Every process that is in use has a pid that has been handed out.
abbrev pub IsNumbered : {D W : Type 0} → Kernel D W → Type 0
IsNumbered k = (j : ℕ) → (k.procs j).state ≢ unused → (k.procs j).pid < k.nextpid

module _ {D W : Type 0} ⦃F : Double D⦄ ⦃S : Services W⦄ where
  -- A process that allocproc has set up in slot `i`.
  pub record IsNew (i : ℕ) (k k' : Kernel D W) : Type 0 where
    pub in_table : i < nproc
    pub was_free : (k.procs i).state ≡ unused
    pub first : (j : ℕ) → j < i → (k.procs j).state ≢ unused
    pub is_embryo : (k'.procs i).state ≡ embryo
    pub pid : (k'.procs i).pid ≡ k.nextpid
    pub next : k'.nextpid ≡ k.nextpid + 1
    pub queued :
        ((k'.procs i).is_mlfq ≡ true)
        × ((k'.procs i).priority ≡ 0)
        × ((k'.procs i).pticks ≡ 0)
        × ((k'.procs i).ptotalticks ≡ 0)
    pub others : (j : ℕ) → j ≢ i → k'.procs j ≡ k.procs j

  -- What is left if no slot is free, and what is done to the first one that is.
  allocproc-cases :
      (k : Kernel D W)
      → ((allocproc k ≡ (none, k)) × ((j : ℕ) → j < nproc → (k.procs j).state ≢ unused))
        ⊎ ((i : ℕ) × (i < nproc)
            × ((k.procs i).state ≡ unused)
            × ((j : ℕ) → j < i → (k.procs j).state ≢ unused)
            × (allocproc k ≡ give_stack i (claim i k)))
  unfolding allocproc free_slot
  allocproc-cases k = elim (find_from-Searched (λ i. state_eq (k.procs i).state unused) nproc 0) [
    | missing e full ↦ inl (rw (e, allocproc), λ j l u. absurd (busy j (full j (omega arith) l) u))
    | found i e a b t before ↦ inr (
      i,
      b,
      ground arith,
      (λ j l u. absurd (busy j (before j (omega arith) l) u)),
      rw (e, allocproc),
    )
  ]
    where
      busy : (j : ℕ) → state_eq (k.procs j).state unused ≡ false → (k.procs j).state ≢ unused
      busy j h u = ground arith

  world-claim : (i : ℕ) (k : Kernel D W) → (claim i k).world ≡ k.world
  unfolding claim take_tid
  world-claim i k = ground arith

  claim-IsNew :
      (i : ℕ) (k : Kernel D W)
      → i < nproc
      → (k.procs i).state ≡ unused
      → ((j : ℕ) → j < i → (k.procs j).state ≢ unused)
      → IsNew i k (claim i k)
  unfolding claim take_tid new_proc
  claim-IsNew i k l free first = record {
    in_table = l;
    was_free = free;
    first = first;
    is_embryo = ground arith;
    pid = ground arith;
    next = ground arith;
    queued = (ground arith, ground arith, ground arith, ground arith);
    others = λ j ne. ground arith;
  }

  give_stack-some :
      (i a : ℕ) (k k' : Kernel D W)
      → IsNew i k k'
      → (S.kalloc k'.world).0 ≡ some a
      → ((give_stack i k').0 ≡ some i) × IsNew i k (give_stack i k').1
  unfolding give_stack
  give_stack-some i a k k' v e =
      rw (e, give_stack)
        (
          refl,
          record {
            in_table = v.in_table;
            was_free = v.was_free;
            first = v.first;
            is_embryo = ground arith;
            pid = ground (arith, v.pid);
            next = v.next;
            queued = (
              ground (arith, v.queued.0),
              ground (arith, v.queued.1),
              ground (arith, v.queued.2),
              ground (arith, v.queued.3),
            );
            others = λ j ne. ground (arith, v.others j ne);
          },
        )

  -- The slot is free again, but the entry of ttable stays taken.
  give_stack-none :
      (i : ℕ) (k : Kernel D W)
      → (S.kalloc k.world).0 ≡ none
      → ((give_stack i k).0 ≡ none)
        × ((give_stack i k).1.tids ≡ k.tids)
        × (((give_stack i k).1.procs i).state ≡ unused)
        × ((j : ℕ) → j ≢ i → (give_stack i k).1.procs j ≡ k.procs j)
  unfolding give_stack
  give_stack-none i k e = rw (e, give_stack) (refl, refl, ground arith, λ j ne. ground arith)

  kept :
      (i : ℕ) (k : Kernel D W) {p : Proc D}
      → (k.procs i).state ≡ unused
      → (j : ℕ) → (k.procs j).state ≢ unused
      → (j ≢ i → p ≡ (claim i k).procs j)
      → p ≡ k.procs j
  unfolding claim take_tid
  kept i k free j used same = let ne : j ≢ i = λ e. used (rw e free) in same ne ∙ ground arith

  -- allocproc either finds no slot of the table free and changes nothing; or finds the first free
  -- one and no page for its stack, returns null and leaves every process in use; or returns that slot, set up as an embryo at
  -- the first level of the MLFQ under the next pid, with no other slot changed.
  pub allocproc_lem :
      (k : Kernel D W)
      → ((allocproc k ≡ (none, k)) × ((j : ℕ) → j < nproc → (k.procs j).state ≢ unused))
        ⊎ (((allocproc k).0 ≡ none)
            × ((S.kalloc k.world).0 ≡ none)
            × ((j : ℕ) → (k.procs j).state ≢ unused → (allocproc k).1.procs j ≡ k.procs j))
        ⊎ ((i : ℕ) × ((allocproc k).0 ≡ some i) × IsNew i k (allocproc k).1)
  allocproc_lem k = elim (allocproc-cases k) [
    | inl full ↦ inl full
    | inr (i, l, free, first, e) ↦ elim (Option-cases (S.kalloc (claim i k).world).0) [
      | inl no_page ↦
          let (null, _, _, same) = give_stack-none i (claim i k) no_page in
          inr (
            inl (
              rw e null,
              rw (world-claim i k) at no_page,
              λ j used. rw e (kept i k free j used (same j)),
            ))
      | inr (a, page) ↦
          let (is, new) = give_stack-some i a k (claim i k) (claim-IsNew i k l free first) page in
          inr (inr (i, rw e is, rw e new))
    ]
  ]
