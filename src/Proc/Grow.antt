-- ===== src/Proc/Grow.antt =====
-- growproc of xv6-public/proc.c. `cur` is the slot of myproc().
use os_project.Prelude.{
  ℕ, ◌+◌, ◌-◌, ◌%◌, ◌^◌, ◌≤◌, ◌<◌, ◌≡◌, ◌∙◌, sym, ap, refl, ◌⊎◌, inl, inr, true, false, not, ◌&&◌,
  Option, arith, lt→ltb, ◌==◌, if◌then◌else◌, Bool-cases,
}
use os_project.Prelude.Int.{ℤ, pos, negsuc, pos_part, neg_part, ltb_ℤ, eq_ℤ}
use os_project.Prelude.Outcome.{Outcome, ok, ◌>>=◌, >>=-eq-ok, ok-injective, ok-pair}
use os_project.Proc.{nproc, Proc, Kernel, modify}
use os_project.Proc.Table.{each, each_lem}
use os_project.Proc.Services.{Services}
use os_project.Proc.Fork.{failed}

-- sz + n, a `uint` plus an `int`
abbrev pub add_word : ℕ → ℤ → ℕ
add_word sz n = (sz + pos_part n + (2 ^ 32 - neg_part n)) % 2 ^ 32

module _ {D : Type 0} where
  -- one round of the loop over the other processes and threads with the caller's pid
  unfoldable pub grow_other : ℕ → ℕ → ℤ → ℕ → Proc D → Proc D
  grow_other cur pid n i p =
      if not (i == cur) && p.pid == pid then record p { sz = add_word p.sz n } else p

module _ {D W : Type 0} where
  unfoldable pub set_sizes : ℕ → ℤ → ℕ → Kernel D W → Kernel D W
  set_sizes cur n sz k =
      modify cur (λ p. record p { sz = sz })
        (record k { procs = each (grow_other cur (k.procs cur).pid n) k.procs })

  module _ ⦃S : Services W⦄ where
    -- The caller's new size, or 0.
    unfoldable pub resize : ℕ → ℤ → Kernel D W → Outcome (ℕ × W)
    resize cur n k =
        let p = k.procs cur in
        if ltb_ℤ (pos 0) n
        then S.allocuvm p.pgdir p.sz (add_word p.sz n) k.world
        else if ltb_ℤ n (pos 0)
        then S.deallocuvm p.pgdir p.sz (add_word p.sz n) k.world
        else ok (p.sz, k.world)

    unfoldable pub growproc : ℕ → ℤ → Kernel D W → Outcome (Kernel D W × ℤ)
    growproc cur n k = do
      (sz, w) ← resize cur n k
      let k' = record k { world = w }
      ok (if not (eq_ℤ n (pos 0)) && sz == 0 then (k', failed) else (set_sizes cur n sz k', pos 0))

-- What growproc relies on in allocuvm and deallocuvm, whose results are the new size, or 0 where
-- allocuvm has failed.
pub record Resizes {W : Type 0} (S : Services W) : Type 0 where
  pub grows :
      {d : Option ℕ} {old new sz : ℕ} {w w' : W}
      → old ≤ new
      → S.allocuvm d old new w ≡ ok (sz, w')
      → (sz ≡ 0) ⊎ (sz ≡ new)
  pub shrinks :
      {d : Option ℕ} {old new sz : ℕ} {w w' : W}
      → new < old
      → S.deallocuvm d old new w ≡ ok (sz, w')
      → sz ≡ new

word_up :
    (sz : ℕ) (n : ℤ)
    → ltb_ℤ (pos 0) n ≡ true
    → sz + pos_part n < 2 ^ 32
    → (add_word sz n ≡ sz + pos_part n - neg_part n) × (sz ≤ add_word sz n)
word_up sz (pos m) h b = (omega arith, omega arith)
word_up sz (negsuc m) h b = absurd (ground arith)

word_down :
    (sz : ℕ) (n : ℤ)
    → ltb_ℤ n (pos 0) ≡ true
    → sz + pos_part n < 2 ^ 32
    → neg_part n ≤ sz
    → (add_word sz n ≡ sz + pos_part n - neg_part n) × (add_word sz n < sz)
word_down sz (pos m) h b c = absurd (ground arith)
word_down sz (negsuc m) h b c = (omega arith, omega arith)

word_same :
    (sz : ℕ) (n : ℤ)
    → ltb_ℤ (pos 0) n ≡ false
    → ltb_ℤ n (pos 0) ≡ false
    → sz ≡ sz + pos_part n - neg_part n
word_same sz (pos m) h h' = ground arith
word_same sz (negsuc m) h h' = absurd (ground arith)

not_zero : (n : ℤ) → ltb_ℤ (pos 0) n ≡ true → eq_ℤ n (pos 0) ≡ false
not_zero n h = ground arith

module _ {D W : Type 0} ⦃S : Services W⦄ where
  resize-eq :
      (cur : ℕ) (n : ℤ) (k : Kernel D W) (sz : ℕ) (w : W)
      → Resizes S
      → (k.procs cur).sz + pos_part n < 2 ^ 32
      → neg_part n ≤ (k.procs cur).sz
      → resize cur n k ≡ ok (sz, w)
      → (not (eq_ℤ n (pos 0)) && sz == 0) ≡ false
      → sz ≡ (k.procs cur).sz + pos_part n - neg_part n
  unfolding resize
  resize-eq cur n k sz w laws b c e done = elim (Bool-cases (ltb_ℤ (pos 0) n)) [
    | inl up ↦
        let (is, more) = word_up (k.procs cur).sz n up b in
        elim (laws.grows more (rw up at e)) [
          | inl none_left ↦ absurd (ground (arith, not_zero n up))
          | inr new ↦ new ∙ is
        ]
    | inr not_up ↦ elim (Bool-cases (ltb_ℤ n (pos 0))) [
      | inl down ↦
          let (is, less) = word_down (k.procs cur).sz n down b c in
          laws.shrinks less (rw (not_up, down) at e) ∙ is
      | inr same ↦
          sym (ap (λ p. p.0) (ok-injective (rw (not_up, same) at e)))
          ∙ word_same (k.procs cur).sz n not_up same
    ]
  ]

add_word-eq :
    (sz : ℕ) (n : ℤ)
    → sz + pos_part n < 2 ^ 32
    → neg_part n ≤ sz
    → add_word sz n ≡ sz + pos_part n - neg_part n
add_word-eq sz (pos m) b c = omega arith
add_word-eq sz (negsuc m) b c = omega arith

module _ {D W : Type 0} where
  set_sizes-procs :
      (cur : ℕ) (n : ℤ) (sz : ℕ) (k : Kernel D W) (j : ℕ)
      → j < nproc
      → (set_sizes cur n sz k).procs j ≡ (
          if cur == j
          then record (k.procs cur) { sz = sz }
          else if (k.procs j).pid == (k.procs cur).pid
          then record (k.procs j) { sz = add_word (k.procs j).sz n }
          else k.procs j)
  unfolding set_sizes grow_other
  set_sizes-procs cur n sz k j l =
      rw
        (
          each_lem (grow_other cur (k.procs cur).pid n) k.procs j,
          each_lem (grow_other cur (k.procs cur).pid n) k.procs cur,
          lt→ltb j nproc l,
        )
        (ground arith)

  sized_slot :
      (cur : ℕ) (n : ℤ) (new : ℕ) (k : Kernel D W) (j : ℕ)
      → j < nproc
      → (k.procs cur).sz + pos_part n < 2 ^ 32
      → neg_part n ≤ (k.procs cur).sz
      → ((k.procs j).pid ≡ (k.procs cur).pid → (k.procs j).sz ≡ (k.procs cur).sz)
      → new ≡ (k.procs cur).sz + pos_part n - neg_part n
      → (set_sizes cur n new k).procs j ≡ (
          if (k.procs j).pid == (k.procs cur).pid
          then record (k.procs j) { sz = (k.procs cur).sz + pos_part n - neg_part n }
          else k.procs j)
  sized_slot cur n new k j l b c same is = elim (Bool-cases (cur == j)) [
    | inl e ↦
        let q : j ≡ cur = ground arith in
        let own : ((k.procs cur).pid == (k.procs cur).pid) ≡ true = ground arith in
        rw (set_sizes-procs cur n new k j l, e, q, own, is) refl
    | inr e ↦ elim (Bool-cases ((k.procs j).pid == (k.procs cur).pid)) [
      | inl p ↦
          let size : (k.procs j).sz ≡ (k.procs cur).sz = same (ground arith) in
          rw (set_sizes-procs cur n new k j l, e, p, size, add_word-eq (k.procs cur).sz n b c) refl
      | inr p ↦ rw (set_sizes-procs cur n new k j l, e, p) refl
    ]
  ]

module _ {D W : Type 0} ⦃S : Services W⦄ where
  -- Where allocuvm and deallocuvm return the new size or, for allocuvm, 0; the size of the caller plus
  -- the count is within the range of a `uint`; and growproc returns 0: a process or thread of the
  -- group that had the size of the caller has the new size, and nothing else is changed in it or in
  -- a process outside the group.
  pub growproc_lem :
      (cur : ℕ) (n : ℤ) (k k' : Kernel D W) (j : ℕ)
      → Resizes S
      → cur < nproc
      → j < nproc
      → (k.procs cur).sz + pos_part n < 2 ^ 32
      → neg_part n ≤ (k.procs cur).sz
      → ((k.procs j).pid ≡ (k.procs cur).pid → (k.procs j).sz ≡ (k.procs cur).sz)
      → growproc cur n k ≡ ok (k', pos 0)
      → k'.procs j ≡ (
          if (k.procs j).pid == (k.procs cur).pid
          then record (k.procs j) { sz = (k.procs cur).sz + pos_part n - neg_part n }
          else k.procs j)
  unfolding growproc
  growproc_lem cur n k k' j laws lc lj b c same e =
      let ((sz, w), sized, e1) = >>=-eq-ok (resize cur n k) _ e in
      elim (Bool-cases (not (eq_ℤ n (pos 0)) && sz == 0)) [
        | inl bad ↦ absurd (ground (arith, ok-pair (rw bad at e1)))
        | inr good ↦
            let is = resize-eq cur n k sz w laws b c sized good in
            let k'_is = (ok-pair (rw good at e1)).0 in
            ap (λ (x : Kernel D W). x.procs j) (sym k'_is)
            ∙ sized_slot cur n sz (record k { world = w }) j lj b c same is
      ]
