-- ===== src/Sched/MinPass.antt =====
-- findMinPass of xv6-public/proc.c: which scheduler runs next, and which stride process.
use os_project.Prelude.{
  ℕ, ◌+◌, ◌≤◌, ◌<◌, ◌≡◌, refl, ◌⊎◌, inl, inr, Bool, true, false, not, ◌&&◌, none, some, arith,
  if◌then◌else◌, for_range, for_range_inv, Bool-cases, below_suc,
}
use os_project.Double.{Double, of_uint, IsNonneg, Truncates}
use os_project.Proc.{nproc, runnable, state_eq, Ptr, Proc, Kernel}

-- the loop's variables `max` and `min`
pub record Best : Type 0 where
  pub max : ℕ
  pub min : Ptr

-- the initial value of `max`
abbrev pub pass_limit : ℕ
pass_limit = 3000000000

-- what the loop does not skip
abbrev pub stride_ready : {D : Type 0} → Proc D → Bool
stride_ready p = not p.is_mlfq && state_eq p.state runnable

-- A process that stride scheduling may run.
abbrev pub HoldsShare : {D : Type 0} → Proc D → Type 0
HoldsShare p = (p.is_mlfq ≡ false) × (p.state ≡ runnable)

HoldsShare-of : {D : Type 0} (p : Proc D) → stride_ready p ≡ true → HoldsShare p
HoldsShare-of p h = ground arith

not-HoldsShare : {D : Type 0} (p : Proc D) → stride_ready p ≡ false → ¬ HoldsShare p
not-HoldsShare p h s = ground arith

module _ {D : Type 0} ⦃F : Double D⦄ where
  pub min_step : (ℕ → Proc D) → ℕ → Best → Best
  min_step t i b =
      if stride_ready (t i)
      then (if F.lt (t i).pass (of_uint F b.max)
          then record { max = F.to_uint (t i).pass; min = some i }
          else b)
      else b

  unfoldable pub find_min_pass : {W : Type 0} → Kernel D W → Ptr
  unfolding min_step
  find_min_pass k =
      let b = for_range nproc 0 (min_step k.procs) (record { max = pass_limit; min = none }) in
      if F.lt k.mlfq_pass (of_uint F b.max) then none else b.min

  -- Slot `m` can run, and no slot below `n` that can run has a pass under the whole part of its
  -- own pass.
  pub record IsMin (t : ℕ → Proc D) (n m : ℕ) : Type 0 where
    pub below : m < n
    pub ready : HoldsShare (t m)
    pub under : F.lt (t m).pass (of_uint F pass_limit) ≡ true
    pub least :
        (j : ℕ)
        → j < n
        → HoldsShare (t j)
        → F.lt (t j).pass (of_uint F (F.to_uint (t m).pass)) ≡ false

  -- No slot below `n` that can run has a pass under the limit.
  abbrev pub NoneUnder : (ℕ → Proc D) → ℕ → Type 0
  NoneUnder t n =
      (j : ℕ) → j < n → HoldsShare (t j) → F.lt (t j).pass (of_uint F pass_limit) ≡ false

  data Scanned (t : ℕ → Proc D) (n : ℕ) (b : Best) : Type 0 where
    found :
        (m : ℕ)
        → b ≡ record { max = F.to_uint (t m).pass; min = some m }
        → IsMin t n m
        → Scanned t n b
    empty : b ≡ record { max = pass_limit; min = none } → NoneUnder t n → Scanned t n b

  not_lt_mono :
      (L : Truncates F) (x : D) (m n : ℕ)
      → m ≤ n
      → F.lt x (of_uint F n) ≡ false
      → F.lt x (of_uint F m) ≡ false
  not_lt_mono L x m n h no_lt = elim (Bool-cases (F.lt x (of_uint F m))) [
    | inl e ↦ cc (L.lt_mono x m n h e)
    | inr e ↦ e
  ]

  module _ (L : Truncates F) {t : ℕ → Proc D} (nonneg : (j : ℕ) → IsNonneg F (t j).pass) where
    -- The slot that the loop has just reached becomes the minimum.
    IsMin-new :
        (n max : ℕ)
        → max ≤ pass_limit
        → HoldsShare (t n)
        → F.lt (t n).pass (of_uint F max) ≡ true
        → ((j : ℕ) → j < n → HoldsShare (t j) → F.lt (t j).pass (of_uint F max) ≡ false)
        → IsMin t (n + 1) n
    IsMin-new n max small ready lower least = record {
      below = omega arith;
      ready = ready;
      under = L.lt_mono _ _ _ small lower;
      least =
          below_suc _ n
            (λ j l r. not_lt_mono L _ _ max (L.trunc_mono _ _ (nonneg n) lower) (least j l r))
            (λ _. L.trunc_le _ (nonneg n));
    }

    IsMin-kept :
        {n m : ℕ}
        → IsMin t n m
        → (HoldsShare (t n) → F.lt (t n).pass (of_uint F (F.to_uint (t m).pass)) ≡ false)
        → IsMin t (n + 1) m
    IsMin-kept {n} s h = record {
      below = omega arith;
      ready = s.ready;
      under = s.under;
      least = below_suc _ n s.least h;
    }

    scan_step : (n : ℕ) (b : Best) → Scanned t n b → Scanned t (n + 1) (min_step t n b)
    unfolding min_step
    scan_step n b (found m e s) = rw e (elim (Bool-cases (stride_ready (t n))) [
      | inr skip ↦ rw skip (found m refl (IsMin-kept s (λ r. absurd (not-HoldsShare (t n) skip r))))
      | inl ready ↦ elim (Bool-cases (F.lt (t n).pass (of_uint F (F.to_uint (t m).pass)))) [
        | inl lower ↦
            rw (ready, lower)
              (found n refl (
                IsMin-new n _ (L.trunc_mono _ _ (nonneg m) s.under) (HoldsShare-of (t n) ready)
                  lower s.least))
        | inr higher ↦ rw (ready, higher) (found m refl (IsMin-kept s (λ _. higher)))
      ]
    ])
    scan_step n b (empty e s) = rw e (elim (Bool-cases (stride_ready (t n))) [
      | inr skip ↦
          rw skip (empty refl (below_suc _ n s (λ r. absurd (not-HoldsShare (t n) skip r))))
      | inl ready ↦ elim (Bool-cases (F.lt (t n).pass (of_uint F pass_limit))) [
        | inl lower ↦
            rw (ready, lower)
              (found n refl (IsMin-new n _ (omega arith) (HoldsShare-of (t n) ready) lower s))
        | inr higher ↦ rw (ready, higher) (empty refl (below_suc _ n s (λ _. higher)))
      ]
    ])

    -- What the loop over the whole table leaves.
    scanned :
        Scanned t nproc (for_range nproc 0 (min_step t) (record { max = pass_limit; min = none }))
    scanned =
        for_range_inv (λ n b. Scanned t n b) (min_step t) nproc 0 nproc _ refl
          (λ n b _ _ s. scan_step n b s) (empty refl (λ j l r. absurd (omega arith)))

  -- Let no pass be negative, and the conversion to uint truncate. Either some stride process that can run has a pass under 3000000000, and
  -- findMinPass returns one of these such that no process that can run has a pass under the whole part of its pass, unless the pass value of the MLFQ is under that whole part,
  -- when it returns null; or none that can run has a pass under 3000000000, and it returns null.
  pub find_min_pass_lem :
      {W : Type 0} (k : Kernel D W)
      → Truncates F
      → ((j : ℕ) → IsNonneg F (k.procs j).pass)
      → ((m : ℕ) × IsMin k.procs nproc m
          × (find_min_pass k ≡ (
              if F.lt k.mlfq_pass (of_uint F (F.to_uint (k.procs m).pass)) then none else some m)))
        ⊎ (NoneUnder k.procs nproc × (find_min_pass k ≡ none))
  unfolding find_min_pass
  find_min_pass_lem k L nonneg = elim (scanned L nonneg) [
    | found m e s ↦ inl (m, s, rw e)
    | empty e s ↦ inr (s, rw e (ground arith))
  ]
