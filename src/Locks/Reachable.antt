-- ===== src/Locks/Reachable.antt =====
-- The nesting in every state that the CPUs reach together, and the release that ends well in it.
use os_project.Prelude.{
  ℕ, zero, suc, ◌+◌, ◌<◌, ◌≤◌, ◌≡◌, ◌≢◌, ◌⊎◌, inl, inr, ◌∙◌, refl, sym, ap, Bool, true, false, not,
  Option, none, some, ◌==◌, if◌then◌else◌, update, arith, Bool-cases,
}
use mathlib.Core.Path.{subst}
use os_project.Prelude.Outcome.{ok, ◌>>=◌, ◌>>◌, panic_if, ok-injective}
use os_project.Locks.{
  Cpu, System, pushcli, popcli, holding, free_lock, acquire_enter, acquire_round, release, Waiting,
  Step, enters, takes, leaves, Reach, start, next,
}
use os_project.Locks.Count.{one_if, held, held_change}
use os_project.Locks.Nesting.{
  waits, IsNested, AllNested, pushcli-IsNested, popcli-IsNested, passed, not_held, holds_own,
  holding_one,
}

acquire_enter-ok :
    (i l : ℕ) (m m' : System)
    → acquire_enter i l m ≡ ok m'
    → m' ≡ record m { cpus = update m.cpus i (pushcli (m.cpus i)) }
unfolding acquire_enter
acquire_enter-ok i l m m' e = by_test (holding i (m.locks l)) e
  where
    by_test :
        (q : Bool)
        → (panic_if q >> ok (record m { cpus = update m.cpus i (pushcli (m.cpus i)) })) ≡ ok m'
        → m' ≡ record m { cpus = update m.cpus i (pushcli (m.cpus i)) }
    by_test true e = absurd (cc e)
    by_test false e = sym (ok-injective e)

acquire_round-some :
    (i l : ℕ) (m m' : System)
    → acquire_round i l m ≡ some m'
    → ((m.locks l).locked ≡ false)
      × (m' ≡ record m { locks = update m.locks l (record { locked = true; cpu = some i }) })
unfolding acquire_round
acquire_round-some i l m m' e = by_test (m.locks l).locked refl e
  where
    by_test :
        (q : Bool)
        → (m.locks l).locked ≡ q
        → (if q
            then none
            else some
                (record m { locks = update m.locks l (record { locked = true; cpu = some i }) }))
          ≡ some m'
        → ((m.locks l).locked ≡ false)
          × (m' ≡ record m { locks = update m.locks l (record { locked = true; cpu = some i }) })
    by_test true q e = absurd (cc e)
    by_test false q e = (q, some_is e)
      where
        some_is : {a b : System} → ◌≡◌ {A = Option System} (some a) (some b) → b ≡ a
        some_is e = cc

release-ok :
    (i l : ℕ) (m : System) (c : Cpu)
    → holding i (m.locks l) ≡ true
    → popcli (m.cpus i) ≡ ok c
    → release i l m ≡ ok (record m { locks = update m.locks l free_lock; cpus = update m.cpus i c })
unfolding release
release-ok i l m c e f =
    passed (not (holding i (m.locks l))) _ (ap not e)
    ∙ ap
        (λ q. q >>= λ (c : Cpu).
          ok (record m { locks = update m.locks l free_lock; cpus = update m.cpus i c }))
        f

release-held : (i l : ℕ) (m m' : System) → release i l m ≡ ok m' → holding i (m.locks l) ≡ true
unfolding release
release-held i l m m' e = by_test (holding i (m.locks l)) e
  where
    by_test :
        (q : Bool)
        → (panic_if (not q)
            >> (popcli (m.cpus i) >>= λ (c : Cpu).
                ok (record m { locks = update m.locks l free_lock; cpus = update m.cpus i c })))
          ≡ ok m'
        → q ≡ true
    by_test true e = refl
    by_test false e = absurd (cc e)

IsNested-eq :
    (b : Bool) (k k' : ℕ) (c c' : Cpu) → k ≡ k' → c' ≡ c → IsNested b k c → IsNested b k' c'
IsNested-eq b k k' c c' e f h = subst (λ q. IsNested b q c') e (subst (IsNested b k) (sym f) h)

at_same : {A : Type 0} (f : ℕ → A) (i j : ℕ) (x : A) → (i == j) ≡ true → update f i x j ≡ x
at_same f i j x e = rw e refl

at_other : {A : Type 0} (f : ℕ → A) (i j : ℕ) (x : A) → (i == j) ≡ false → update f i x j ≡ f j
at_other f i j x e = rw e refl

module _ (n : ℕ) (intr : ℕ → Bool) (m : System) (w : Waiting) (h : AllNested n intr m w) (i l : ℕ)
    (small : l < n) where
  enters-AllNested :
      w i ≡ none
      → AllNested n intr
          (record m { cpus = update m.cpus i (pushcli (m.cpus i)) })
          (update w i (some l))
  enters-AllNested idle j = elim (Bool-cases (i == j)) [
    | inl at ↦
        let e : i ≡ j = ground arith in
        subst
          (λ q.
            IsNested (intr q) (held q n m.locks + waits (update w i (some l) q))
              (update m.cpus i (pushcli (m.cpus i)) q))
          e
          (IsNested-eq (intr i) (held i n m.locks + waits (w i) + 1)
            (held i n m.locks + waits (update w i (some l) i)) (pushcli (m.cpus i)) _
            (omega (arith, ap waits idle, ap waits (at_same w i i (some l) (self i))))
            (at_same m.cpus i i _ (self i))
            (pushcli-IsNested (intr i) (held i n m.locks + waits (w i)) (m.cpus i) (h i)))
    | inr off ↦
        IsNested-eq (intr j) (held j n m.locks + waits (w j)) _ (m.cpus j) _
          (ap (λ q. held j n m.locks + waits q) (sym (at_other w i j (some l) off)))
          (at_other m.cpus i j _ off) (h j)
  ]
    where
      self : (i : ℕ) → (i == i) ≡ true
      self i = ground arith

  takes-AllNested :
      w i ≡ some l
      → (m.locks l).locked ≡ false
      → AllNested n intr
          (record m { locks = update m.locks l (record { locked = true; cpu = some i }) })
          (update w i none)
  takes-AllNested waiting free j =
      let change = held_change j n l m.locks (record { locked = true; cpu = some i }) small in
      let was : one_if (holding j (m.locks l)) ≡ 0 = ap one_if (not_held j (m.locks l) free) in
      let is : one_if (holding j (record { locked = true; cpu = some i })) ≡ one_if (j == i) =
        ap one_if (holds_own j i) in
      elim (Bool-cases (i == j)) [
        | inl at ↦
            let e : i ≡ j = ground arith in
            IsNested-eq (intr j) (held j n m.locks + waits (w j)) _ (m.cpus j) _
              (omega (
                arith,
                change,
                was,
                is,
                ap one_if (self j e),
                ap waits (ap w (sym e) ∙ waiting),
                ap waits (at_same w i j none at),
              ))
              refl (h j)
        | inr off ↦
            IsNested-eq (intr j) (held j n m.locks + waits (w j)) _ (m.cpus j) _
              (omega (
                arith,
                change,
                was,
                is,
                ap one_if (not_self j off),
                ap waits (at_other w i j none off),
              ))
              refl (h j)
      ]
    where
      self : (j : ℕ) → i ≡ j → (j == i) ≡ true
      self j e = ground arith

      not_self : (j : ℕ) → (i == j) ≡ false → (j == i) ≡ false
      not_self j e = ground arith

  -- A CPU that holds the lock releases it.
  leaves-AllNested :
      w i ≡ none
      → holding i (m.locks l) ≡ true
      → (c : Cpu) × (release i l m
          ≡ ok (record m { locks = update m.locks l free_lock; cpus = update m.cpus i c }))
        × AllNested n intr
            (record m { locks = update m.locks l free_lock; cpus = update m.cpus i c })
            w
  leaves-AllNested idle mine =
      let change = held_change i n l m.locks free_lock small in
      let was : one_if (holding i (m.locks l)) ≡ 1 = ap one_if mine in
      let is : one_if (holding i free_lock) ≡ 0 = ap one_if (not_held i free_lock refl) in
      let deep =
        IsNested-eq (intr i) (held i n m.locks + waits (w i))
          (held i n (update m.locks l free_lock) + 1) (m.cpus i) (m.cpus i)
          (omega (arith, change, was, is, ap waits idle)) refl (h i) in
      let (c, e, ended) =
        popcli-IsNested (intr i) (held i n (update m.locks l free_lock)) (m.cpus i) deep in
      (
        c,
        release-ok i l m c mine e,
        λ j. elim (Bool-cases (i == j)) [
          | inl at ↦
              let e' : i ≡ j = ground arith in
              subst
                (λ q.
                  IsNested (intr q) (held q n (update m.locks l free_lock) + waits (w q))
                    (update m.cpus i c q))
                e'
                (IsNested-eq (intr i) (held i n (update m.locks l free_lock))
                  (held i n (update m.locks l free_lock) + waits (w i)) c _
                  (omega (arith, ap waits idle)) (at_same m.cpus i i c (self i)) ended)
          | inr off ↦
              let change' = held_change j n l m.locks free_lock small in
              let was' : one_if (holding j (m.locks l)) ≡ 0 = ap one_if (not_mine j off) in
              let is' : one_if (holding j free_lock) ≡ 0 = ap one_if (not_held j free_lock refl) in
              IsNested-eq (intr j) (held j n m.locks + waits (w j)) _ (m.cpus j) _
                (omega (arith, change', was', is')) (at_other m.cpus i j c off) (h j)
        ],
      )
    where
      self : (i : ℕ) → (i == i) ≡ true
      self i = ground arith

      apart : (j : ℕ) → (i == j) ≡ false → i ≢ j
      apart j e = ground arith

      not_mine : (j : ℕ) → (i == j) ≡ false → holding j (m.locks l) ≡ false
      not_mine j off = elim (Bool-cases (holding j (m.locks l))) [
        | inl both ↦ absurd (apart j off (holding_one i j (m.locks l) mine both))
        | inr free ↦ free
      ]

pub Step-AllNested :
    (n : ℕ) (intr : ℕ → Bool) (m m' : System) (w w' : Waiting)
    → Step n m w m' w'
    → AllNested n intr m w
    → AllNested n intr m' w'
Step-AllNested n intr _ _ _ _ (enters m m' w i l small idle e) h =
    subst (λ q. AllNested n intr q (update w i (some l))) (sym (acquire_enter-ok i l m m' e))
      (enters-AllNested n intr m w h i l small idle)
Step-AllNested n intr _ _ _ _ (takes m m' w i l small waiting e) h =
    let (free, is) = acquire_round-some i l m m' e in
    subst (λ q. AllNested n intr q (update w i none)) (sym is)
      (takes-AllNested n intr m w h i l small waiting free)
Step-AllNested n intr _ _ _ _ (leaves m m' w i l small idle e) h =
    let (c, e', all) = leaves-AllNested n intr m w h i l small idle (release-held i l m m' e) in
    subst (λ q. AllNested n intr q w) (ok-injective (sym e' ∙ e)) all

-- No CPU holds a lock, waits for one or has called pushcli.
pub record IsStart (n : ℕ) (m : System) (w : Waiting) : Type 0 where
  pub outside : (i : ℕ) → (m.cpus i).ncli ≡ 0
  pub idle : (i : ℕ) → w i ≡ none
  pub free : (l : ℕ) → l < n → (m.locks l).locked ≡ false

IsStart-AllNested :
    (n : ℕ) (m : System) (w : Waiting) → IsStart n m w → AllNested n (λ i. (m.cpus i).intr) m w
IsStart-AllNested n m w s i = record {
  depth = omega (arith, s.outside i, none_held n (omega arith), ap waits (s.idle i));
  inner = λ l. absurd (omega (arith, l, none_held n (omega arith), ap waits (s.idle i)));
  outer = λ e. refl;
}
  where
    none_held : (k : ℕ) → k ≤ n → held i k m.locks ≡ 0
    none_held zero l = refl
    none_held (suc k) l = omega (
      arith,
      ap one_if (not_held i (m.locks k) (s.free k (omega (arith, l)))),
      none_held k (omega (arith, l)),
    )

Reach-AllNested :
    (n : ℕ) (intr : ℕ → Bool) (m0 : System) (w0 : Waiting) (m : System) (w : Waiting)
    → Reach n m0 w0 m w
    → AllNested n intr m0 w0
    → AllNested n intr m w
Reach-AllNested n intr m0 w0 _ _ start h = h
Reach-AllNested n intr m0 w0 _ _ (next m m' w w' r s) h =
    Step-AllNested n intr m m' w w' s (Reach-AllNested n intr m0 w0 m w r h)

-- In every state that the CPUs reach together by acquire and release from one in which no lock is held: the
-- interrupts of a CPU are off where it holds a lock or waits for one, and else as they were at the start.
pub Reach-interrupts :
    (n : ℕ) (m0 m : System) (w0 w : Waiting) (i : ℕ)
    → IsStart n m0 w0
    → Reach n m0 w0 m w
    → ((held i n m.locks + waits (w i) ≡ 0) × ((m.cpus i).intr ≡ (m0.cpus i).intr))
      ⊎ ((1 ≤ held i n m.locks + waits (w i)) × ((m.cpus i).intr ≡ false))
Reach-interrupts n m0 m w0 w i s r =
    let all = Reach-AllNested n (λ i. (m0.cpus i).intr) m0 w0 m w r (IsStart-AllNested n m0 w0 s) in
    elim (Bool-cases (held i n m.locks + waits (w i) == 0)) [
      | inl e ↦
          let z : held i n m.locks + waits (w i) ≡ 0 = ground arith in inl (z, (all i).outer z)
      | inr e ↦
          let l : 1 ≤ held i n m.locks + waits (w i) = ground arith in
          inr (l, ((all i).inner (omega (arith, l))).0)
    ]

-- In every such state a CPU that holds a lock and waits for none releases it without a panic, and the CPU is then
-- one lock less deep.
pub Reach-release :
    (n : ℕ) (m0 m : System) (w0 w : Waiting) (i l : ℕ)
    → IsStart n m0 w0
    → Reach n m0 w0 m w
    → l < n
    → holding i (m.locks l) ≡ true
    → w i ≡ none
    → (m' : System) × (release i l m ≡ ok m')
      × Reach n m0 w0 m' w
      × (held i n m'.locks + 1 ≡ held i n m.locks)
Reach-release n m0 m w0 w i l s r small mine idle =
    let all = Reach-AllNested n (λ i. (m0.cpus i).intr) m0 w0 m w r (IsStart-AllNested n m0 w0 s) in
    let (c, e, _) = leaves-AllNested n (λ i. (m0.cpus i).intr) m w all i l small idle mine in
    let m' = record m { locks = update m.locks l free_lock; cpus = update m.cpus i c } in
    (
      m',
      e,
      next m m' w w r (leaves m m' w i l small idle e),
      omega (
        arith,
        held_change i n l m.locks free_lock small,
        ap one_if mine,
        ap one_if (not_held i free_lock refl),
      ),
    )
