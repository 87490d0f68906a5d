-- ===== src/Files/Table.antt =====
-- The table of open files: filealloc, filedup and fileclose.
use os_project.Prelude.{
  ℕ, zero, suc, ◌+◌, ◌-◌, ◌<◌, ◌≤◌, ◌≡◌, ◌≢◌, ◌⊎◌, inl, inr, ◌∙◌, refl, ap, Bool, true, false, ◌==◌,
  ltb, if◌then◌else◌, arith, update, Bool-cases, Option, none, some,
}
use mathlib.Core.Path.{subst, ap₂}
use os_project.Prelude.Outcome.{Outcome, ok, panic, ◌>>◌, panic_if}
use os_project.Pipe.{Pipe, PipeChan, pipeclose}
use os_project.Fs.Bmap.{Inode}
use os_project.Files.{fd_none, fd_pipe, fd_inode, File}

-- NFILE
abbrev pub nfile : ℕ
nfile = 100

-- ftable.file[]; an index stands for a pointer to an entry.
abbrev pub Ftable : Type 0
Ftable = ℕ → File

-- The loop of filealloc from `i` on.
unfoldable pub free_file : ℕ → ℕ → Ftable → Option ℕ
free_file zero i t = none
free_file (suc count) i t =
    let rest = free_file count (i + 1) t in if (t i).ref == 0 then some i else rest

abbrev pub set_ref : ℕ → ℕ → Ftable → Ftable
set_ref i n t = update t i (record (t i) { ref = n })

unfoldable pub filealloc : Ftable → Ftable × Option ℕ
filealloc t = elim (free_file nfile 0 t) [ none ↦ (t, none) | some i ↦ (set_ref i 1 t, some i) ]

unfoldable pub filedup : ℕ → Ftable → Outcome Ftable
filedup i t = do panic_if (ltb (t i).ref 1); ok (set_ref i ((t i).ref + 1) t)

-- What fileclose goes on with: nothing, the close of an end of the pipe, or iput in a transaction.
pub data Closing : Type 0 where
  nothing_more : Closing
  end_of_pipe : Pipe × PipeChan × Bool → Closing
  put_inode : Inode → Closing

abbrev pub closing : File → Closing
closing f = elim f.type [
  | fd_none ↦ nothing_more
  | fd_pipe ↦ end_of_pipe (pipeclose f.writable f.pipe)
  | fd_inode ↦ put_inode f.ip
]

unfoldable pub fileclose : ℕ → Ftable → Outcome (Ftable × Closing)
fileclose i t = do
  panic_if (ltb (t i).ref 1)
  ok (
      if ltb 0 ((t i).ref - 1)
      then (set_ref i ((t i).ref - 1) t, nothing_more)
      else (update t i (record (t i) { ref = 0; type = fd_none }), closing (t i)))

-- The first entry without references, from `i` on.
abbrev Unused : ℕ → ℕ → Ftable → Option ℕ → Type 0
Unused count i t none = (j : ℕ) → i ≤ j → j < i + count → (t j).ref ≢ 0
Unused count i t (some k) =
    (i ≤ k) × (k < i + count) × ((t k).ref ≡ 0) × ((j : ℕ) → i ≤ j → j < k → (t j).ref ≢ 0)

free_file-Unused : (count i : ℕ) (t : Ftable) → Unused count i t (free_file count i t)
unfolding free_file
free_file-Unused zero i t = λ j l m. absurd (omega (arith, l, m))
free_file-Unused (suc count) i t = elim (Bool-cases ((t i).ref == 0)) [
  | inl free ↦
      rw (free, free_file)
        (omega arith, omega arith, zero_is (t i).ref free, λ j l m. absurd (omega (arith, l, m)))
  | inr used ↦
      rw (used, free_file)
        (later used (free_file count (i + 1) t) (free_file-Unused count (i + 1) t))
]
  where
    zero_is : (x : ℕ) → (x == 0) ≡ true → x ≡ 0
    zero_is x e = ground arith

    used_before :
        (j : ℕ) → ((t i).ref == 0) ≡ false → i ≤ j → (i + 1 ≤ j → (t j).ref ≢ 0) → (t j).ref ≢ 0
    used_before j used l h = elim (Bool-cases (i == j)) [
      | inl at ↦
          let e : i ≡ j = ground arith in subst (λ q. (t q).ref ≢ 0) e (not_zero (t i).ref used)
      | inr off ↦ h (ground arith)
    ]
      where
        not_zero : (x : ℕ) → (x == 0) ≡ false → x ≢ 0
        not_zero x e = ground arith

    later :
        ((t i).ref == 0) ≡ false
        → (r : Option ℕ) → Unused count (i + 1) t r
        → Unused (suc count) i t r
    later used none h = λ j l m. used_before j used l (λ l'. h j l' (omega (arith, m)))
    later used (some k) h = (
      omega (arith, h.0),
      omega (arith, h.1),
      h.2,
      λ j l m. used_before j used l (λ l'. h.3 j l' m),
    )

-- filealloc returns null where all entries have references, and changes nothing; or it returns the first without,
-- which has one then, and changes no other field or entry.
pub filealloc_lem :
    (t : Ftable)
    → ((filealloc t ≡ (t, none)) × ((j : ℕ) → j < nfile → (t j).ref ≢ 0))
      ⊎ ((k : ℕ) × (filealloc t ≡ (set_ref k 1 t, some k))
          × (k < nfile)
          × ((t k).ref ≡ 0)
          × ((j : ℕ) → j < k → (t j).ref ≢ 0))
unfolding filealloc
filealloc_lem t = ends (free_file nfile 0 t) refl (free_file-Unused nfile 0 t)
  where
    ends :
        (r : Option ℕ)
        → free_file nfile 0 t ≡ r
        → Unused nfile 0 t r
        → ((filealloc t ≡ (t, none)) × ((j : ℕ) → j < nfile → (t j).ref ≢ 0))
          ⊎ ((k : ℕ) × (filealloc t ≡ (set_ref k 1 t, some k))
              × (k < nfile)
              × ((t k).ref ≡ 0)
              × ((j : ℕ) → j < k → (t j).ref ≢ 0))
    ends none e h = inl (rw (e, filealloc) refl, λ j l. h j (omega arith) (omega (arith, l)))
    ends (some k) e h =
        inr (k, rw (e, filealloc) refl, omega (arith, h.1), h.2, λ j l. h.3 j (omega arith) l)

no_ref : (x : ℕ) → ltb x 1 ≡ true → x ≡ 0
no_ref x e = ground arith

some_ref : (x : ℕ) → ltb x 1 ≡ false → 1 ≤ x
some_ref x e = ground arith

filedup_ends :
    (i : ℕ) (t : Ftable) (q : Bool)
    → ltb (t i).ref 1 ≡ q
    → filedup i t ≡ (panic_if q >> ok (set_ref i ((t i).ref + 1) t))
unfolding filedup
filedup_ends i t q e = ap (λ q. panic_if q >> ok (set_ref i ((t i).ref + 1) t)) e

fileclose_ends :
    (i : ℕ) (t : Ftable) (q r : Bool)
    → ltb (t i).ref 1 ≡ q
    → ltb 0 ((t i).ref - 1) ≡ r
    → fileclose i t ≡ (
        panic_if q
        >> ok (
            if r
            then (set_ref i ((t i).ref - 1) t, nothing_more)
            else (update t i (record (t i) { ref = 0; type = fd_none }), closing (t i))))
unfolding fileclose
fileclose_ends i t q r e f =
    ap₂
      (λ q r.
        panic_if q
        >> ok (
            if r
            then (set_ref i ((t i).ref - 1) t, nothing_more)
            else (update t i (record (t i) { ref = 0; type = fd_none }), closing (t i))))
      e f

set_ref-same : (i n : ℕ) (t : Ftable) → set_ref i n t i ≡ record (t i) { ref = n }
set_ref-same i n t = ground arith

set_ref-other : (i n j : ℕ) (t : Ftable) → i ≢ j → set_ref i n t j ≡ t j
set_ref-other i n j t d = ground arith

module _ (i : ℕ) (t : Ftable) where
  abbrev dupped : Ftable
  dupped = set_ref i ((t i).ref + 1) t

  abbrev closed : Ftable
  closed = set_ref i ((dupped i).ref - 1) dupped

  closed_ref : (dupped i).ref ≡ (t i).ref + 1
  closed_ref = ap (λ (f : File). f.ref) (set_ref-same i ((t i).ref + 1) t)

  -- The table is as it was.
  closed_is : (j : ℕ) → closed j ≡ t j
  closed_is j = elim (Bool-cases (i == j)) [
    | inl at ↦
        let e : i ≡ j = ground arith in
        let back : (dupped i).ref - 1 ≡ (t i).ref = omega (arith, closed_ref) in
        subst (λ q. closed q ≡ t q) e
          (set_ref-same i ((dupped i).ref - 1) dupped
            ∙ ap₂ (λ (f : File) q. record f { ref = q }) (set_ref-same i ((t i).ref + 1) t) back)
    | inr off ↦
        let d : i ≢ j = ground arith in
        set_ref-other i ((dupped i).ref - 1) j dupped d ∙ set_ref-other i ((t i).ref + 1) j t d
  ]

-- filedup of an entry with a reference, and fileclose of it, leave the table as it was and close nothing; without
-- a reference both panic.
pub filedup-fileclose :
    (i : ℕ) (t : Ftable)
    → (((t i).ref ≡ 0) × (filedup i t ≡ panic) × (fileclose i t ≡ panic))
      ⊎ ((1 ≤ (t i).ref)
          × (t' : Ftable) × (t'' : Ftable) × (filedup i t ≡ ok t')
          × (fileclose i t' ≡ ok (t'', nothing_more))
          × ((j : ℕ) → t'' j ≡ t j))
filedup-fileclose i t = elim (Bool-cases (ltb (t i).ref 1)) [
  | inl low ↦
      inl (no_ref (t i).ref low, filedup_ends i t true low, fileclose_ends i t true _ low refl)
  | inr high ↦
      let one = some_ref (t i).ref high in
      inr (
        one,
        dupped i t,
        closed i t,
        filedup_ends i t false high,
        fileclose_ends i (dupped i t) false true
            (above (dupped i t i).ref (omega (arith, closed_ref i t))).0
            (above (dupped i t i).ref (omega (arith, closed_ref i t, one))).1,
        closed_is i t,
      )
]
  where
    above : (x : ℕ) → 2 ≤ x → (ltb x 1 ≡ false) × (ltb 0 (x - 1) ≡ true)
    above x l = (ground arith, ground arith)
