-- ===== src/Fs/Names.antt =====
-- Path names in fs.c. A path is the bytes of the string before its 0.
use os_project.Prelude.{
  ℕ, ◌≤◌, ◌<◌, ◌≡◌, ◌⊎◌, inl, inr, ◌∙◌, refl, sym, ap, true, false, ◌==◌, arith, Bool-cases, Option,
  none, some, List, [], ◌∷◌, length, take, is_nil,
}
use mathlib.Core.Path.{ap₂}

-- DIRSIZ, and the byte '/'
abbrev pub dirsiz : ℕ
dirsiz = 14

abbrev pub slash : ℕ
slash = 47

-- while(*path == '/') path++
unfoldable pub skip_slashes : List ℕ → List ℕ
skip_slashes [] = []
skip_slashes (c ∷ cs) = elim (c == slash) [ true ↦ skip_slashes cs | false ↦ c ∷ cs ]

-- The bytes before the next '/' or the end, and the rest.
unfoldable pub element : List ℕ → List ℕ × List ℕ
element [] = ([], [])
element (c ∷ cs) =
    let (name, rest) = element cs in
    elim (c == slash) [ true ↦ ([], c ∷ cs) | false ↦ (c ∷ name, rest) ]

-- skipelem: the name, of dirsiz bytes at most, and the path that it returns; `none` for the null pointer.
unfoldable pub skipelem : List ℕ → Option (List ℕ × List ℕ)
skipelem path = elim (skip_slashes path) [
  | [] ↦ none
  | c ∷ cs ↦ let (name, rest) = element (c ∷ cs) in some (take dirsiz name, skip_slashes rest)
]

-- The reference: the pieces between the slashes, of which the empty ones do not count.
unfoldable pub pieces : List ℕ → List (List ℕ)
pieces [] = [] ∷ []
pieces (c ∷ cs) = elim (pieces cs) [
  | [] ↦ []
  | p ∷ ps ↦ elim (c == slash) [ true ↦ [] ∷ p ∷ ps | false ↦ (c ∷ p) ∷ ps ]
]

unfoldable pub nonempty : List (List ℕ) → List (List ℕ)
nonempty [] = []
nonempty (p ∷ ps) = elim p [ [] ↦ nonempty ps | c ∷ cs ↦ take dirsiz (c ∷ cs) ∷ nonempty ps ]

-- The names on a path.
unfoldable pub names : List ℕ → List (List ℕ)
names path = nonempty (pieces path)

pieces_cons : (c : ℕ) (cs : List ℕ) → (p : List ℕ) × (ps : List (List ℕ)) × (pieces cs ≡ p ∷ ps)
unfolding pieces
pieces_cons c [] = ([], [], refl)
pieces_cons c (d ∷ ds) =
    let (p, ps, e) = pieces_cons d ds in
    elim (Bool-cases (d == slash)) [
      | inl at ↦ ([], p ∷ ps, rw (pieces, e, at) refl)
      | inr off ↦ (d ∷ p, ps, rw (pieces, e, off) refl)
    ]

pieces-slash : (c : ℕ) (cs : List ℕ) → (c == slash) ≡ true → pieces (c ∷ cs) ≡ [] ∷ pieces cs
unfolding pieces
pieces-slash c cs at = let (p, ps, e) = pieces_cons c cs in rw (pieces, e, at) refl

pieces-byte :
    (c : ℕ) (cs p : List ℕ) (ps : List (List ℕ))
    → (c == slash) ≡ false
    → pieces cs ≡ p ∷ ps
    → pieces (c ∷ cs) ≡ (c ∷ p) ∷ ps
unfolding pieces
pieces-byte c cs p ps off e = rw (pieces, e, off) refl

names-skip_slashes : (path : List ℕ) → names (skip_slashes path) ≡ names path
unfolding names skip_slashes nonempty
names-skip_slashes [] = refl
names-skip_slashes (c ∷ cs) = elim (Bool-cases (c == slash)) [
  | inl at ↦
      rw (at, skip_slashes) (names-skip_slashes cs ∙ sym (ap nonempty (pieces-slash c cs at)))
  | inr off ↦ rw (off, skip_slashes) refl
]

names-nil : (nonempty [] ≡ names []) × (names [] ≡ []) × (pieces [] ≡ [] ∷ [])
unfolding names pieces nonempty
names-nil = (refl, refl, refl)

names-slash : (c : ℕ) (cs : List ℕ) → (c == slash) ≡ true → names (c ∷ cs) ≡ names cs
unfolding names nonempty
names-slash c cs at = ap nonempty (pieces-slash c cs at)

names-pieces : (cs : List ℕ) → nonempty (pieces cs) ≡ names cs
unfolding names
names-pieces cs = refl

-- The element is the first piece of the path.
element-pieces :
    (path : List ℕ)
    → (ps : List (List ℕ)) × (pieces path ≡ (element path).0 ∷ ps)
      × (nonempty ps ≡ names (element path).1)
unfolding element
element-pieces [] = ([], names-nil.2, names-nil.0)
element-pieces (c ∷ cs) = elim (Bool-cases (c == slash)) [
  | inl at ↦ (
    pieces cs,
    rw (at, element) (pieces-slash c cs at),
    rw (at, element) (names-pieces cs ∙ sym (names-slash c cs at)),
  )
  | inr off ↦
      let (ps, e, rest) = element-pieces cs in
      (ps, rw (off, element) (pieces-byte c cs (element cs).0 ps off e), rw (off, element) rest)
]

element-cons :
    (c : ℕ) (cs : List ℕ)
    → (c == slash) ≡ false
    → ((element (c ∷ cs)).0 ≡ c ∷ (element cs).0) × ((element (c ∷ cs)).1 ≡ (element cs).1)
unfolding element
element-cons c cs off = (rw (off, element) refl, rw (off, element) refl)

nonempty-cons :
    (c : ℕ) (cs : List ℕ) (ps : List (List ℕ))
    → nonempty ((c ∷ cs) ∷ ps) ≡ take dirsiz (c ∷ cs) ∷ nonempty ps
unfolding nonempty
nonempty-cons c cs ps = refl

names-cons :
    (c : ℕ) (cs : List ℕ)
    → (c == slash) ≡ false
    → names (c ∷ cs) ≡ take dirsiz (element (c ∷ cs)).0 ∷ names (element (c ∷ cs)).1
unfolding names
names-cons c cs off =
    let (ps, e, rest) = element-pieces (c ∷ cs) in
    let first = (element-cons c cs off).0 in
    ap nonempty (e ∙ ap (λ xs. xs ∷ ps) first)
    ∙ nonempty-cons c (element cs).0 ps
    ∙ ap₂ (λ xs ys. take dirsiz xs ∷ ys) (sym first) rest

skip_slashes-cases :
    (path : List ℕ)
    → (skip_slashes path ≡ [])
      ⊎ ((c : ℕ) × (cs : List ℕ) × (skip_slashes path ≡ c ∷ cs) × ((c == slash) ≡ false))
unfolding skip_slashes
skip_slashes-cases [] = inl refl
skip_slashes-cases (c ∷ cs) = elim (Bool-cases (c == slash)) [
  | inl at ↦ rw (at, skip_slashes) (skip_slashes-cases cs)
  | inr off ↦ inr (c, cs, rw (off, skip_slashes) refl, off)
]

length-skip_slashes : (path : List ℕ) → length (skip_slashes path) ≤ length path
unfolding skip_slashes
length-skip_slashes [] = omega arith
length-skip_slashes (c ∷ cs) = ground (arith, length-skip_slashes cs)

length-element : (path : List ℕ) → length (element path).1 ≤ length path
unfolding element
length-element [] = omega arith
length-element (c ∷ cs) = ground (arith, length-element cs)

-- A path without slashes before it is at its end where no name is left.
skipped-names : (path : List ℕ) → is_nil (skip_slashes path) ≡ is_nil (names (skip_slashes path))
skipped-names path = elim (skip_slashes-cases path) [
  | inl e ↦ ap is_nil e ∙ sym (ap is_nil (ap names e ∙ names-nil.1))
  | inr (c, cs, e, off) ↦ ap is_nil e ∙ sym (ap is_nil (ap names e ∙ names-cons c cs off))
]

-- skipelem returns null where the path has no name; otherwise it takes the first name of the path, and
-- returns a shorter path with the others, which is at its end exactly where there are none.
pub skipelem_lem :
    (path : List ℕ)
    → ((skipelem path ≡ none) × (names path ≡ []))
      ⊎ ((name : List ℕ) × (rest : List ℕ) × (skipelem path ≡ some (name, rest))
          × (names path ≡ name ∷ names rest)
          × (length rest < length path)
          × (is_nil rest ≡ is_nil (names rest)))
unfolding skipelem
skipelem_lem path = elim (skip_slashes-cases path) [
  | inl e ↦ inl (rw (e, skipelem) refl, sym (names-skip_slashes path) ∙ ap names e ∙ names-nil.1)
  | inr (c, cs, e, off) ↦
      let rest = (element (c ∷ cs)).1 in
      inr (
        take dirsiz (element (c ∷ cs)).0,
        skip_slashes rest,
        rw (e, skipelem) refl,
        sym (names-skip_slashes path)
            ∙ ap names e
            ∙ names-cons c cs off
            ∙ ap (λ ns. take dirsiz (element (c ∷ cs)).0 ∷ ns) (sym (names-skip_slashes rest)),
        omega (
          arith,
          length-skip_slashes rest,
          length-element cs,
          length-skip_slashes path,
          ap length e,
          ap length (element-cons c cs off).1,
        ),
        skipped-names rest,
      )
]
