-- ===== src/Bytes/Names.antt =====
-- The strings of string.c, which end at a 0 or at a given length.
use os_project.Prelude.{
  ℕ, zero, suc, ◌+◌, ◌≤◌, ◌<◌, ◌≡◌, ◌≢◌, ◌⊎◌, inl, inr, ◌∙◌, ◌↔◌, refl, sym, ap, true, false, not,
  ◌&&◌, ◌==◌, arith, update, Bool-cases, List, [], ◌∷◌, some,
}
use mathlib.Core.Path.{ap₂}
use os_project.Prelude.Int.{pos}
use os_project.Bytes.{strncmp, pad, strncpy, copy_string, safestrcpy, strlen, one_more}

-- The string at `s`, of `n` bytes at most.
unfoldable pub name_at : ℕ → ℕ → (ℕ → ℕ) → List ℕ
name_at zero s m = []
name_at (suc n) s m = elim (m s == 0) [ true ↦ [] | false ↦ m s ∷ name_at n (s + 1) m ]

cons-injective : {a b : ℕ} {xs ys : List ℕ} → a ∷ xs ≡ b ∷ ys → (a ≡ b) × (xs ≡ ys)
cons-injective e = (cc, cc)

name_at-end : (n s : ℕ) (m : ℕ → ℕ) → m s ≡ 0 → name_at n s m ≡ []
unfolding name_at
name_at-end zero s m e = refl
name_at-end (suc n) s m e = let t : (m s == 0) ≡ true = ground arith in rw (t, name_at) refl

name_at-more :
    (n s : ℕ) (m : ℕ → ℕ) → (m s == 0) ≡ false → name_at (suc n) s m ≡ m s ∷ name_at n (s + 1) m
unfolding name_at
name_at-more n s m t = rw (t, name_at) refl

name_at-zero : (s : ℕ) (m : ℕ → ℕ) → name_at 0 s m ≡ []
unfolding name_at
name_at-zero s m = refl

name_at-same :
    (n s : ℕ) (m m' : ℕ → ℕ)
    → ((a : ℕ) → s ≤ a → a < s + n → m' a ≡ m a)
    → name_at n s m' ≡ name_at n s m
name_at-same zero s m m' h = name_at-zero s m' ∙ sym (name_at-zero s m)
name_at-same (suc n) s m m' h =
    let first = h s (omega arith) (omega arith) in
    elim (Bool-cases (m s == 0)) [
      | inl ends ↦
          name_at-end (suc n) s m' (ground arith) ∙ sym (name_at-end (suc n) s m (ground arith))
      | inr goes_on ↦
          name_at-more n s m' (ap (λ b. b == 0) first ∙ goes_on)
          ∙ ap₂ ◌∷◌ first (name_at-same n (s + 1) m m' (λ a lo hi. h a (omega arith) (omega arith)))
          ∙ sym (name_at-more n s m goes_on)
    ]

-- Two places with the same bytes have the same string.
pub name_at-shift :
    (n s t : ℕ) (m m' : ℕ → ℕ)
    → ((i : ℕ) → i < n → m' (t + i) ≡ m (s + i))
    → name_at n t m' ≡ name_at n s m
name_at-shift zero s t m m' h = name_at-zero t m' ∙ sym (name_at-zero s m)
name_at-shift (suc n) s t m m' h =
    let first : m' t ≡ m s =
      ap m' {x = t} {y = t + 0} (omega arith) ∙ h 0 (omega arith) ∙ ap m (omega arith) in
    elim (Bool-cases (m s == 0)) [
      | inl ends ↦
          name_at-end (suc n) t m' (ground arith) ∙ sym (name_at-end (suc n) s m (ground arith))
      | inr goes_on ↦
          name_at-more n t m' (ap (λ b. b == 0) first ∙ goes_on)
          ∙ ap₂ ◌∷◌ first (
              name_at-shift n (s + 1) (t + 1) m m' (λ i l.
                ap m' {x = t + 1 + i} {y = t + suc i} (omega arith)
                ∙ h (suc i) (omega arith)
                ∙ ap m (omega arith)))
          ∙ sym (name_at-more n s m goes_on)
    ]

strncmp-same : (n p q : ℕ) (m : ℕ → ℕ) → name_at n p m ≡ name_at n q m → strncmp n p q m ≡ pos 0
unfolding strncmp
strncmp-same zero p q m e = refl
strncmp-same (suc n) p q m e = elim (Bool-cases (m p == 0)) [
  | inl ends ↦ elim (Bool-cases (m q == 0)) [
    | inl ends_too ↦ ground arith
    | inr goes_on ↦
        absurd (cc (sym (name_at-end (suc n) p m (ground arith)) ∙ e ∙ name_at-more n q m goes_on))
  ]
  | inr goes_on ↦ elim (Bool-cases (m q == 0)) [
    | inl ends ↦
        absurd (cc (sym (name_at-more n p m goes_on) ∙ e ∙ name_at-end (suc n) q m (ground arith)))
    | inr goes_on_too ↦
        let (same, rest) =
          cons-injective (sym (name_at-more n p m goes_on) ∙ e ∙ name_at-more n q m goes_on_too) in
        let t : (not (m p == 0) && (m p == m q)) ≡ true = ground arith in
        rw (t, strncmp) (strncmp-same n (p + 1) (q + 1) m rest)
  ]
]

same-strncmp : (n p q : ℕ) (m : ℕ → ℕ) → strncmp n p q m ≡ pos 0 → name_at n p m ≡ name_at n q m
unfolding strncmp
same-strncmp zero p q m e = name_at-zero p m ∙ sym (name_at-zero q m)
same-strncmp (suc n) p q m e = elim (Bool-cases (not (m p == 0) && (m p == m q))) [
  | inl go ↦
      let e' = rw (go, strncmp) at e in
      let same : m p ≡ m q = ground arith in
      name_at-more n p m (ground arith)
      ∙ ap₂ ◌∷◌ same (same-strncmp n (p + 1) (q + 1) m e')
      ∙ sym (name_at-more n q m (ground arith))
  | inr stop ↦
      let e' = rw (stop, strncmp) at e in
      let same : m p ≡ m q = ground arith in
      let ends : m p ≡ 0 = ground arith in
      name_at-end (suc n) p m ends ∙ sym (name_at-end (suc n) q m (sym same ∙ ends))
]

-- strncmp finds no difference exactly where the two strings are the same.
pub strncmp_lem :
    (n p q : ℕ) (m : ℕ → ℕ) → (strncmp n p q m ≡ pos 0) ↔ (name_at n p m ≡ name_at n q m)
strncmp_lem n p q m = (same-strncmp n p q m, strncmp-same n p q m)

-- A byte outside the region of `n` bytes at `s`.
abbrev pub IsOutside : ℕ → ℕ → ℕ → Type 0
IsOutside s n a = (a < s) ⊎ (s + n ≤ a)

pad-outside : (n s : ℕ) (m : ℕ → ℕ) (a : ℕ) → IsOutside s n a → pad n s m a ≡ m a
unfolding pad
pad-outside zero s m a h = refl
pad-outside (suc n) s m a h = pad-outside n (s + 1) (update m s 0) a (omega arith) ∙ ground arith

strncpy-outside : (n s t : ℕ) (m : ℕ → ℕ) (a : ℕ) → IsOutside s n a → strncpy n s t m a ≡ m a
unfolding strncpy
strncpy-outside zero s t m a h = refl
strncpy-outside (suc n) s t m a h = elim (Bool-cases (m t == 0)) [
  | inl ends ↦
      rw (ends, strncpy) (pad-outside n (s + 1) (update m s (m t)) a (omega arith) ∙ ground arith)
  | inr goes_on ↦
      rw (goes_on, strncpy)
        (strncpy-outside n (s + 1) (t + 1) (update m s (m t)) a (omega arith) ∙ ground arith)
]

update-at : (m : ℕ → ℕ) (s b : ℕ) → update m s b s ≡ b
update-at m s b = ground arith

update-away : (m : ℕ → ℕ) (s b a : ℕ) → s ≢ a → update m s b a ≡ m a
update-away m s b a h = ground arith

-- The string that is copied to other bytes than its own.
strncpy-name :
    (n s t : ℕ) (m : ℕ → ℕ)
    → (s + n ≤ t) ⊎ (t + n ≤ s)
    → name_at n s (strncpy n s t m) ≡ name_at n t m
unfolding strncpy
strncpy-name zero s t m h = name_at-zero s m ∙ sym (name_at-zero t m)
strncpy-name (suc n) s t m h = elim (Bool-cases (m t == 0)) [
  | inl ends ↦
      rw (ends, strncpy)
        (name_at-end (suc n) s (pad n (s + 1) (update m s (m t))) (
            pad-outside n (s + 1) (update m s (m t)) s (omega arith)
            ∙ update-at m s (m t)
            ∙ ground arith)
          ∙ sym (name_at-end (suc n) t m (ground arith)))
  | inr goes_on ↦
      let m' = update m s (m t) in
      let first : strncpy n (s + 1) (t + 1) m' s ≡ m t =
        strncpy-outside n (s + 1) (t + 1) m' s (omega arith) ∙ update-at m s (m t) in
      rw (goes_on, strncpy)
        (name_at-more n s (strncpy n (s + 1) (t + 1) m') (ap (λ b. b == 0) first ∙ goes_on)
          ∙ ap₂ ◌∷◌ first (
              strncpy-name n (s + 1) (t + 1) m' (omega arith)
              ∙ name_at-same n (t + 1) m m' (λ a lo hi. update-away m s (m t) a (omega arith)))
          ∙ sym (name_at-more n t m goes_on))
]

-- strncpy writes the string `t` to the `n` bytes at `s`, which strncmp then finds equal to it, and no
-- other byte, where the two regions do not meet.
pub strncmp-strncpy :
    (n s t : ℕ) (m : ℕ → ℕ)
    → (s + n ≤ t) ⊎ (t + n ≤ s)
    → (strncmp n s t (strncpy n s t m) ≡ pos 0)
      × ((a : ℕ) → IsOutside s n a → strncpy n s t m a ≡ m a)
strncmp-strncpy n s t m h = (
  strncmp-same n s t (strncpy n s t m) (
      strncpy-name n s t m h
      ∙ sym (
          name_at-same n t m (strncpy n s t m)
            (λ a lo hi. strncpy-outside n s t m a (omega arith)))),
  strncpy-outside n s t m,
)

copy_string-outside :
    (n s t : ℕ) (m : ℕ → ℕ) (a : ℕ) → IsOutside s (suc n) a → copy_string n s t m a ≡ m a
unfolding copy_string
copy_string-outside zero s t m a h = ground arith
copy_string-outside (suc n) s t m a h = elim (Bool-cases (m t == 0)) [
  | inl ends ↦ rw (ends, copy_string) (ground arith)
  | inr goes_on ↦
      rw (goes_on, copy_string)
        (copy_string-outside n (s + 1) (t + 1) (update m s (m t)) a (omega arith) ∙ ground arith)
]

copy_string-name :
    (n s t : ℕ) (m : ℕ → ℕ)
    → (s + n < t) ⊎ (t + n ≤ s)
    → name_at (suc n) s (copy_string n s t m) ≡ name_at n t m
unfolding copy_string
copy_string-name zero s t m h =
    name_at-end 1 s (update m s 0) (update-at m s 0) ∙ sym (name_at-zero t m)
copy_string-name (suc n) s t m h = elim (Bool-cases (m t == 0)) [
  | inl ends ↦
      rw (ends, copy_string)
        (name_at-end (suc (suc n)) s (update (update m s (m t)) (s + 1) 0) (ground arith)
          ∙ sym (name_at-end (suc n) t m (ground arith)))
  | inr goes_on ↦
      let m' = update m s (m t) in
      let first : copy_string n (s + 1) (t + 1) m' s ≡ m t =
        copy_string-outside n (s + 1) (t + 1) m' s (omega arith) ∙ update-at m s (m t) in
      rw (goes_on, copy_string)
        (name_at-more (suc n) s (copy_string n (s + 1) (t + 1) m')
            (ap (λ b. b == 0) first ∙ goes_on)
          ∙ ap₂ ◌∷◌ first (
              copy_string-name n (s + 1) (t + 1) m' (omega arith)
              ∙ name_at-same n (t + 1) m m' (λ a lo hi. update-away m s (m t) a (omega arith)))
          ∙ sym (name_at-more n t m goes_on))
]

-- safestrcpy into `n + 1` bytes copies `n` bytes of the string at most, ends it with a 0 within them,
-- and writes no byte outside them.
pub safestrcpy_lem :
    (n s t : ℕ) (m : ℕ → ℕ)
    → (s + n < t) ⊎ (t + n ≤ s)
    → (name_at (suc n) s (safestrcpy (suc n) s t m) ≡ name_at n t m)
      × ((a : ℕ) → IsOutside s (suc n) a → safestrcpy (suc n) s t m a ≡ m a)
unfolding safestrcpy
safestrcpy_lem n s t m h = (copy_string-name n s t m h, copy_string-outside n s t m)

-- strlen finds the first 0, where there is one in the memory.
pub strlen_lem :
    (left s k : ℕ) (m : ℕ → ℕ)
    → k < left
    → m (s + k) ≡ 0
    → ((j : ℕ) → j < k → m (s + j) ≢ 0)
    → strlen left s m ≡ some k
unfolding strlen
strlen_lem zero s k m l z before = absurd (omega arith)
strlen_lem (suc left) s zero m l z before =
    let e : s + 0 ≡ s = omega arith in
    let t : (m s == 0) ≡ true = ground (arith, ap m e) in rw (t, strlen) refl
strlen_lem (suc left) s (suc k) m l z before =
    let e : s + 0 ≡ s = omega arith in
    let t : (m s == 0) ≡ false = ground (arith, before 0, ap m e) in
    let z' = ap m {x = s + 1 + k} {y = s + suc k} (omega arith) in
    rw (t, strlen)
      (ap one_more (
        strlen_lem left (s + 1) k m (omega arith) (z' ∙ z) (λ j lt q.
          before (suc j) (omega arith) (ap m {x = s + suc j} {y = s + 1 + j} (omega arith) ∙ q))))
