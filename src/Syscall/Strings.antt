-- ===== src/Syscall/Strings.antt =====
-- fetchstr and argstr: a string that ends within the memory of the process.
use os_project.Prelude.{
  ℕ, zero, suc, ◌+◌, ◌-◌, ◌<◌, ◌≤◌, ◌≡◌, ◌≢◌, ◌⊎◌, inl, inr, ◌∙◌, refl, ap, true, false, Option,
  none, some, leb, ◌==◌, arith, Bool-cases,
}
use mathlib.Core.Path.{subst}
use os_project.Syscall.{User, find_nul, fetchstr}

-- The string at `a` has `len` bytes before its nul.
pub record IsString (u : User) (a len : ℕ) : Type 0 where
  pub inside : a + len < u.sz
  pub ends : u.mem (a + len) ≡ 0
  pub before : (j : ℕ) → a ≤ j → j < a + len → u.mem j ≢ 0

abbrev FirstNul : ℕ → ℕ → (ℕ → ℕ) → Option ℕ → Type 0
FirstNul left s mem none = (j : ℕ) → s ≤ j → j < s + left → mem j ≢ 0
FirstNul left s mem (some k) =
    (s ≤ k) × (k < s + left) × (mem k ≡ 0) × ((j : ℕ) → s ≤ j → j < k → mem j ≢ 0)

find_nul-FirstNul : (left s : ℕ) (mem : ℕ → ℕ) → FirstNul left s mem (find_nul left s mem)
unfolding find_nul
find_nul-FirstNul zero s mem = λ j l m. absurd (omega (arith, l, m))
find_nul-FirstNul (suc left) s mem = elim (Bool-cases (mem s == 0)) [
  | inl nul ↦
      rw (nul, find_nul)
        (omega arith, omega arith, zero_is (mem s) nul, λ j l m. absurd (omega (arith, l, m)))
  | inr more ↦
      rw (more, find_nul)
        (later more (find_nul left (s + 1) mem) (find_nul-FirstNul left (s + 1) mem))
]
  where
    zero_is : (x : ℕ) → (x == 0) ≡ true → x ≡ 0
    zero_is x e = ground arith

    not_before : (j : ℕ) → (mem s == 0) ≡ false → s ≤ j → (s + 1 ≤ j → mem j ≢ 0) → mem j ≢ 0
    not_before j more l h = elim (Bool-cases (s == j)) [
      | inl at ↦ let e : s ≡ j = ground arith in subst (λ q. mem q ≢ 0) e (not_zero (mem s) more)
      | inr off ↦ h (ground arith)
    ]
      where
        not_zero : (x : ℕ) → (x == 0) ≡ false → x ≢ 0
        not_zero x e = ground arith

    later :
        (mem s == 0) ≡ false
        → (r : Option ℕ) → FirstNul left (s + 1) mem r
        → FirstNul (suc left) s mem r
    later more none h = λ j l m. not_before j more l (λ l'. h j l' (omega (arith, m)))
    later more (some k) h = (
      omega (arith, h.0),
      omega (arith, h.1),
      h.2,
      λ j l m. not_before j more l (λ l'. h.3 j l' m),
    )

-- fetchstr accepts the address of a string that ends in the memory of the process, and returns its length; it
-- refuses an address behind the memory, and one from which on there is no nul in it.
pub fetchstr_lem :
    (u : User) (a : ℕ)
    → ((len : ℕ) × (fetchstr u a ≡ some (a, len)) × IsString u a len)
      ⊎ ((fetchstr u a ≡ none) × ((j : ℕ) → a ≤ j → j < u.sz → u.mem j ≢ 0))
unfolding fetchstr
fetchstr_lem u a = elim (Bool-cases (leb u.sz a)) [
  | inl out ↦ inr (outside out, λ j l m. absurd (behind j out l m))
  | inr low ↦
      ends (below low) low (find_nul (u.sz - a) a u.mem) refl (find_nul-FirstNul (u.sz - a) a u.mem)
]
  where
    outside : leb u.sz a ≡ true → fetchstr u a ≡ none
    outside e = rw e refl

    behind : (j : ℕ) → leb u.sz a ≡ true → a ≤ j → j < u.sz → ⊥
    behind j e l m = ground arith

    below : leb u.sz a ≡ false → a < u.sz
    below e = ground arith

    ends :
        a < u.sz
        → leb u.sz a ≡ false
        → (r : Option ℕ) → find_nul (u.sz - a) a u.mem ≡ r
        → FirstNul (u.sz - a) a u.mem r
        → ((len : ℕ) × (fetchstr u a ≡ some (a, len)) × IsString u a len)
          ⊎ ((fetchstr u a ≡ none) × ((j : ℕ) → a ≤ j → j < u.sz → u.mem j ≢ 0))
    ends l low none e h = inr (rw (low, e) refl, λ j lo m. h j lo (omega (arith, m)))
    ends l low (some k) e h =
        let at : a + (k - a) ≡ k = omega (arith, h.0) in
        inl (
          k - a,
          rw (low, e) refl,
          record {
            inside = omega (arith, h.0, h.1);
            ends = ap u.mem at ∙ h.2;
            before = λ j lo m. h.3 j lo (omega (arith, m, at));
          },
        )
