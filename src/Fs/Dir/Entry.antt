-- ===== src/Fs/Dir/Entry.antt =====
-- An entry of a directory as it is read, and its test.
use os_project.Prelude.{
  ℕ, ◌+◌, ◌-◌, ◌*◌, ◌<◌, ◌≡◌, ◌≢◌, ◌⊎◌, inl, inr, ◌∙◌, refl, sym, ap, true, false, ltb, ◌==◌,
  if◌then◌else◌, arith, Bool-cases,
}
use mathlib.Core.Path.{ap₂}
use os_project.Prelude.Int.{ℤ, pos, negsuc}
use os_project.Bytes.Names.{name_at, name_at-shift, strncmp_lem}
use os_project.Fs.Names.{dirsiz}
use os_project.Fs.Dir.{dirent_size, inum_of, names, namecmp, is_zero, matches}

-- The inode number of the entry at `off`, and its name.
abbrev pub entry_inum : (ℕ → ℕ) → ℕ → ℕ
entry_inum byte off = byte off + 256 * byte (off + 1)

-- The entry at `off` is in use and has the name.
abbrev pub Names : (ℕ → ℕ) → (ℕ → ℕ) → ℕ → Type 0
Names name byte off =
    (entry_inum byte off ≢ 0) × (name_at dirsiz 0 name ≡ name_at dirsiz (off + 2) byte)

-- The bytes of an entry as they are read.
abbrev pub IsEntry : (ℕ → ℕ) → ℕ → (ℕ → ℕ) → Type 0
IsEntry byte off de = (i : ℕ) → i < dirent_size → de i ≡ byte (off + i)

pub inum-entry :
    (byte : ℕ → ℕ) (off : ℕ) (de : ℕ → ℕ) → IsEntry byte off de → inum_of de ≡ entry_inum byte off
inum-entry byte off de h =
    ap₂ (λ p q. p + 256 * q) (h 0 (omega arith) ∙ ap byte (omega arith)) (h 1 (omega arith))

name-entry :
    (name byte : ℕ → ℕ) (off : ℕ) (de : ℕ → ℕ)
    → IsEntry byte off de
    → (name_at dirsiz 0 (names name de) ≡ name_at dirsiz 0 name)
      × (name_at dirsiz dirsiz (names name de) ≡ name_at dirsiz (off + 2) byte)
name-entry name byte off de h = (
  name_at-shift dirsiz 0 0 name (names name de) (λ i l. first i l),
  name_at-shift dirsiz (off + 2) dirsiz byte (names name de)
      (λ i l. second i l ∙ h (2 + i) (omega arith) ∙ ap byte (omega arith)),
)
  where
    first : (i : ℕ) → i < dirsiz → names name de (0 + i) ≡ name (0 + i)
    first i l = ap (λ q. if q then name (0 + i) else de (2 + (0 + i - dirsiz))) (low i l)
      where
        low : (i : ℕ) → i < dirsiz → ltb (0 + i) dirsiz ≡ true
        low i l = ground arith

    second : (i : ℕ) → i < dirsiz → names name de (dirsiz + i) ≡ de (2 + i)
    second i l =
        ap (λ q. if q then name (dirsiz + i) else de (2 + (dirsiz + i - dirsiz))) (high i)
        ∙ ap de (omega arith)
      where
        high : (i : ℕ) → ltb (dirsiz + i) dirsiz ≡ false
        high i = ground arith

zero_is : (z : ℤ) → is_zero z ≡ true → z ≡ pos 0
zero_is (pos n) e = let q : n ≡ 0 = ground arith in ap pos q
zero_is (negsuc n) e = absurd (cc e)

-- The test of a round.
pub entry_test :
    (name byte : ℕ → ℕ) (off : ℕ) (de : ℕ → ℕ)
    → IsEntry byte off de
    → ((matches name de ≡ true) × Names name byte off)
      ⊎ ((matches name de ≡ false) × ¬ (Names name byte off))
unfolding matches
entry_test name byte off de h =
    let (left, right) = name-entry name byte off de h in
    elim (Bool-cases (inum_of de == 0)) [
      | inl free ↦
          inr (rw free refl, λ n. n.0 (sym (inum-entry byte off de h) ∙ at_zero (inum_of de) free))
      | inr used ↦ elim (Bool-cases (is_zero (namecmp name de))) [
        | inl same ↦ inl (
          rw (used, same) refl,
          (
            (λ e. not_zero (inum_of de) used (inum-entry byte off de h ∙ e)),
            sym left
                ∙ (strncmp_lem dirsiz 0 dirsiz (names name de)).0 (zero_is (namecmp name de) same)
                ∙ right,
          ),
        )
        | inr other ↦ inr (
          rw (used, other) refl,
          λ n. absurd (
              cc (
                sym other
                ∙ ap is_zero
                    ((strncmp_lem dirsiz 0 dirsiz (names name de)).1 (left ∙ n.1 ∙ sym right)))),
        )
      ]
    ]
  where
    at_zero : (x : ℕ) → (x == 0) ≡ true → x ≡ 0
    at_zero x e = ground arith

    not_zero : (x : ℕ) → (x == 0) ≡ false → x ≢ 0
    not_zero x e = ground arith
