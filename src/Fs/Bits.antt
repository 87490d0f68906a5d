-- ===== src/Fs/Bits.antt =====
-- The bits of a byte and the words of a block, as fs.c reads and writes them through C's shifts and
-- casts: little endian, with words of 32 bits.
use os_project.Prelude.{
  ℕ, zero, suc, ◌+◌, ◌*◌, ◌/◌, ◌%◌, ◌^◌, ◌<◌, ◌≡◌, ◌≢◌, ◌⊎◌, ◌∙◌, refl, ap, Bool, false, not, ◌&&◌,
  ◌||◌, ◌==◌, arith, update,
}

-- (x & (1 << k)) != 0
unfoldable pub has_bit : ℕ → ℕ → Bool
has_bit x zero = x % 2 == 1
has_bit x (suc k) = has_bit (x / 2) k

-- x | (1 << k)
unfoldable pub set_bit : ℕ → ℕ → ℕ
set_bit x zero = x / 2 * 2 + 1
set_bit x (suc k) = set_bit (x / 2) k * 2 + x % 2

-- x & ~(1 << k)
unfoldable pub clear_bit : ℕ → ℕ → ℕ
clear_bit x zero = x / 2 * 2
clear_bit x (suc k) = clear_bit (x / 2) k * 2 + x % 2

half : (a r : ℕ) → r < 2 → (a * 2 + r) / 2 ≡ a
half a r l = omega arith

low : (a r : ℕ) → r < 2 → (a * 2 + r) % 2 ≡ r
low a r l = omega arith

pub has_bit-set_bit : (k j x : ℕ) → has_bit (set_bit x k) j ≡ (k == j || has_bit x j)
unfolding has_bit set_bit
has_bit-set_bit zero zero x = ground arith
has_bit-set_bit zero (suc j) x =
    ap (λ y. has_bit y j) (half (x / 2) 1 (omega arith))
    ∙ ap (λ b. b || has_bit (x / 2) j) {x = false} {y = 0 == suc j} (ground arith)
has_bit-set_bit (suc k) zero x =
    ap (λ y. y == 1) (low (set_bit (x / 2) k) (x % 2) (omega arith))
    ∙ ap (λ b. b || (x % 2 == 1)) {x = false} {y = suc k == 0} (ground arith)
has_bit-set_bit (suc k) (suc j) x =
    ap (λ y. has_bit y j) (half (set_bit (x / 2) k) (x % 2) (omega arith))
    ∙ has_bit-set_bit k j (x / 2)
    ∙ ap (λ b. b || has_bit (x / 2) j) (ground arith)

pub has_bit-clear_bit : (k j x : ℕ) → has_bit (clear_bit x k) j ≡ (not (k == j) && has_bit x j)
unfolding has_bit clear_bit
has_bit-clear_bit zero zero x = ground arith
has_bit-clear_bit zero (suc j) x =
    ap (λ y. has_bit y j) {x = x / 2 * 2 / 2} {y = x / 2} (omega arith)
    ∙ ap (λ b. not b && has_bit (x / 2) j) {x = false} {y = 0 == suc j} (ground arith)
has_bit-clear_bit (suc k) zero x =
    ap (λ y. y == 1) (low (clear_bit (x / 2) k) (x % 2) (omega arith))
    ∙ ap (λ b. not b && (x % 2 == 1)) {x = false} {y = suc k == 0} (ground arith)
has_bit-clear_bit (suc k) (suc j) x =
    ap (λ y. has_bit y j) (half (clear_bit (x / 2) k) (x % 2) (omega arith))
    ∙ has_bit-clear_bit k j (x / 2)
    ∙ ap (λ b. not b && has_bit (x / 2) j) (ground arith)

-- ((uint*)data)[i]
unfoldable pub word : (ℕ → ℕ) → ℕ → ℕ
word w i =
    w (4 * i) % 256
    + w (4 * i + 1) % 256 * 256
    + w (4 * i + 2) % 256 * 65536
    + w (4 * i + 3) % 256 * 16777216

-- ((uint*)data)[i] = v
unfoldable pub set_word : (ℕ → ℕ) → ℕ → ℕ → ℕ → ℕ
set_word w i v =
    update
      (update (update (update w (4 * i) (v % 256)) (4 * i + 1) (v / 256 % 256)) (4 * i + 2)
        (v / 65536 % 256))
      (4 * i + 3) (v / 16777216 % 256)

set_word-bytes :
    (w : ℕ → ℕ) (i v : ℕ)
    → (set_word w i v (4 * i) ≡ v % 256)
      × (set_word w i v (4 * i + 1) ≡ v / 256 % 256)
      × (set_word w i v (4 * i + 2) ≡ v / 65536 % 256)
      × (set_word w i v (4 * i + 3) ≡ v / 16777216 % 256)
unfolding set_word
set_word-bytes w i v = (ground arith, ground arith, ground arith, ground arith)

set_word-rest : (w : ℕ → ℕ) (i v a : ℕ) → (a < 4 * i) ⊎ (4 * i + 3 < a) → set_word w i v a ≡ w a
unfolding set_word
set_word-rest w i v a h = ground arith

four_bytes :
    (v : ℕ)
    → v < 2 ^ 32
    → v % 256 % 256
        + v / 256 % 256 % 256 * 256
        + v / 65536 % 256 % 256 * 65536
        + v / 16777216 % 256 % 256 * 16777216
      ≡ v
four_bytes v l = omega arith

pub word-set_word : (w : ℕ → ℕ) (i v : ℕ) → v < 2 ^ 32 → word (set_word w i v) i ≡ v
unfolding word
word-set_word w i v l =
    let (b0, b1, b2, b3) = set_word-bytes w i v in rw (b0, b1, b2, b3) (four_bytes v l)

pub word-set_other : (w : ℕ → ℕ) (i j v : ℕ) → i ≢ j → word (set_word w i v) j ≡ word w j
unfolding word
word-set_other w i j v d =
    rw
      (
        set_word-rest w i v (4 * j) (omega arith),
        set_word-rest w i v (4 * j + 1) (omega arith),
        set_word-rest w i v (4 * j + 2) (omega arith),
        set_word-rest w i v (4 * j + 3) (omega arith),
      )
      refl

pub word-bound : (w : ℕ → ℕ) (i : ℕ) → word w i < 2 ^ 32
unfolding word
word-bound w i = omega arith
