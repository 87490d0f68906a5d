-- ===== src/Pipe/Queue.antt =====
-- A pipe is a bounded queue of bytes.
use os_project.Prelude.{
  ℕ, zero, suc, ◌+◌, ◌-◌, ◌%◌, ◌^◌, ◌≤◌, ◌<◌, ◌≡◌, ◌∙◌, ap, refl, false, List, [], ◌∷◌, ◌++◌, arith,
  length, update, ◌==◌,
}
use os_project.Pipe.{pipe_size, Pipe, is_full, is_empty, put, taken}
use os_project.Pipe.Cells.{cells, cells-mod, cells_put}

-- The number of bytes in the pipe.
abbrev pub used : Pipe → ℕ
used p = (p.nwrite + (2 ^ 32 - p.nread)) % 2 ^ 32

-- The bytes in the pipe, the oldest first.
abbrev pub contents : Pipe → List ℕ
contents p = cells p.bytes p.nread (used p)

pub record IsPipe (p : Pipe) : Type 0 where
  pub bound : used p ≤ pipe_size
  pub small_read : p.nread < 2 ^ 32
  pub small_write : p.nwrite < 2 ^ 32

pub length-cells : (t : ℕ → ℕ) (i n : ℕ) → length (cells t i n) ≡ n
unfolding cells
length-cells t i zero = refl
length-cells t i (suc n) = omega (arith, length-cells t (i + 1) n)

pub is_full-used : (p : Pipe) → IsPipe p → is_full p ≡ (used p == pipe_size)
is_full-used p h = ground arith

pub is_empty-used : (p : Pipe) → IsPipe p → is_empty p ≡ (used p == 0)
is_empty-used p h = ground arith

-- A byte that is put into a pipe with room stands last.
pub put-contents :
    (b : ℕ) (p : Pipe)
    → IsPipe p
    → is_full p ≡ false
    → IsPipe (put b p) × (contents (put b p) ≡ contents p ++ b ∷ [])
unfolding put
put-contents b p h room =
    let more : used (put b p) ≡ suc (used p) = ground (arith, is_full-used p h) in
    let free : used p < pipe_size = ground (arith, is_full-used p h) in
    (
      record { bound = omega arith; small_read = h.small_read; small_write = omega arith },
      ap (cells (update p.bytes (p.nwrite % pipe_size) b) p.nread) more
          ∙ cells_put p.bytes p.nread (used p) p.nwrite b free
              (omega (arith, h.small_read, h.small_write)),
    )

-- The byte that is taken stood first.
pub take-contents :
    (p : Pipe)
    → IsPipe p
    → is_empty p ≡ false
    → IsPipe (taken p) × (contents p ≡ p.bytes (p.nread % pipe_size) ∷ contents (taken p))
unfolding taken cells
take-contents p h some_left =
    let less : used p ≡ suc (used (taken p)) = ground (arith, is_empty-used p h) in
    (
      record {
        bound = omega (arith, h.bound);
        small_read = omega arith;
        small_write = h.small_write;
      },
      ap (cells p.bytes p.nread) less
          ∙ ap (λ xs. p.bytes (p.nread % pipe_size) ∷ xs)
              (cells-mod p.bytes (p.nread + 1) ((p.nread + 1) % 2 ^ 32) (used (taken p))
                (omega arith)),
    )
