-- ===== src/Log/Header.antt =====
-- The header block: what write_head puts into a block, read_head finds there.
use os_project.Prelude.{ℕ, ◌+◌, ◌<◌, ◌≡◌, ◌∙◌, refl, List, [], ◌∷◌, arith, length, update}
use os_project.Log.Power.{Block}
use os_project.Log.{read_words, put_words}

put_words-below : (bs : List ℕ) (i : ℕ) (w : Block) (j : ℕ) → j < i → put_words bs i w j ≡ w j
unfolding put_words
put_words-below [] i w j l = refl
put_words-below (b ∷ bs) i w j l =
    put_words-below bs (i + 1) (update w i b) j (omega arith) ∙ ground arith

read-put_words :
    (bs : List ℕ) (i : ℕ) (w : Block) → read_words (length bs) i (put_words bs i w) ≡ bs
unfolding read_words put_words
read-put_words [] i w = refl
read-put_words (b ∷ bs) i w =
    rw
      (
        read-put_words bs (i + 1) (update w i b),
        put_words-below bs (i + 1) (update w i b) i (omega arith),
      )
      (ground arith)

-- The words of the header block that lists `bs`.
abbrev pub head_block : List ℕ → Block → Block
head_block bs w = put_words bs 1 (update w 0 (length bs))

-- The blocks that a header block lists.
abbrev pub listed : Block → List ℕ
listed w = read_words (w 0) 1 w

-- The header block lists the blocks that were put into it.
pub listed-head_block : (bs : List ℕ) (w : Block) → listed (head_block bs w) ≡ bs
listed-head_block bs w =
    rw (put_words-below bs 1 (update w 0 (length bs)) 0 (omega arith))
      (read-put_words bs 1 (update w 0 (length bs)))
