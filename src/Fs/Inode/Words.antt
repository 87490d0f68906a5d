-- ===== src/Fs/Inode/Words.antt =====
-- Words that are written to a block one after the other.
use os_project.Prelude.{
  ℕ, zero, suc, ◌+◌, ◌^◌, ◌≤◌, ◌<◌, ◌≡◌, ◌⊎◌, ◌∙◌, refl, ap, arith, List, [], ◌∷◌, All, length,
  get_elem?, some,
}
use os_project.Fs.Bits.{word, set_word, word-set_word, word-set_other}
use os_project.Fs.Inode.{words_from, set_words}

pub set_words-outside :
    (xs : List ℕ) (i j : ℕ) (w : ℕ → ℕ)
    → (j < i) ⊎ (i + length xs ≤ j)
    → word (set_words xs i w) j ≡ word w j
unfolding set_words
set_words-outside [] i j w h = refl
set_words-outside (x ∷ xs) i j w h =
    set_words-outside xs (i + 1) j (set_word w i x) (omega arith)
    ∙ word-set_other w i j x (omega arith)

pub set_words-inside :
    (xs : List ℕ) (i k x : ℕ) (w : ℕ → ℕ)
    → All (λ y. y < 2 ^ 32) xs
    → get_elem? xs k ≡ some x
    → word (set_words xs i w) (i + k) ≡ x
unfolding set_words
set_words-inside [] i k x w h e = absurd (cc e)
set_words-inside (y ∷ ys) i zero x w h e =
    ap (word (set_words ys (i + 1) (set_word w i y))) {x = i + 0} {y = i} (omega arith)
    ∙ set_words-outside ys (i + 1) i (set_word w i y) (omega arith)
    ∙ word-set_word w i y h.0
    ∙ some-injective e
  where
    some-injective : some y ≡ some x → y ≡ x
    some-injective e = cc
set_words-inside (y ∷ ys) i (suc k) x w h e =
    ap (word (set_words ys (i + 1) (set_word w i y))) {x = i + suc k} {y = i + 1 + k} (omega arith)
    ∙ set_words-inside ys (i + 1) k x (set_word w i y) h.1 e

pub get_elem?-words_from :
    (n i k : ℕ) (f : ℕ → ℕ) → k < n → get_elem? (words_from n i f) k ≡ some (f (i + k))
unfolding words_from
get_elem?-words_from zero i k f l = absurd (omega arith)
get_elem?-words_from (suc n) i zero f l = ap (λ j. some (f j)) {x = i} {y = i + 0} (omega arith)
get_elem?-words_from (suc n) i (suc k) f l =
    get_elem?-words_from n (i + 1) k f (omega arith)
    ∙ ap (λ j. some (f j)) {x = i + 1 + k} {y = i + suc k} (omega arith)

pub words_from-All :
    (n i : ℕ) (f : ℕ → ℕ)
    → ((j : ℕ) → j < i + n → f j < 2 ^ 32)
    → All (λ y. y < 2 ^ 32) (words_from n i f)
unfolding words_from
words_from-All zero i f h = tt
words_from-All (suc n) i f h =
    (h i (omega arith), words_from-All n (i + 1) f (λ j l. h j (omega arith)))

pub length-words_from : (n i : ℕ) (f : ℕ → ℕ) → length (words_from n i f) ≡ n
unfolding words_from
length-words_from zero i f = refl
length-words_from (suc n) i f = omega (arith, length-words_from n (i + 1) f)
