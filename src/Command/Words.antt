-- ===== src/Command/Words.antt =====
-- The words of a command line: the parts between spaces and tabs that are not empty.
use gen_blob.Base.{ℕ, Bool, ◌||◌, List, [], ◌∷◌, ◌≡◌, refl, arith, ◌==◌, if◌then◌else◌, map}

abbrev pub blank : ℕ → Bool
blank c = c == b' ' || c == 9

-- The part up to the first blank.
abbrev pub head_part : List ℕ → List ℕ
head_part [] = []
head_part (c ∷ cs) = if blank c then [] else c ∷ head_part cs

abbrev pub add_word : List ℕ → List (List ℕ) → List (List ℕ)
add_word [] ws = ws
add_word (c ∷ cs) ws = (c ∷ cs) ∷ ws

-- The words behind that part.
abbrev pub tail_words : List ℕ → List (List ℕ)
tail_words [] = []
tail_words (c ∷ cs) = if blank c then add_word (head_part cs) (tail_words cs) else tail_words cs

unfoldable pub words : List ℕ → List (List ℕ)
words s = add_word (head_part s) (tail_words s)

-- A tab becomes a space.
abbrev pub spaced : ℕ → ℕ
spaced c = if c == 9 then b' ' else c

head_part-spaced : (s : List ℕ) → head_part (map spaced s) ≡ head_part s
head_part-spaced [] = refl
head_part-spaced (c ∷ cs) = ground (arith, head_part-spaced cs)

tail_words-spaced : (s : List ℕ) → tail_words (map spaced s) ≡ tail_words s
tail_words-spaced [] = refl
tail_words-spaced (c ∷ cs) = ground (arith, tail_words-spaced cs, head_part-spaced cs)

pub words-spaced : (s : List ℕ) → words (map spaced s) ≡ words s
unfolding words
words-spaced s = rw (head_part-spaced s, tail_words-spaced s) refl
