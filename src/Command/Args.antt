-- ===== src/Command/Args.antt =====
-- parse_args finds the words of the line.
use gen_blob.Base.{
  ℕ, suc, ◌+◌, ◌-◌, ◌≤◌, ◌<◌, true, false, List, [], ◌∷◌, none, some, ◌≡◌, ◌≢◌, refl, sym, ap,
  subst, ◌∙◌, arith, ◌==◌, leb, length, map, drop, Bool-cases, inl, inr,
}
use gen_blob.Text.{IsString, nul, char}
use gen_blob.Text.Laws.{strlen-length}
use gen_blob.Command.{detab, find_words, parse_args, max_args}
use gen_blob.Command.Words.{blank, head_part, tail_words, words, spaced, words-spaced}

-- At the places stand the words, each ended by a NUL.
abbrev pub Args : List ℕ → List ℕ → List (List ℕ) → Type 0
Args line [] [] = Unit
Args line (p ∷ places) (w ∷ ws) = IsString (drop p line) w × Args line places ws
Args line _ _ = ⊥

-- The same for a part of the line that begins at place `at`.
abbrev ArgsFrom : ℕ → List ℕ → List ℕ → List (List ℕ) → Type 0
ArgsFrom at line [] [] = Unit
ArgsFrom at line (p ∷ places) (w ∷ ws) =
    ((at ≤ p) × IsString (drop (p - at) line) w) × ArgsFrom at line places ws
ArgsFrom at line _ _ = ⊥

ArgsFrom-Args :
    (line places : List ℕ) (ws : List (List ℕ)) → ArgsFrom 0 line places ws → Args line places ws
ArgsFrom-Args line [] [] h = tt
ArgsFrom-Args line (p ∷ ps) (w ∷ ws) h =
    let zero_off : p - 0 ≡ p = omega arith in
    (subst (λ k. IsString (drop k line) w) zero_off h.0.1, ArgsFrom-Args line ps ws h.1)
ArgsFrom-Args line [] (w ∷ ws) h = absurd h
ArgsFrom-Args line (p ∷ ps) [] h = absurd h

-- One more character in front.
shift :
    (at c : ℕ) (line places : List ℕ) (ws : List (List ℕ))
    → ArgsFrom (suc at) line places ws
    → ArgsFrom at (c ∷ line) places ws
shift at c line [] [] h = tt
shift at c line (p ∷ ps) (w ∷ ws) h =
    let more : p - at ≡ suc (p - suc at) = omega (arith, h.0.0) in
    (
      (omega (arith, h.0.0), subst (λ k. IsString (drop k (c ∷ line)) w) (sym more) h.0.1),
      shift at c line ps ws h.1,
    )
shift at c line [] (w ∷ ws) h = absurd h
shift at c line (p ∷ ps) [] h = absurd h

abbrev NoTab : List ℕ → Type 0
NoTab [] = Unit
NoTab (c ∷ cs) = (c ≢ 9) × NoTab cs

spaced-NoTab : (s : List ℕ) → NoTab (map spaced s)
spaced-NoTab [] = tt
spaced-NoTab (c ∷ cs) = (ground arith, spaced-NoTab cs)

detab-spaced :
    {line s : List ℕ}
    → IsString line s
    → (line' : List ℕ) × (detab line ≡ some line') × IsString line' (map spaced s)
unfolding detab
detab-spaced (nul {c} {rest} e) = (c ∷ rest, ground arith, nul e)
detab-spaced (char {c} n p) =
    let (cs', runs, q) = detab-spaced p in
    let other : c == 0 ≡ false = ground arith in
    (spaced c ∷ cs', rw (other, runs) refl, char (ground arith) q)

-- What the loop finds from outside a word, and from inside one.
abbrev Outside : List ℕ → List ℕ → ℕ → ℕ → Type 0
Outside line s at i =
    (line' : List ℕ) × (places : List ℕ) × (find_words line at i false ≡ some (line', places))
    × ArgsFrom at line' places (words s)

abbrev Inside : List ℕ → List ℕ → ℕ → ℕ → Type 0
Inside line s at i =
    (line' : List ℕ) × (places : List ℕ) × (find_words line at i true ≡ some (line', places))
    × IsString line' (head_part s)
    × ArgsFrom at line' places (tail_words s)

skip_blank :
    (c : ℕ) (line s : List ℕ) (at i : ℕ)
    → c ≡ b' '
    → Outside line s (suc at) i
    → Outside (c ∷ line) (c ∷ s) at i
unfolding find_words words
skip_blank c line s at i e (line', places, runs, args) =
    rw (e, runs) (b' ' ∷ line', places, refl, shift at b' ' line' places (words s) args)

start_word :
    (c : ℕ) (line s : List ℕ) (at i : ℕ)
    → c ≢ 0
    → blank c ≡ false
    → i < max_args
    → Inside line s (suc at) (suc i)
    → Outside (c ∷ line) (c ∷ s) at i
unfolding find_words words
start_word c line s at i n b room (line', places, runs, word, args) =
    let zero_test : c == 0 ≡ false = ground arith in
    let space_test : c == b' ' ≡ false = ground arith in
    let room_test : leb max_args i ≡ false = ground arith in
    let here : at - at ≡ 0 = omega arith in
    rw (b, zero_test, space_test, room_test, runs)
      (
        c ∷ line',
        at ∷ places,
        refl,
        ((omega arith, rw here (char n word)), shift at c line' places (tail_words s) args),
      )

end_word :
    (c : ℕ) (line s : List ℕ) (at i : ℕ)
    → c ≡ b' '
    → Outside line s (suc at) i
    → Inside (c ∷ line) (c ∷ s) at i
unfolding find_words words
end_word c line s at i e (line', places, runs, args) =
    rw (e, runs) (0 ∷ line', places, refl, nul refl, shift at 0 line' places (words s) args)

go_on_word :
    (c : ℕ) (line s : List ℕ) (at i : ℕ)
    → c ≢ 0
    → blank c ≡ false
    → Inside line s (suc at) i
    → Inside (c ∷ line) (c ∷ s) at i
unfolding find_words words
go_on_word c line s at i n b (line', places, runs, word, args) =
    let zero_test : c == 0 ≡ false = ground arith in
    let space_test : c == b' ' ≡ false = ground arith in
    rw (b, zero_test, space_test, runs)
      (c ∷ line', places, refl, char n word, shift at c line' places (tail_words s) args)

find_words-Args :
    {line s : List ℕ}
    → IsString line s
    → NoTab s
    → ((at i : ℕ) → i + length (words s) ≤ max_args → Outside line s at i)
      × ((at i : ℕ) → i + length (tail_words s) ≤ max_args → Inside line s at i)
unfolding find_words words
find_words-Args (nul {c} {rest} e) t = (
  (λ at i h. (c ∷ rest, [], ground arith, tt)),
  λ at i h. (c ∷ rest, [], ground arith, nul e, tt),
)
find_words-Args (char {c} {s = line} {xs = s} n p) t =
    let ih = find_words-Args p t.1 in
    elim (Bool-cases (blank c)) [
      | inl b ↦
          let e : c ≡ b' ' = ground (arith, t.0) in
          (
            (λ at i h.
                skip_blank c line s at i e
                  (ih.0 (suc at) i (subst (λ x. i + length (words (x ∷ s)) ≤ max_args) e h))),
            λ at i h.
                end_word c line s at i e
                  (ih.0 (suc at) i (subst (λ x. i + length (tail_words (x ∷ s)) ≤ max_args) e h)),
          )
      | inr b ↦ (
        (λ at i h.
            start_word c line s at i n b (ground (arith, h, b))
              (ih.1 (suc at) (suc i) (ground (arith, h, b)))),
        λ at i h. go_on_word c line s at i n b (ih.1 (suc at) i (ground (arith, h, b))),
      )
    ]

-- A string that is not empty goes through both loops.
parse_args_nonempty :
    {cmdline s : List ℕ} (line : List ℕ)
    → IsString cmdline s
    → s ≢ []
    → detab cmdline ≡ some line
    → parse_args cmdline ≡ find_words line 0 0 false
unfolding parse_args
parse_args_nonempty {s = []} line p n d = absurd (n refl)
parse_args_nonempty {s = c ∷ cs} line p n d =
    let nonzero : suc (length cs) == 0 ≡ false = ground arith in
    rw (strlen-length p, nonzero, d) refl

-- A line with at most 32 words: parse_args returns, and the places it gives to argv are those of the
-- words between spaces and tabs, in order, each ended by a NUL.
pub parse_args-Args :
    {cmdline s : List ℕ}
    → IsString cmdline s
    → length (words s) ≤ max_args
    → (line : List ℕ) × (places : List ℕ) × (parse_args cmdline ≡ some (line, places))
      × Args line places (words s)
unfolding parse_args words
parse_args-Args {cmdline} {s = []} p h = (cmdline, [], rw (strlen-length p) refl, tt)
parse_args-Args {cmdline} {s = c ∷ cs} p h =
    let (line, runs, q) = detab-spaced p in
    let same = words-spaced (c ∷ cs) in
    let room : 0 + length (words (map spaced (c ∷ cs))) ≤ max_args =
      omega (arith, ap length same, h) in
    let (line', places, found, args) = (find_words-Args q (spaced-NoTab (c ∷ cs))).0 0 0 room in
    (
      line',
      places,
      parse_args_nonempty line p (cc) runs ∙ found,
      ArgsFrom-Args line' places (words (c ∷ cs)) (subst (ArgsFrom 0 line' places) same args),
    )

too_many :
    {line s : List ℕ}
    → IsString line s
    → NoTab s
    → ((at i : ℕ)
        → i ≤ max_args
        → max_args < i + length (words s)
        → find_words line at i false ≡ none)
      × ((at i : ℕ)
          → i ≤ max_args
          → max_args < i + length (tail_words s)
          → find_words line at i true ≡ none)
unfolding find_words words
too_many (nul {c} {rest} e) t = ((λ at i l h. ground arith), λ at i l h. ground arith)
too_many (char {c} {s = line} {xs = s} n p) t =
    let ih = too_many p t.1 in
    let zero_test : c == 0 ≡ false = ground arith in
    elim (Bool-cases (blank c)) [
      | inl b ↦
          let e : c ≡ b' ' = ground (arith, t.0) in
          (
            (λ at i l h.
                rw (e, ih.0 (suc at) i l (subst (λ x. max_args < i + length (words (x ∷ s))) e h))
                  refl),
            λ at i l h.
                rw
                  (
                    e,
                    ih.0 (suc at) i l (subst (λ x. max_args < i + length (tail_words (x ∷ s))) e h),
                  )
                  refl,
          )
      | inr b ↦
          let space_test : c == b' ' ≡ false = ground arith in
          (
            (λ at i l h. elim (Bool-cases (leb max_args i)) [
              | inl full ↦ rw (zero_test, space_test, full) refl
              | inr room ↦
                  rw
                    (
                      zero_test,
                      space_test,
                      room,
                      ih.1 (suc at) (suc i) (ground arith) (ground (arith, h, b)),
                    )
                    refl
            ]),
            λ at i l h. rw (zero_test, space_test, ih.1 (suc at) i l (ground (arith, h, b))) refl,
          )
    ]

-- A line with more than 32 words: parse_args writes behind argv.
pub parse_args_overflow :
    {cmdline s : List ℕ}
    → IsString cmdline s
    → max_args < length (words s)
    → parse_args cmdline ≡ none
unfolding words
parse_args_overflow {s = []} p h = absurd (omega arith)
parse_args_overflow {s = c ∷ cs} p h =
    let (line, runs, q) = detab-spaced p in
    let same = words-spaced (c ∷ cs) in
    parse_args_nonempty line p (cc) runs
    ∙ (too_many q (spaced-NoTab (c ∷ cs))).0 0 0 (omega arith) (omega (arith, ap length same, h))
